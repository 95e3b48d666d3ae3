-- ===== src/Time.antt =====
-- pkg/msgpack/time.go: what the codec reads of a time.Time, and time.Unix, which builds one. The
-- location is left out: it is not written, and UTC changes nothing else.
use msgpack.Prelude.{ℕ, ◌+◌, ◌-◌, ◌^◌, ◌/◌, ◌%◌}
use msgpack.Prelude.Int.{ℤ, pos, negsuc, wrap, signed}

-- The results of the methods Unix and Nanosecond.
pub record Time : Type 0 where
  pub unix : ℤ
  pub nanosecond : ℕ

abbrev pub nanoseconds_per_second : ℕ
nanoseconds_per_second = 1_000_000_000

-- Whole seconds in a number of nanoseconds, rounded down, and what is left.
abbrev pub carried : ℤ → ℤ
carried (pos n) = pos (n / nanoseconds_per_second)
carried (negsuc n) = negsuc (n / nanoseconds_per_second)

abbrev pub left_over : ℤ → ℕ
left_over (pos n) = n % nanoseconds_per_second
left_over (negsuc n) = nanoseconds_per_second - 1 - n % nanoseconds_per_second

-- `time.Unix(sec, nsec)`, whose sum of seconds wraps.
abbrev pub time_unix : ℤ → ℤ → Time
time_unix sec nsec = record {
  unix = signed 63 ((wrap 64 sec + wrap 64 (carried nsec)) % 2 ^ 64);
  nanosecond = left_over nsec;
}

abbrev pub time_ext_id : ℤ
time_ext_id = negsuc 0
