-- ===== src/Float.antt =====
-- Go's floats as their IEEE 754 bit patterns, as far as the integer decoders look at them.
use msgpack.Prelude.{
  ℕ, zero, suc, ◌+◌, ◌-◌, ◌*◌, ◌/◌, ◌%◌, ◌^◌, Bool, true, not, ◌&&◌, ◌||◌, leb, ltb, ◌==◌,
  if◌then◌else◌,
}
use msgpack.Prelude.Int.{ℤ, pos, negsuc}

-- A finite value is ± significand * 2 ^ exponent / 2 ^ 1075. Infinities and NaN are not told apart.
pub data Float : Type 0 where
  not_finite : Float
  finite : Bool → ℕ → ℕ → Float

-- `p` fraction bits and a largest exponent field `top`; `shift` scales to 2 ^ 1075.
abbrev of_fields : ℕ → ℕ → ℕ → Bool → ℕ → ℕ → Float
of_fields p top shift neg exponent fraction =
    if exponent == top
    then not_finite
    else if exponent == 0
    then finite neg fraction (1 + shift)
    else finite neg (2 ^ p + fraction) (exponent + shift)

-- math.Float64frombits, and math.Float32frombits with the widening to float64, which is exact.
unfoldable pub float64_from_bits : ℕ → Float
float64_from_bits b = of_fields 52 2047 0 (leb (2 ^ 63) b) (b / 2 ^ 52 % 2048) (b % 2 ^ 52)

unfoldable pub float32_from_bits : ℕ → Float
float32_from_bits b = of_fields 23 255 925 (leb (2 ^ 31) b) (b / 2 ^ 23 % 256) (b % 2 ^ 23)

-- The position of the highest of the bits 0 to `k`.
abbrev top_bit : ℕ → ℕ → ℕ
top_bit zero n = 0
top_bit (suc k) n = if leb (2 ^ suc k) n then suc k else top_bit k n

-- The bits of `float64(f)` from those of a float32: exact, and a NaN becomes quiet.
abbrev widened : ℕ → ℕ → ℕ → ℕ
widened sign exponent fraction =
    if exponent == 255
    then sign * 2 ^ 63
      + 2047 * 2 ^ 52
      + (if fraction == 0 then 0 else 2 ^ 51 + fraction % 2 ^ 22 * 2 ^ 29)
    else if exponent == 0
    then sign * 2 ^ 63
      + (if fraction == 0
          then 0
          else (874 + top_bit 22 fraction) * 2 ^ 52
            + (fraction - 2 ^ top_bit 22 fraction) * 2 ^ (52 - top_bit 22 fraction))
    else sign * 2 ^ 63 + (exponent + 896) * 2 ^ 52 + fraction * 2 ^ 29

unfoldable pub widen : ℕ → ℕ
widen b = widened (b / 2 ^ 31) (b / 2 ^ 23 % 256) (b % 2 ^ 23)

-- The bits of the float nearest to a natural number below 2^64, ties to even, where the float has
-- `p` fraction bits and the exponent bias `bias`.
abbrev nearest_even : ℕ → ℕ → ℕ
nearest_even n unit =
    if ltb unit (2 * (n % unit)) || unit == 2 * (n % unit) && n / unit % 2 == 1
    then n / unit + 1
    else n / unit

abbrev rounded : ℕ → ℕ → ℕ → ℕ
rounded p bias n =
    let e = top_bit 63 n in
    if n == 0
    then 0
    else if leb e p
    then (e + bias) * 2 ^ p + (n - 2 ^ e) * 2 ^ (p - e)
    else (e + bias - 1) * 2 ^ p + nearest_even n (2 ^ (e - p))

-- `float32(n)` and `float64(n)` of an int64.
unfoldable pub float32_of_int : ℤ → ℕ
float32_of_int (pos n) = rounded 23 127 n
float32_of_int (negsuc n) = 2 ^ 31 + rounded 23 127 (suc n)

unfoldable pub float64_of_int : ℤ → ℕ
float64_of_int (pos n) = rounded 52 1023 n
float64_of_int (negsuc n) = 2 ^ 63 + rounded 52 1023 (suc n)

-- The bits of `float32(float64(f))`: a NaN becomes quiet.
unfoldable pub quiet : ℕ → ℕ
quiet b =
    if b / 2 ^ 23 % 256 == 255 && not (b % 2 ^ 23 == 0) && b / 2 ^ 22 % 2 == 0
    then b + 2 ^ 22
    else b

-- The absolute value of a finite float without its fraction (math.Trunc).
unfoldable pub magnitude : ℕ → ℕ → ℕ
magnitude m e = if leb 1075 e then m * 2 ^ (e - 1075) else m / 2 ^ (1075 - e)

-- `f == math.Trunc(f)`
unfoldable pub is_integral : ℕ → ℕ → Bool
is_integral m e = if leb 1075 e then true else m % 2 ^ (1075 - e) == 0

-- Go leaves the conversion of a float that the integer type cannot hold to the platform. Of the
-- floats that the decoders convert, these two are not in range: 2^64 for uint64, 2^63 for int64.
pub record Platform : Type 0 where
  pub uint64_of_two_64 : ℕ
  pub int64_of_two_63 : ℤ

module _ (cpu : Platform) where
  -- `uint64(f)` for an integral f from 0 to 2^64
  unfoldable pub to_uint64 : ℕ → ℕ
  to_uint64 n = if ltb n (2 ^ 64) then n else cpu.uint64_of_two_64

  -- `int64(f)` for an integral f from -2^63 to 2^63
  unfoldable pub to_int64 : Bool → ℕ → ℤ
  to_int64 neg n =
      if n == 0
      then pos 0
      else if neg
      then negsuc (n - 1)
      else if ltb n (2 ^ 63)
      then pos n
      else cpu.int64_of_two_63
