-- ===== src/Encoder/Float.antt =====
-- pkg/msgpack/encode_number.go: floats, as their bits, or as integers under the option.
use msgpack.Prelude.{ℕ, ◌-◌, ◌^◌, not, ◌||◌, ◌&&◌, ◌==◌, ltb, Option, some, none, if◌then◌else◌}
use msgpack.Prelude.Int.{ℤ, pos, leb_ℤ}
use msgpack.Wire.Code.{float_code, double_code}
use msgpack.Float.{
  Float, not_finite, finite, float64_from_bits, float32_from_bits, magnitude, is_integral, Platform,
  to_int64,
}
use msgpack.Decoder.{has_flag}
use msgpack.Encoder.{Encoding, use_compact_floats_flag}
use msgpack.Encoder.Number.{write4, write8, encode_int}

module _ (cpu : Platform) where
  -- `int64(n)`, where it converts back to n. No int64 converts to NaN, an infinity, or a float of
  -- more than 2^63. What the platform makes of 2^63 converts back to it if it is at most `near`
  -- below; 2^63 itself is the next float.
  unfoldable pub compact_int : ℕ → Float → Option ℤ
  unfolding magnitude is_integral to_int64
  compact_int near not_finite = none
  compact_int near (finite neg m e) =
      if not (is_integral m e) || ltb (2 ^ 63) (magnitude m e)
      then none
      else if not neg && magnitude m e == 2 ^ 63
      then if leb_ℤ (pos (2 ^ 63 - near)) cpu.int64_of_two_63
        then some cpu.int64_of_two_63
        else none
      else some (to_int64 cpu neg (magnitude m e))

  abbrev pub compact_or : Option ℤ → Encoding (Unit {0}) → Encoding (Unit {0})
  compact_or (some z) write_bits = encode_int z
  compact_or none write_bits = write_bits

  -- The float with the bits `n`.
  unfoldable pub encode_float32 : ℕ → Encoding (Unit {0})
  unfolding compact_int
  encode_float32 n e =
      if has_flag e.flags use_compact_floats_flag
      then compact_or (compact_int (2 ^ 38) (float32_from_bits n)) (write4 float_code n) e
      else write4 float_code n e

  unfoldable pub encode_float64 : ℕ → Encoding (Unit {0})
  unfolding compact_int
  encode_float64 n e =
      if has_flag e.flags use_compact_floats_flag
      then compact_or (compact_int (2 ^ 9) (float64_from_bits n)) (write8 double_code n) e
      else write8 double_code n e
