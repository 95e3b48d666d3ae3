-- ===== src/Encoder/Value.antt =====
-- pkg/msgpack/encode_value.go: the encoders of the integer kinds in the table `valueEncoders`.
use msgpack.Prelude.{ℕ, ◌^◌, ◌<◌}
use msgpack.Prelude.Int.{ℤ, pos, negsuc}
use msgpack.Encoder.{Encoding}
use msgpack.Encoder.Number.{
  encode_int, encode_int8_cond, encode_int16_cond, encode_int32_cond, encode_int64_cond,
  encode_uint, encode_uint8_cond, encode_uint16_cond, encode_uint32_cond, encode_uint64_cond,
}

-- reflect.Int and reflect.Uint to reflect.Int64 and reflect.Uint64.
pub data Width : Type 0 where
  word bits8 bits16 bits32 bits64 : Width

abbrev pub bits : Width → ℕ
bits word = 64
bits bits8 = 8
bits bits16 = 16
bits bits32 = 32
bits bits64 = 64

-- The sign bit aside.
abbrev pub value_bits : Width → ℕ
value_bits word = 63
value_bits bits8 = 7
value_bits bits16 = 15
value_bits bits32 = 31
value_bits bits64 = 63

abbrev pub FitsInt : Width → ℤ → Type 0
FitsInt w (pos n) = n < 2 ^ value_bits w
FitsInt w (negsuc n) = n < 2 ^ value_bits w

abbrev pub FitsUint : Width → ℕ → Type 0
FitsUint w n = n < 2 ^ bits w

unfoldable pub encode_int_value : Width → ℤ → Encoding (Unit {0})
encode_int_value word n = encode_int n
encode_int_value bits8 n = encode_int8_cond n
encode_int_value bits16 n = encode_int16_cond n
encode_int_value bits32 n = encode_int32_cond n
encode_int_value bits64 n = encode_int64_cond n

unfoldable pub encode_uint_value : Width → ℕ → Encoding (Unit {0})
encode_uint_value word n = encode_uint n
encode_uint_value bits8 n = encode_uint8_cond n
encode_uint_value bits16 n = encode_uint16_cond n
encode_uint_value bits32 n = encode_uint32_cond n
encode_uint_value bits64 n = encode_uint64_cond n
