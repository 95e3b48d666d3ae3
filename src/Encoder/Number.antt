-- ===== src/Encoder/Number.antt =====
-- pkg/msgpack/encode_number.go: integers, with their type or in the shortest form.
use msgpack.Prelude.{ℕ, ◌/◌, ◌%◌, ◌^◌, [], ◌∷◌, leb, if◌then◌else◌}
use msgpack.Prelude.Int.{ℤ, pos, negsuc, leb_ℤ, wrap, signed}
use msgpack.Wire.Code.{
  uint8_code, uint16_code, uint32_code, uint64_code, int8_code, int16_code, int32_code, int64_code,
  neg_fixed_num_low,
}
use msgpack.Decoder.{Bytes, has_flag}
use msgpack.Encoder.{Encoding, write, write_code, use_compact_ints_flag}

-- `byte(n >> k)`
abbrev lane : ℕ → ℕ → ℕ
lane n k = n / 2 ^ k % 256

abbrev pub bytes16 : ℕ → Bytes
bytes16 n = lane n 8 ∷ lane n 0 ∷ []

abbrev pub bytes32 : ℕ → Bytes
bytes32 n = lane n 24 ∷ lane n 16 ∷ lane n 8 ∷ lane n 0 ∷ []

abbrev pub bytes64 : ℕ → Bytes
bytes64 n =
    lane n 56 ∷ lane n 48 ∷ lane n 40 ∷ lane n 32 ∷ lane n 24 ∷ lane n 16 ∷ lane n 8 ∷ lane n 0 ∷ []

unfoldable pub write1 : ℕ → ℕ → Encoding (Unit {0})
unfolding write
write1 code n = write (code ∷ n ∷ [])

unfoldable pub write2 : ℕ → ℕ → Encoding (Unit {0})
unfolding write
write2 code n = write (code ∷ bytes16 n)

unfoldable pub write4 : ℕ → ℕ → Encoding (Unit {0})
unfolding write
write4 code n = write (code ∷ bytes32 n)

unfoldable pub write8 : ℕ → ℕ → Encoding (Unit {0})
unfolding write
write8 code n = write (code ∷ bytes64 n)

unfoldable pub encode_uint8 : ℕ → Encoding (Unit {0})
unfolding write1
encode_uint8 n = write1 uint8_code n

unfoldable pub encode_uint16 : ℕ → Encoding (Unit {0})
unfolding write2
encode_uint16 n = write2 uint16_code n

unfoldable pub encode_uint32 : ℕ → Encoding (Unit {0})
unfolding write4
encode_uint32 n = write4 uint32_code n

unfoldable pub encode_uint64 : ℕ → Encoding (Unit {0})
unfolding write8
encode_uint64 n = write8 uint64_code n

unfoldable pub encode_int8 : ℤ → Encoding (Unit {0})
unfolding write1
encode_int8 n = write1 int8_code (wrap 8 n)

unfoldable pub encode_int16 : ℤ → Encoding (Unit {0})
unfolding write2
encode_int16 n = write2 int16_code (wrap 16 n)

unfoldable pub encode_int32 : ℤ → Encoding (Unit {0})
unfolding write4
encode_int32 n = write4 int32_code (wrap 32 n)

unfoldable pub encode_int64 : ℤ → Encoding (Unit {0})
unfolding write8
encode_int64 n = write8 int64_code (wrap 64 n)

-- An uint64 in the shortest form; the type is lost.
unfoldable pub encode_uint : ℕ → Encoding (Unit {0})
unfolding encode_uint8 encode_uint16 encode_uint32 encode_uint64 write_code
encode_uint n =
    if leb n 127
    then write_code (n % 256)
    else if leb n 255
    then encode_uint8 (n % 2 ^ 8)
    else if leb n 65535
    then encode_uint16 (n % 2 ^ 16)
    else if leb n 4294967295
    then encode_uint32 (n % 2 ^ 32)
    else encode_uint64 n

-- `int8(negFixedNumLowByte)`, which is -32.
abbrev pub neg_fixed_num_low_int : ℤ
neg_fixed_num_low_int = signed 7 neg_fixed_num_low

-- An int64 in the shortest form; the type is lost.
unfoldable pub encode_int : ℤ → Encoding (Unit {0})
unfolding encode_uint encode_int8 encode_int16 encode_int32 encode_int64 write_code
encode_int n =
    if leb_ℤ (pos 0) n
    then encode_uint (wrap 64 n)
    else if leb_ℤ neg_fixed_num_low_int n
    then write_code (wrap 8 n)
    else if leb_ℤ (negsuc 127) n
    then encode_int8 (signed 7 (wrap 8 n))
    else if leb_ℤ (negsuc 32767) n
    then encode_int16 (signed 15 (wrap 16 n))
    else if leb_ℤ (negsuc 2147483647) n
    then encode_int32 (signed 31 (wrap 32 n))
    else encode_int64 n

unfoldable pub encode_uint8_cond : ℕ → Encoding (Unit {0})
unfolding encode_uint encode_uint8
encode_uint8_cond n e =
    if has_flag e.flags use_compact_ints_flag then encode_uint n e else encode_uint8 n e

unfoldable pub encode_uint16_cond : ℕ → Encoding (Unit {0})
unfolding encode_uint encode_uint16
encode_uint16_cond n e =
    if has_flag e.flags use_compact_ints_flag then encode_uint n e else encode_uint16 n e

unfoldable pub encode_uint32_cond : ℕ → Encoding (Unit {0})
unfolding encode_uint encode_uint32
encode_uint32_cond n e =
    if has_flag e.flags use_compact_ints_flag then encode_uint n e else encode_uint32 n e

unfoldable pub encode_uint64_cond : ℕ → Encoding (Unit {0})
unfolding encode_uint encode_uint64
encode_uint64_cond n e =
    if has_flag e.flags use_compact_ints_flag then encode_uint n e else encode_uint64 n e

unfoldable pub encode_int8_cond : ℤ → Encoding (Unit {0})
unfolding encode_int encode_int8
encode_int8_cond n e =
    if has_flag e.flags use_compact_ints_flag then encode_int n e else encode_int8 n e

unfoldable pub encode_int16_cond : ℤ → Encoding (Unit {0})
unfolding encode_int encode_int16
encode_int16_cond n e =
    if has_flag e.flags use_compact_ints_flag then encode_int n e else encode_int16 n e

unfoldable pub encode_int32_cond : ℤ → Encoding (Unit {0})
unfolding encode_int encode_int32
encode_int32_cond n e =
    if has_flag e.flags use_compact_ints_flag then encode_int n e else encode_int32 n e

unfoldable pub encode_int64_cond : ℤ → Encoding (Unit {0})
unfolding encode_int encode_int64
encode_int64_cond n e =
    if has_flag e.flags use_compact_ints_flag then encode_int n e else encode_int64 n e
