-- ===== src/Encoder/Length.antt =====
-- pkg/msgpack/encode_slice.go, encode_map.go, ext.go: length headers. A length is Go's `len` of
-- something, so it is not negative; the 32-bit headers keep its low 32 bits.
use msgpack.Prelude.{ℕ, ◌%◌, ◌^◌, [], ◌∷◌, leb, ltb, if◌then◌else◌, bit_or}
use msgpack.Prelude.Int.{ℤ, wrap}
use msgpack.Outcome.{switch, ◌>>◌}
use msgpack.Wire.Code.{
  bin8_code, bin16_code, bin32_code, fixed_str_low, str8_code, str16_code, str32_code,
  fixed_array_low, array16_code, array32_code, fixed_map_low, map16_code, map32_code, fix_ext1_code,
  fix_ext2_code, fix_ext4_code, fix_ext8_code, fix_ext16_code, ext8_code, ext16_code, ext32_code,
}
use msgpack.Encoder.{Encoding, write_code}
use msgpack.Encoder.Number.{write1, write2, write4}

unfoldable pub encode_bytes_len : ℕ → Encoding (Unit {0})
unfolding write1 write2 write4
encode_bytes_len l =
    if ltb l 256
    then write1 bin8_code (l % 2 ^ 8)
    else if leb l 65535
    then write2 bin16_code (l % 2 ^ 16)
    else write4 bin32_code (l % 2 ^ 32)

unfoldable pub encode_string_len : ℕ → Encoding (Unit {0})
unfolding write1 write2 write4 write_code
encode_string_len l =
    if ltb l 32
    then write_code (bit_or fixed_str_low (l % 256))
    else if ltb l 256
    then write1 str8_code (l % 2 ^ 8)
    else if leb l 65535
    then write2 str16_code (l % 2 ^ 16)
    else write4 str32_code (l % 2 ^ 32)

unfoldable pub encode_array_len : ℕ → Encoding (Unit {0})
unfolding write2 write4 write_code
encode_array_len l =
    if ltb l 16
    then write_code (bit_or fixed_array_low (l % 256))
    else if leb l 65535
    then write2 array16_code (l % 2 ^ 16)
    else write4 array32_code (l % 2 ^ 32)

unfoldable pub encode_map_len : ℕ → Encoding (Unit {0})
unfolding write2 write4 write_code
encode_map_len l =
    if ltb l 16
    then write_code (bit_or fixed_map_low (l % 256))
    else if leb l 65535
    then write2 map16_code (l % 2 ^ 16)
    else write4 map32_code (l % 2 ^ 32)

-- The last branch of `encodeExtLen`, after its switch.
abbrev pub sized_ext_len : ℕ → Encoding (Unit {0})
sized_ext_len l =
    if leb l 255
    then write1 ext8_code (l % 2 ^ 8)
    else if leb l 65535
    then write2 ext16_code (l % 2 ^ 16)
    else write4 ext32_code (l % 2 ^ 32)

unfoldable pub encode_ext_len : ℕ → Encoding (Unit {0})
unfolding write1 write2 write4 write_code
encode_ext_len l =
    switch l
      ((1 ∷ [], write_code fix_ext1_code)
        ∷ (2 ∷ [], write_code fix_ext2_code)
        ∷ (4 ∷ [], write_code fix_ext4_code)
        ∷ (8 ∷ [], write_code fix_ext8_code)
        ∷ (16 ∷ [], write_code fix_ext16_code)
        ∷ [])
      (sized_ext_len l)

unfoldable pub encode_ext_header : ℤ → ℕ → Encoding (Unit {0})
encode_ext_header ext_id ext_len = do encode_ext_len ext_len; write_code (wrap 8 ext_id)
