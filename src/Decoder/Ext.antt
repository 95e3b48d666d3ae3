-- ===== src/Decoder/Ext.antt =====
-- pkg/msgpack/ext.go and decode_map.go: headers of extensions, and a map length that follows one.
use msgpack.Prelude.{ℕ, [], ◌∷◌, if◌then◌else◌}
use msgpack.Prelude.Int.{ℤ, signed}
use msgpack.Outcome.{Error, switch, times, ◌>>=◌, ◌>>◌, pure, fail}
use msgpack.Wire.Code.{
  is_ext, fix_ext1_code, fix_ext2_code, fix_ext4_code, fix_ext8_code, fix_ext16_code, ext8_code,
  ext16_code, ext32_code,
}
use msgpack.Decoder.{Decoding}
use msgpack.Decoder.Read.{read_code, skip_n}
use msgpack.Decoder.Limit.{reject_oversized_bytes, uint32_to_int}
use msgpack.Decoder.Word.{uint8, uint16, uint32}
use msgpack.Decoder.Length.{map_len}

abbrev pub checked_len : ℕ → Decoding ℕ
checked_len n = do reject_oversized_bytes n; pure n

unfoldable pub parse_ext_len : ℕ → Decoding ℕ
parse_ext_len c =
    switch c
      ((fix_ext1_code ∷ [], pure 1)
        ∷ (fix_ext2_code ∷ [], pure 2)
        ∷ (fix_ext4_code ∷ [], pure 4)
        ∷ (fix_ext8_code ∷ [], pure 8)
        ∷ (fix_ext16_code ∷ [], pure 16)
        ∷ (ext8_code ∷ [], (do n ← uint8; checked_len n))
        ∷ (ext16_code ∷ [], (do n ← uint16; checked_len n))
        ∷ (ext32_code ∷ [], (do n ← uint32; size ← uint32_to_int n; checked_len size))
        ∷ [])
      (fail (Error.invalid_code c))

unfoldable pub ext_header : ℕ → Decoding (ℤ × ℕ)
ext_header c = do ext_len ← parse_ext_len c; ext_id ← read_code; pure (signed 7 ext_id, ext_len)

unfoldable pub decode_ext_header : Decoding (ℤ × ℕ)
decode_ext_header = do c ← read_code; ext_header c

unfoldable pub skip_ext : ℕ → Decoding (Unit {0})
skip_ext c = do n ← parse_ext_len c; skip_n 1; skip_n n

unfoldable pub ext_header_len : ℕ → ℕ
ext_header_len c =
    switch c ((ext8_code ∷ [], 1) ∷ (ext16_code ∷ [], 2) ∷ (ext32_code ∷ [], 4) ∷ []) 0

unfoldable pub skip_ext_header : ℕ → Decoding (Unit {0})
skip_ext_header c = do _ ← read_code; times (ext_header_len c) (do _ ← read_code; pure tt)

-- Extension headers before the map are passed over.
abbrev pub map_len_after : ℕ → Decoding ℤ
map_len_after c = if is_ext c then (do skip_ext_header c; c' ← read_code; map_len c') else map_len c

unfoldable pub decode_map_len : Decoding ℤ
decode_map_len = do c ← read_code; map_len_after c
