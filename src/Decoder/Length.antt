-- ===== src/Decoder/Length.antt =====
-- pkg/msgpack/decode_slice.go, decode_map.go, decode_string.go: the lengths in headers, -1 for nil.
use msgpack.Prelude.{ℕ, [], ◌∷◌, leb, ◌==◌, ◌&&◌, if◌then◌else◌, bit_and}
use msgpack.Prelude.Int.{ℤ, pos, negsuc}
use msgpack.Outcome.{Error, switch, ◌>>=◌, ◌>>◌, pure, fail}
use msgpack.Wire.Code.{
  nil_code, fixed_str_mask, is_fixed_string, str8_code, str16_code, str32_code, bin8_code,
  bin16_code, bin32_code, fixed_array_low, fixed_array_high, fixed_array_mask, array16_code,
  array32_code, fixed_map_low, fixed_map_high, fixed_map_mask, map16_code, map32_code,
}
use msgpack.Decoder.{Decoding}
use msgpack.Decoder.Read.{read_code}
use msgpack.Decoder.Limit.{Kind, reject_oversized_container, reject_oversized_bytes, uint32_to_int}
use msgpack.Decoder.Word.{uint8, uint16, uint32}

-- `if err := d.rejectOversizedBytes(n); err != nil { return 0, err }; return n, nil`
abbrev pub checked_bytes : ℕ → Decoding ℤ
checked_bytes n = do reject_oversized_bytes n; pure (pos n)

abbrev pub checked_container : ℕ → Kind → ℕ → Decoding ℤ
checked_container min_bytes kind n = do reject_oversized_container n min_bytes kind; pure (pos n)

unfoldable pub bytes_len : ℕ → Decoding ℤ
bytes_len c =
    if c == nil_code
    then pure (negsuc 0)
    else if is_fixed_string c
    then checked_bytes (bit_and c fixed_str_mask)
    else switch c
        ((str8_code ∷ bin8_code ∷ [], (do n ← uint8; checked_bytes n))
          ∷ (str16_code ∷ bin16_code ∷ [], (do n ← uint16; checked_bytes n))
          ∷ (
            str32_code ∷ bin32_code ∷ [],
            (do n ← uint32; size ← uint32_to_int n; checked_bytes size),
          )
          ∷ [])
        (fail (Error.invalid_code c))

unfoldable pub decode_bytes_len : Decoding ℤ
decode_bytes_len = do c ← read_code; bytes_len c

unfoldable pub array_len : ℕ → Decoding ℤ
array_len c =
    if c == nil_code
    then pure (negsuc 0)
    else if leb fixed_array_low c && leb c fixed_array_high
    then checked_container 1 Kind.array (bit_and c fixed_array_mask)
    else switch c
        ((array16_code ∷ [], (do n ← uint16; checked_container 1 Kind.array n))
          ∷ (
            array32_code ∷ [],
            (do n ← uint32; size ← uint32_to_int n; checked_container 1 Kind.array size),
          )
          ∷ [])
        (fail (Error.invalid_code c))

unfoldable pub decode_array_len : Decoding ℤ
decode_array_len = do c ← read_code; array_len c

unfoldable pub map_len : ℕ → Decoding ℤ
map_len c =
    if c == nil_code
    then pure (negsuc 0)
    else if leb fixed_map_low c && leb c fixed_map_high
    then checked_container 2 Kind.map (bit_and c fixed_map_mask)
    else if c == map16_code
    then (do size ← uint16; checked_container 2 Kind.map size)
    else if c == map32_code
    then (do size ← uint32; n ← uint32_to_int size; checked_container 2 Kind.map n)
    else fail (Error.unexpected_code c)
