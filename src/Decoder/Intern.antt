-- ===== src/Decoder/Intern.antt =====
-- pkg/msgpack/intern.go, decode_string.go: strings read by index from the dictionary.
use msgpack.Prelude.{
  ℕ, zero, suc, Bool, ◌&&◌, ◌||◌, not, leb, ltb, [], ◌∷◌, ◌++◌, length, get_or, if◌then◌else◌,
  bit_and,
}
use msgpack.Prelude.Int.{ℤ, pos, negsuc, leb_ℤ}
use msgpack.Outcome.{Error, ok, err, switch, ◌>>=◌, pure, fail}
use msgpack.Wire.Code.{
  nil_code, is_fixed_string, fixed_str_mask, fix_ext1_code, fix_ext2_code, fix_ext4_code, str8_code,
  str16_code, str32_code, bin8_code, bin16_code, bin32_code,
}
use msgpack.Encoder.Intern.{is_internable, interned_string_ext_id}
use msgpack.Decoder.{Decoder, Decoding, Bytes, has_flag, use_interned_strings_flag}
use msgpack.Decoder.Read.{read_code, read_n}
use msgpack.Decoder.Limit.{uint32_to_int}
use msgpack.Decoder.Word.{uint8, uint16, uint32}
use msgpack.Decoder.Ext.{ext_header}
use msgpack.Decoder.Length.{bytes_len}
use msgpack.Decoder.Text.{string, string_with_len}

unfoldable pub decode_interned_string_index : ℕ → Decoding ℕ
decode_interned_string_index ext_len =
    switch ext_len
      ((1 ∷ [], (do n ← uint8; pure n))
        ∷ (2 ∷ [], (do n ← uint16; pure n))
        ∷ (4 ∷ [], (do n ← uint32; uint32_to_int n))
        ∷ [])
      (fail (Error.unsupported_ext_len ext_len))

unfoldable pub interned_string_at_index : ℕ → Decoding Bytes
interned_string_at_index idx d =
    if leb (length d.dict) idx
    then err (Error.no_interned_string idx) d
    else ok (get_or d.dict idx []) d

abbrev pub learn : Bytes → Bool → Decoding Bytes
learn s intern d =
    if is_internable intern s (length d.dict)
    then ok s (record d { dict = d.dict ++ s ∷ [] })
    else ok s d

unfoldable pub decode_interned_string_with_len : ℕ → Bool → Decoding Bytes
decode_interned_string_with_len zero intern = pure []
decode_interned_string_with_len (suc n) intern = do
  s ← string_with_len (pos (suc n))
  learn s intern

-- `typeID != internedStringExtID`
abbrev pub is_intern_id : ℤ → Bool
is_intern_id id = leb_ℤ id interned_string_ext_id && leb_ℤ interned_string_ext_id id

abbrev pub decode_intern_ext : ℤ × ℕ → Decoding Bytes
decode_intern_ext (type_id, ext_len) =
    if not (is_intern_id type_id)
    then fail (Error.unexpected_ext ext_len)
    else (do idx ← decode_interned_string_index ext_len; interned_string_at_index idx)

-- What follows the leading byte.
abbrev pub interned_after : Bool → ℕ → Decoding Bytes
interned_after intern c =
    if is_fixed_string c
    then decode_interned_string_with_len (bit_and c fixed_str_mask) intern
    else switch c
        ((nil_code ∷ [], pure [])
          ∷ (
            fix_ext1_code ∷ fix_ext2_code ∷ fix_ext4_code ∷ [],
            (do h ← ext_header c; decode_intern_ext h),
          )
          ∷ (str8_code ∷ bin8_code ∷ [], (do n ← uint8; decode_interned_string_with_len n intern))
          ∷ (
            str16_code ∷ bin16_code ∷ [],
            (do n ← uint16; decode_interned_string_with_len n intern),
          )
          ∷ (
            str32_code ∷ bin32_code ∷ [],
            (do n ← uint32; size ← uint32_to_int n; decode_interned_string_with_len size intern),
          )
          ∷ [])
        (fail (Error.unexpected_code c))

unfoldable pub decode_interned_string : Bool → Decoding Bytes
decode_interned_string intern = do c ← read_code; interned_after intern c

-- `intern || len(d.dict) > 0`
abbrev pub reads_interned : Decoder → Bool
reads_interned d = has_flag d.flags use_interned_strings_flag || ltb 0 (length d.dict)

unfoldable pub decode_string : Decoding Bytes
decode_string d =
    if reads_interned d
    then decode_interned_string (has_flag d.flags use_interned_strings_flag) d
    else (read_code >>= string) d

-- `n == -1` is nil; a length of 0 reads nothing.
unfoldable pub temp_with_len : ℤ → Decoding Bytes
temp_with_len (negsuc n) = pure []
temp_with_len (pos n) = read_n n

unfoldable pub decode_string_temp : Decoding Bytes
decode_string_temp d =
    if reads_interned d
    then decode_interned_string (has_flag d.flags use_interned_strings_flag) d
    else (read_code >>= λ c. bytes_len c >>= temp_with_len) d
