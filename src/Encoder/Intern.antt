-- ===== src/Encoder/Intern.antt =====
-- pkg/msgpack/intern.go, encode_slice.go: strings written once and then by their index.
use msgpack.Prelude.{
  ℕ, ◌%◌, ◌^◌, Bool, true, false, ◌&&◌, ◌||◌, ◌==◌, leb, ltb, List, [], ◌∷◌, Option, none, some,
  length, if◌then◌else◌,
}
use msgpack.Outcome.{Error, ◌>>◌, fail}
use msgpack.Wire.Code.{fix_ext1_code, fix_ext2_code, fix_ext4_code}
use msgpack.Prelude.Int.{ℤ, negsuc, wrap}
use msgpack.Decoder.{Bytes, has_flag, use_interned_strings_flag}
use msgpack.Encoder.{Encoder, Encoding, write_code}
use msgpack.Encoder.Number.{write1, write2, write4}
use msgpack.Encoder.Text.{encode_normal_string}

abbrev pub min_interned_string_len : ℕ
min_interned_string_len = 3

abbrev pub max_dict_len : ℕ
max_dict_len = 65535

abbrev pub interned_string_ext_id : ℤ
interned_string_ext_id = negsuc 127

-- Equality of strings.
unfoldable pub same : Bytes → Bytes → Bool
same [] [] = true
same [] (y ∷ ys) = false
same (x ∷ xs) [] = false
same (x ∷ xs) (y ∷ ys) = x == y && same xs ys

-- `idx, ok := e.dict[s]`
unfoldable pub lookup : Bytes → List (Bytes × ℕ) → Option ℕ
lookup s [] = none
lookup s ((t, i) ∷ dict) = if same t s then some i else lookup s dict

unfoldable pub encode_interned_string_index : ℕ → Encoding (Unit {0})
encode_interned_string_index idx =
    if leb idx 255
    then (do write_code fix_ext1_code; write1 (wrap 8 interned_string_ext_id) (idx % 2 ^ 8))
    else if leb idx 65535
    then (do write_code fix_ext2_code; write2 (wrap 8 interned_string_ext_id) (idx % 2 ^ 16))
    else if leb idx 4294967295
    then (do write_code fix_ext4_code; write4 (wrap 8 interned_string_ext_id) (idx % 2 ^ 32))
    else fail (Error.interned_index_too_large idx)

-- `intern && len(s) >= minInternedStringLen && len(dict) < maxDictLen`
abbrev pub is_internable : Bool → Bytes → ℕ → Bool
is_internable intern s dict_len =
    intern && leb min_interned_string_len (length s) && ltb dict_len max_dict_len

abbrev pub remember : Bytes → Bool → Encoder → Encoder
remember s intern e =
    if is_internable intern s (length e.dict)
    then record e { dict = (s, length e.dict) ∷ e.dict }
    else e

abbrev pub encode_looked_up : Bytes → Bool → Option ℕ → Encoding (Unit {0})
encode_looked_up s intern (some idx) e = encode_interned_string_index idx e
encode_looked_up s intern none e = encode_normal_string s (remember s intern e)

unfoldable pub encode_interned_string : Bytes → Bool → Encoding (Unit {0})
unfolding lookup
encode_interned_string s intern e = encode_looked_up s intern (lookup s e.dict) e

unfoldable pub encode_string : Bytes → Encoding (Unit {0})
encode_string v e =
    let intern = has_flag e.flags use_interned_strings_flag in
    if intern || ltb 0 (length e.dict)
    then encode_interned_string v intern e
    else encode_normal_string v e
