-- ===== src/Decoder/Strings.antt =====
-- pkg/msgpack/decode_slice.go, decode_map.go: the decoders of []string and of map[string]string.
use msgpack.Prelude.{ℕ, zero, suc, List, [], ◌∷◌, Option, none, some, if◌then◌else◌}
use mathlib.Core.Option.{get_or}
use msgpack.Prelude.Int.{ℤ, pos, negsuc}
use msgpack.Outcome.{◌>>=◌, pure}
use msgpack.Decoder.{Decoding, Bytes}
use msgpack.Decoder.Length.{decode_array_len}
use msgpack.Decoder.Ext.{decode_map_len}
use msgpack.Decoder.Intern.{decode_string}
use msgpack.Encoder.Intern.{same}

-- The loop of decodeStringSlicePtr.
unfoldable pub decode_strings : ℕ → Decoding (List Bytes)
decode_strings zero = pure []
decode_strings (suc n) = do s ← decode_string; ss ← decode_strings n; pure (s ∷ ss)

-- A nil on the wire leaves `*ptr` as it is.
unfoldable pub strings_with_len : Option (List Bytes) → ℤ → Decoding (Option (List Bytes))
unfolding decode_strings
strings_with_len old (negsuc n) = pure old
strings_with_len old (pos n) = do ss ← decode_strings n; pure (some ss)

-- From `*ptr` to the new `*ptr`; what a call that fails leaves there is not modelled.
unfoldable pub decode_string_slice : Option (List Bytes) → Decoding (Option (List Bytes))
unfolding strings_with_len
decode_string_slice old = do n ← decode_array_len; strings_with_len old n

-- `m[key] = value` on a map[string]string.
unfoldable pub put_string : Bytes → Bytes → List (Bytes × Bytes) → List (Bytes × Bytes)
put_string key value [] = (key, value) ∷ []
put_string key value ((k, v) ∷ m) =
    let rest = put_string key value m in if same k key then (k, value) ∷ m else (k, v) ∷ rest

-- The loop of decodeMapStringStringPtr.
unfoldable pub decode_string_entries : ℕ → List (Bytes × Bytes) → Decoding (List (Bytes × Bytes))
unfolding put_string
decode_string_entries zero m = pure m
decode_string_entries (suc n) m = do
  mk ← decode_string
  mv ← decode_string
  decode_string_entries n (put_string mk mv m)

-- A nil on the wire clears `*ptr`; else the entries are put into the map that is there.
unfoldable pub string_map_with_len :
    Option (List (Bytes × Bytes)) → ℤ → Decoding (Option (List (Bytes × Bytes)))
unfolding decode_string_entries
string_map_with_len old (negsuc n) = pure none
string_map_with_len old (pos n) = do m ← decode_string_entries n (get_or old []); pure (some m)

unfoldable pub decode_map_string_string :
    Option (List (Bytes × Bytes)) → Decoding (Option (List (Bytes × Bytes)))
unfolding string_map_with_len
decode_map_string_string old = do n ← decode_map_len; string_map_with_len old n
