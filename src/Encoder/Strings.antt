-- ===== src/Encoder/Strings.antt =====
-- pkg/msgpack/encode_slice.go, encode_map.go: the encoders of []string, map[string]string and
-- map[string]bool. A map is its entries in the order in which one iteration visits them.
pub mod General
use msgpack.Prelude.{ℕ, List, [], ◌∷◌, Bool, Option, none, some, length, if◌then◌else◌}
use msgpack.Outcome.{◌>>◌, pure}
use msgpack.Decoder.{Bytes, has_flag}
use msgpack.Dynamic.Order.{sort_by_key}
use msgpack.Encoder.{Encoder, Encoding, sort_map_keys_flag}
use msgpack.Encoder.Text.{encode_nil, encode_bool}
use msgpack.Encoder.Length.{encode_array_len, encode_map_len}
use msgpack.Encoder.Intern.{encode_string}
use msgpack.Encoder.Dynamic.{Field, encode_fields}

unfoldable pub encode_strings : List Bytes → Encoding (Unit {0})
encode_strings [] = pure tt
encode_strings (s ∷ ss) = do encode_string s; encode_strings ss

-- A nil slice or map is `none`.
unfoldable pub encode_string_slice : Option (List Bytes) → Encoding (Unit {0})
encode_string_slice none = encode_nil
encode_string_slice (some ss) = do encode_array_len (length ss); encode_strings ss

module _ {V : Type 0} (encode_value : V → Encoding (Unit {0})) where
  unfoldable pub with_values : List (Bytes × V) → List Field
  with_values [] = []
  with_values ((k, v) ∷ m) = (k, encode_value v) ∷ with_values m

  -- The loop over the sorted keys.
  unfoldable pub encode_sorted_map : List (Bytes × V) → Encoding (Unit {0})
  unfolding with_values sort_by_key
  encode_sorted_map m = encode_fields (sort_by_key (with_values m))

  -- After the length, sorted or in the order of the iteration.
  unfoldable pub encode_map_entries : List (Bytes × V) → Encoding (Unit {0})
  unfolding with_values encode_sorted_map
  encode_map_entries m e =
      if has_flag e.flags sort_map_keys_flag
      then encode_sorted_map m e
      else encode_fields (with_values m) e

unfoldable pub encode_map_string_string : Option (List (Bytes × Bytes)) → Encoding (Unit {0})
encode_map_string_string none = encode_nil
encode_map_string_string (some m) = do encode_map_len (length m); encode_map_entries encode_string m

unfoldable pub encode_map_string_bool : Option (List (Bytes × Bool)) → Encoding (Unit {0})
encode_map_string_bool none = encode_nil
encode_map_string_bool (some m) = do encode_map_len (length m); encode_map_entries encode_bool m
