-- ===== src/Encoder/Strings/General.antt =====
-- The encoders of []string, map[string]string and map[string]bool against the general one.
use msgpack.Prelude.{
  ℕ, suc, ◌≡◌, refl, ap, List, [], ◌∷◌, Bool, some, length, if_cases, ltb, leb, Bool-cases, inl,
  inr, ◌++◌,
}
use msgpack.Outcome.{ok, ◌>>◌}
use msgpack.Float.{Platform}
use msgpack.Decoder.{Bytes, has_flag}
use msgpack.Dynamic.{Value, Items, Entries, no_items, item, no_entries, entry, count_items}
use msgpack.Encoder.{Encoder, Encoding, sort_map_keys_flag}
use msgpack.Encoder.Text.{encode_bool}
use msgpack.Encoder.Length.{encode_map_len}
use msgpack.Encoder.Intern.{encode_string}
use msgpack.Encoder.Number.{write1, write2, write4}
use msgpack.Encoder.{write, write_code}
use msgpack.Encoder.Dynamic.{encode, encode_items, encode_map_fields, fields_of}
use msgpack.Encoder.Strings.{
  encode_strings, encode_string_slice, with_values, encode_sorted_map, encode_map_entries,
  encode_map_string_string, encode_map_string_bool,
}

-- The same slices and maps with elements of type `any`.
unfoldable pub texts : List Bytes → Items
texts [] = no_items
texts (s ∷ ss) = item (Value.text s) (texts ss)

unfoldable pub values_of : {V : Type 0} → (V → Value) → List (Bytes × V) → Entries
values_of f [] = no_entries
values_of f ((k, v) ∷ m) = entry k (f v) (values_of f m)

count_items-texts : (ss : List Bytes) → count_items (texts ss) ≡ length ss
unfolding texts
count_items-texts [] = refl
count_items-texts (s ∷ ss) = ap suc (count_items-texts ss)

encode_items-texts :
    (cpu : Platform) (ss : List Bytes) → encode_items cpu (texts ss) ≡ encode_strings ss
unfolding texts encode encode_strings
encode_items-texts cpu [] = refl
encode_items-texts cpu (s ∷ ss) = ap (λ rest. encode_string s >> rest) (encode_items-texts cpu ss)

-- The encoder of []string writes what Encode writes for the same strings in an []any.
pub encode_string_slice-texts :
    (cpu : Platform) (ss : List Bytes) (e : Encoder)
    → encode_string_slice (some ss) e ≡ encode cpu (Value.slice (texts ss)) e
unfolding encode encode_string_slice
encode_string_slice-texts cpu ss e = rw (count_items-texts ss, encode_items-texts cpu ss) refl

module _ {V : Type 0} (cpu : Platform) (encode_value : V → Encoding (Unit {0})) (f : V → Value)
    (same_encoder : (v : V) → encode cpu (f v) ≡ encode_value v) where
  fields_of-values_of :
      (m : List (Bytes × V)) → fields_of cpu (values_of f m) ≡ with_values encode_value m
  unfolding encode values_of with_values
  fields_of-values_of [] = refl
  fields_of-values_of ((k, v) ∷ m) =
      rw (same_encoder v) (ap (λ fs. (k, encode_value v) ∷ fs) (fields_of-values_of m))

  length-with_values : (m : List (Bytes × V)) → length (with_values encode_value m) ≡ length m
  unfolding with_values
  length-with_values [] = refl
  length-with_values ((k, v) ∷ m) = ap suc (length-with_values m)

  -- The header of a map only adds to the output.
  Writes-map_header :
      (l : ℕ) (e : Encoder)
      → (bs : Bytes) × (encode_map_len l e ≡ ok tt (record e { out = e.out ++ bs }))
  unfolding encode_map_len write1 write2 write4 write_code write
  Writes-map_header l e =
      if_cases
        (λ (m : Encoding (Unit {0})). (bs : Bytes) × (m e ≡ ok tt (record e { out = e.out ++ bs })))
        (ltb l 16) (λ _. (_, refl))
        (λ _.
          if_cases
            (λ (m : Encoding (Unit {0})).
              (bs : Bytes) × (m e ≡ ok tt (record e { out = e.out ++ bs })))
            (leb l 65535) (λ _. (_, refl)) (λ _. (_, refl)))

  general_map :
      (m : List (Bytes × V)) (e : Encoder)
      → (do encode_map_len (length m); encode_map_entries encode_value m) e
        ≡ encode cpu (Value.map (values_of f m)) e
  unfolding encode encode_map_fields encode_map_entries encode_sorted_map
  general_map m e =
      let (bs, header) = Writes-map_header (length m) e in
      elim (Bool-cases (has_flag e.flags sort_map_keys_flag)) [
        | inl on ↦ rw (fields_of-values_of m, length-with_values m, header, on) refl
        | inr off ↦ rw (fields_of-values_of m, length-with_values m, header, off) refl
      ]

-- The encoders of map[string]string and map[string]bool write what Encode writes for the same
-- entries in a map[string]any, sorted or not.
pub encode_map_string-values_of :
    (cpu : Platform) (m : List (Bytes × Bytes)) (b : List (Bytes × Bool)) (e : Encoder)
    → (encode_map_string_string (some m) e ≡ encode cpu (Value.map (values_of Value.text m)) e)
      × (encode_map_string_bool (some b) e ≡ encode cpu (Value.map (values_of Value.bool b)) e)
unfolding encode encode_map_string_string encode_map_string_bool
encode_map_string-values_of cpu m b e = (
  general_map cpu encode_string Value.text (λ v. refl) m e,
  general_map cpu encode_bool Value.bool (λ v. refl) b e,
)
