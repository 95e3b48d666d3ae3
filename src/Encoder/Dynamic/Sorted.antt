-- ===== src/Encoder/Dynamic/Sorted.antt =====
-- pkg/msgpack/encode_map.go: EncodeMapSorted, and the order in which a map is visited.
use msgpack.Prelude.{suc, ◌≡◌, ◌∙◌, refl, sym, ap, true, Bool-cases, inl, inr, ◌∷◌, length}
use msgpack.Outcome.{◌>>◌}
use msgpack.Float.{Platform}
use msgpack.Decoder.{Bytes, has_flag}
use msgpack.Dynamic.{Value, Entries, no_entries, entry, count_entries}
use msgpack.Dynamic.Order.{le_bytes, insert_by_key, sort_by_key}
use msgpack.Dynamic.Canonical.{insert_entry, sort_entries, HasDistinctKeys}
use msgpack.Dynamic.Sorting.{count_entries-sort_entries}
use msgpack.Dynamic.Reordering.{Reordered, sort_entries-Reordered}
use msgpack.Encoder.{Encoder, sort_map_keys_flag}
use msgpack.Encoder.Length.{encode_map_len}
use msgpack.Encoder.Dynamic.{encode, encode_fields, encode_map_fields, fields_of}

module _ (cpu : Platform) where
  pub length-fields_of : (es : Entries) → length (fields_of cpu es) ≡ count_entries es
  unfolding encode
  length-fields_of no_entries = refl
  length-fields_of (entry k v es) = ap suc (length-fields_of es)

  fields_of-insert_entry :
      (k : Bytes) (v : Value) (es : Entries)
      → insert_by_key (k, encode cpu v) (fields_of cpu es) ≡ fields_of cpu (insert_entry k v es)
  unfolding encode insert_entry insert_by_key
  fields_of-insert_entry k v no_entries = refl
  fields_of-insert_entry k v (entry j u es) = elim (Bool-cases (le_bytes k j)) [
    | inl e ↦ rw e refl
    | inr e ↦ rw e (ap (λ fs. (j, encode cpu u) ∷ fs) (fields_of-insert_entry k v es))
  ]

  -- Sorting the keys and looking up the values is sorting the entries.
  pub sort_by_key-fields_of :
      (es : Entries) → sort_by_key (fields_of cpu es) ≡ fields_of cpu (sort_entries es)
  unfolding encode sort_entries sort_by_key
  sort_by_key-fields_of no_entries = refl
  sort_by_key-fields_of (entry k v es) =
      ap (insert_by_key (k, encode cpu v)) (sort_by_key-fields_of es)
      ∙ fields_of-insert_entry k v (sort_entries es)

module _ (cpu : Platform) (e : Encoder) (on : has_flag e.flags sort_map_keys_flag ≡ true) where
  -- With the option, a map is written as its entries by increasing keys.
  encode-map_sorted :
      (es : Entries)
      → encode cpu (Value.map es) e
        ≡ (do
          encode_map_len (count_entries (sort_entries es))
          encode_fields (fields_of cpu (sort_entries es)))
            e
  unfolding encode encode_map_fields
  encode-map_sorted es =
      rw (on, length-fields_of cpu es, sort_by_key-fields_of cpu es, count_entries-sort_entries es)
        refl

  -- With sorted keys, what Encode does with a map[string]any, to its output and its state, does not
  -- depend on the order in which the map is visited.
  pub encode-Reordered :
      (es es' : Entries)
      → Reordered es es'
      → HasDistinctKeys es
      → encode cpu (Value.map es) e ≡ encode cpu (Value.map es') e
  encode-Reordered es es' r h =
      encode-map_sorted es
      ∙ ap (λ fs. (do encode_map_len (count_entries fs); encode_fields (fields_of cpu fs)) e)
          (sort_entries-Reordered es es' r h)
      ∙ sym (encode-map_sorted es')
