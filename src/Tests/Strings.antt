-- ===== src/Tests/Strings.antt =====
-- Slices and maps of strings at concrete inputs.
use mathlib.Core.Option.{get_or}
use msgpack.Encoder.Intern.{same}
use msgpack.Decoder.Strings.{decode_map_string_string}
use msgpack.RoundTrip.StringMaps.{decode_map_string_string-encode_map_string_string}
use msgpack.RoundTrip.StringMaps.Find.{find, first_of, HasDistinctKeys}
use msgpack.Prelude.{◌≡◌, refl, [], ◌∷◌, ◌++◌, none, some, List, true, false, Bool, arith}
use msgpack.Outcome.{ok}
use msgpack.Dynamic.{Value}
use msgpack.Encoder.Dynamic.{encode}
use msgpack.Encoder.Strings.{encode_string_slice, encode_map_string_string, encode_map_string_bool}
use msgpack.Encoder.Strings.General.{
  texts, values_of, encode_string_slice-texts, encode_map_string-values_of,
}
use msgpack.Decoder.{Bytes}
use msgpack.Decoder.Strings.{decode_string_slice}
use msgpack.RoundTrip.Runs.{feed}
use msgpack.RoundTrip.Dynamic.Strings.{decode_string_slice-encode_string_slice}
use msgpack.Tests.{amd64}
use msgpack.Tests.Dynamic.{sorting, source}

abbrev names : List Bytes
names = (98 ∷ []) ∷ (97 ∷ 97 ∷ []) ∷ []

encode_string_slice-texts_example :
    encode_string_slice (some names) sorting ≡ encode amd64 (Value.slice (texts names)) sorting
encode_string_slice-texts_example = encode_string_slice-texts amd64 names sorting

abbrev capitals : List (Bytes × Bytes)
capitals = (98 ∷ [], 66 ∷ []) ∷ (97 ∷ [], 65 ∷ []) ∷ []

abbrev switches : List (Bytes × Bool)
switches = (98 ∷ [], true) ∷ (97 ∷ [], false) ∷ []

encode_map_string-values_of_example :
    (encode_map_string_string (some capitals) sorting
      ≡ encode amd64 (Value.map (values_of Value.text capitals)) sorting)
    × (encode_map_string_bool (some switches) sorting
        ≡ encode amd64 (Value.map (values_of Value.bool switches)) sorting)
encode_map_string-values_of_example = encode_map_string-values_of amd64 capitals switches sorting

decode_string_slice-encode_string_slice_example :
    (bs : Bytes) × (encode_string_slice (some names) sorting
      ≡ ok tt (record sorting { out = [] ++ bs }))
    × (decode_string_slice none (feed bs source) ≡ ok (some names) source)
decode_string_slice-encode_string_slice_example =
    decode_string_slice-encode_string_slice none names sorting source (omega arith)
      (omega arith, (omega arith, tt)) (record { no_intern = refl; no_compact = refl }) refl
      (record {
        attached = refl;
        sized = refl;
        silent = refl;
        direct = refl;
        strict = refl;
        allowed = tt;
      })
      (omega arith)

-- {"b": "y", "a": "w"} into {"a": "x", "c": "z"}
abbrev new_entries : List (Bytes × Bytes)
new_entries = (98 ∷ [], 121 ∷ []) ∷ (97 ∷ [], 119 ∷ []) ∷ []

abbrev old_entries : List (Bytes × Bytes)
old_entries = (97 ∷ [], 120 ∷ []) ∷ (99 ∷ [], 122 ∷ []) ∷ []

new_entries-HasDistinctKeys : HasDistinctKeys new_entries
unfolding find same
new_entries-HasDistinctKeys = (refl, (refl, tt))

decode_map_string_string-encode_map_string_string_example :
    (bs : Bytes) × (new : List (Bytes × Bytes)) × (encode_map_string_string
        (some new_entries)
        sorting
      ≡ ok tt (record sorting { out = sorting.out ++ bs }))
    × (decode_map_string_string (some old_entries) (feed bs source) ≡ ok (some new) source)
    × ((key : Bytes)
        → find key new ≡ first_of (find key new_entries) (find key (get_or (some old_entries) [])))
decode_map_string_string-encode_map_string_string_example =
    decode_map_string_string-encode_map_string_string (some old_entries) new_entries sorting source
      new_entries-HasDistinctKeys (omega arith)
      ((omega arith, omega arith, (omega arith, omega arith, tt)))
      (record { no_intern = refl; no_compact = refl }) refl
      (record {
        attached = refl;
        sized = refl;
        silent = refl;
        direct = refl;
        strict = refl;
        allowed = tt;
      })
      (omega arith)
