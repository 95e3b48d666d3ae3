-- ===== src/RoundTrip/StringMaps.antt =====
-- Maps from strings to strings: what the encoder writes, the decoder puts into the map that is there.
pub mod Find
use msgpack.Prelude.{
  ℕ, zero, suc, ◌+◌, ◌*◌, ◌^◌, ◌<◌, ◌≤◌, ◌≡◌, ◌∙◌, refl, sym, ap, Bool, List, [], ◌∷◌, ◌++◌, Option,
  none, some, length, length-append, if◌then◌else◌, if_cases, inl, inr, Bool-cases, arith,
}
use mathlib.Core.Option.{get_or}
use mathlib.Core.Path.{subst}
use msgpack.Outcome.{ok, ◌>>=◌, ◌>>◌}
use msgpack.Dynamic.Order.{le_bytes, insert_by_key, sort_by_key}
use msgpack.Decoder.{Decoder, Bytes, has_flag, depth_limit}
use msgpack.Decoder.Intern.{decode_string}
use msgpack.Decoder.Strings.{
  put_string, decode_string_entries, string_map_with_len, decode_map_string_string,
}
use msgpack.Encoder.{Encoder, Encoding, sort_map_keys_flag}
use msgpack.Encoder.Intern.{encode_string}
use msgpack.Encoder.Length.{encode_map_len}
use msgpack.Encoder.Dynamic.{encode_fields}
use msgpack.Encoder.Strings.{
  with_values, encode_sorted_map, encode_map_entries, encode_map_string_string,
}
use msgpack.RoundTrip.Runs.{feed}
use msgpack.RoundTrip.Header.{string_form, map_form, Writes-encode_map_len}
use msgpack.RoundTrip.Dynamic.Yields.{
  IsPlain, Yields, Yields-bind, Yields-pure, Emits, Emits-bind, Emits-nothing,
}
use msgpack.RoundTrip.Dynamic.Leaves.{IsDirect}
use msgpack.RoundTrip.Dynamic.Text.{Emits-encode_string, 1-le-string_form}
use msgpack.RoundTrip.Dynamic.Maps.{map_header}
use msgpack.RoundTrip.Dynamic.Entries.{Yields-decode_string}
use msgpack.RoundTrip.StringMaps.Find.{
  StringMap, find, first_of, HasDistinctKeys, put_strings, find-put_strings, find-sort_by_key,
  HasDistinctKeys-sort_by_key,
}

-- Keys and values of less than 2^32 bytes.
abbrev pub AreShort : StringMap → Type 0
AreShort [] = Unit {0}
AreShort ((k, v) ∷ m) = (length k < 2 ^ 32) × (length v < 2 ^ 32) × AreShort m

AreShort-insert_by_key :
    (k v : Bytes) (m : StringMap)
    → length k < 2 ^ 32
    → length v < 2 ^ 32
    → AreShort m
    → AreShort (insert_by_key (k, v) m)
unfolding insert_by_key
AreShort-insert_by_key k v [] hk hv h = (hk, hv, tt)
AreShort-insert_by_key k v ((j, u) ∷ m) hk hv (hj, hu, h) =
    if_cases AreShort (le_bytes k j) (λ _. (hk, hv, (hj, hu, h)))
      (λ _. (hj, hu, AreShort-insert_by_key k v m hk hv h))

AreShort-sort_by_key : (m : StringMap) → AreShort m → AreShort (sort_by_key m)
unfolding sort_by_key
AreShort-sort_by_key [] h = tt
AreShort-sort_by_key ((k, v) ∷ m) (hk, hv, h) =
    AreShort-insert_by_key k v (sort_by_key m) hk hv (AreShort-sort_by_key m h)

length-insert_by_key :
    (k v : Bytes) (m : StringMap) → length (insert_by_key (k, v) m) ≡ suc (length m)
unfolding insert_by_key
length-insert_by_key k v [] = refl
length-insert_by_key k v ((j, u) ∷ m) =
    if_cases (λ (l : StringMap). length l ≡ suc (suc (length m))) (le_bytes k j) (λ _. refl)
      (λ _. ap suc (length-insert_by_key k v m))

length-sort_by_key : (m : StringMap) → length (sort_by_key m) ≡ length m
unfolding sort_by_key
length-sort_by_key [] = refl
length-sort_by_key ((k, v) ∷ m) =
    length-insert_by_key k v (sort_by_key m) ∙ ap suc (length-sort_by_key m)

with_values-insert_by_key :
    (k v : Bytes) (m : StringMap)
    → insert_by_key (k, encode_string v) (with_values encode_string m)
      ≡ with_values encode_string (insert_by_key (k, v) m)
unfolding insert_by_key with_values
with_values-insert_by_key k v [] = refl
with_values-insert_by_key k v ((j, u) ∷ m) = elim (Bool-cases (le_bytes k j)) [
  | inl on ↦ rw on refl
  | inr off ↦ rw off (ap (λ fs. (j, encode_string u) ∷ fs) (with_values-insert_by_key k v m))
]

sort_by_key-with_values :
    (m : StringMap)
    → sort_by_key (with_values encode_string m) ≡ with_values encode_string (sort_by_key m)
unfolding sort_by_key with_values
sort_by_key-with_values [] = refl
sort_by_key-with_values ((k, v) ∷ m) =
    ap (insert_by_key (k, encode_string v)) (sort_by_key-with_values m)
    ∙ with_values-insert_by_key k v (sort_by_key m)

-- The order in which the entries are written.
abbrev arranged : ℕ → StringMap → StringMap
arranged flags m = if has_flag flags sort_map_keys_flag then sort_by_key m else m

entries_form : StringMap → Bytes
entries_form [] = []
entries_form ((k, v) ∷ m) =
    (string_form (length k) ++ k) ++ ((string_form (length v) ++ v) ++ entries_form m)

module _ (flags : ℕ) (direct : IsDirect flags) where
  Emits-entries :
      (m : StringMap)
      → AreShort m
      → Emits flags (encode_fields (with_values encode_string m)) (entries_form m)
  unfolding encode_fields with_values entries_form
  Emits-entries [] h = Emits-nothing flags
  Emits-entries ((k, v) ∷ m) (hk, hv, h) =
      Emits-bind flags (encode_string k) _ (string_form (length k) ++ k) _
        (Emits-encode_string flags k direct hk)
        (Emits-bind flags (encode_string v) _ (string_form (length v) ++ v) (entries_form m)
          (Emits-encode_string flags v direct hv) (Emits-entries m h))

  Emits-map_entries :
      (m : StringMap)
      → AreShort m
      → Emits flags (encode_map_entries encode_string m) (entries_form (arranged flags m))
  unfolding encode_map_entries encode_sorted_map
  Emits-map_entries m h e hf hd = elim (Bool-cases (has_flag flags sort_map_keys_flag)) [
    | inl on ↦
        rw (ap (λ f. has_flag f sort_map_keys_flag) hf ∙ on, on, sort_by_key-with_values m)
          (Emits-entries (sort_by_key m) (AreShort-sort_by_key m h) e hf hd)
    | inr off ↦
        rw (ap (λ f. has_flag f sort_map_keys_flag) hf ∙ off, off) (Emits-entries m h e hf hd)
  ]

Yields-entries :
    (m acc : StringMap)
    → AreShort m
    → Yields 0 (decode_string_entries (length m) acc) (entries_form m) (put_strings m acc)
unfolding decode_string_entries entries_form put_strings
Yields-entries [] acc h = Yields-pure 0 acc
Yields-entries ((k, v) ∷ m) acc (hk, hv, h) =
    Yields-bind 0 decode_string _ (string_form (length k) ++ k) _ k _ (Yields-decode_string 0 k hk)
      (Yields-bind 0 decode_string _ (string_form (length v) ++ v) (entries_form m) v _
        (Yields-decode_string 0 v hv) (Yields-entries m (put_string k v acc) h))

length-entries_form : (m : StringMap) → 2 * length m ≤ length (entries_form m)
unfolding entries_form
length-entries_form [] = omega arith
length-entries_form ((k, v) ∷ m) = omega (
  arith,
  length-entries_form m,
  1-le-string_form (length k) k,
  1-le-string_form (length v) v,
  length-append {0} (string_form (length k) ++ k) ((string_form (length v) ++ v) ++ entries_form m),
  length-append {0} (string_form (length v) ++ v) (entries_form m),
)

-- A map[string]string of less than 2^32 entries, with keys and values of less than 2^32 bytes, is
-- written, by increasing keys or in the order of any iteration, as bytes from which
-- decodeMapStringStringPtr, before any further input, makes a map in which every key has its value
-- of that map, and every other key what the map of the target had for it. Strings are not interned,
-- and the decoder is within the depth limit, has a reader with a Len method, does not record and
-- does not decode loosely.
pub decode_map_string_string-encode_map_string_string :
    (old : Option StringMap) (m : StringMap) (e : Encoder) (d : Decoder)
    → HasDistinctKeys m
    → length m < 2 ^ 32
    → AreShort m
    → IsDirect e.flags
    → e.dict ≡ []
    → IsPlain d
    → d.depth ≤ depth_limit d
    → (bs : Bytes) × (new : StringMap) × (encode_map_string_string (some m) e
        ≡ ok tt (record e { out = e.out ++ bs }))
      × (decode_map_string_string old (feed bs d) ≡ ok (some new) d)
      × ((key : Bytes) → find key new ≡ first_of (find key m) (find key (get_or old [])))
unfolding encode_map_string_string decode_map_string_string string_map_with_len
decode_map_string_string-encode_map_string_string old m e d distinct n short direct empty p room =
    let written = arranged e.flags m in
    let sorts = has_flag e.flags sort_map_keys_flag in
    let form = map_form (length m) in
    let bs = entries_form written in
    let held = get_or old [] in
    let count : length written ≡ length m =
      if_cases (λ (l : StringMap). length l ≡ length m) sorts (λ _. length-sort_by_key m)
        (λ _. refl) in
    let short_written : AreShort written =
      if_cases AreShort sorts (λ _. AreShort-sort_by_key m short) (λ _. short) in
    let distinct_written : HasDistinctKeys written =
      if_cases HasDistinctKeys sorts (λ _. HasDistinctKeys-sort_by_key m distinct)
        (λ _. distinct) in
    let same_found : (key : Bytes) → find key written ≡ find key m = λ key.
      if_cases (λ (l : StringMap). find key l ≡ find key m) sorts
        (λ _. find-sort_by_key key m distinct) (λ _. refl) in
    let enough : 2 * length m ≤ length bs = omega (arith, count, length-entries_form written) in
    (
      form ++ bs,
      put_strings written held,
      Emits-bind e.flags (encode_map_len (length m)) _ form bs
          (λ s _ _. Writes-encode_map_len (length m) n s) (Emits-map_entries e.flags direct m short)
          e refl empty,
      rw
          (
            map_header (length m) bs d n enough p,
            subst (λ l. decode_string_entries l held (feed bs d) ≡ ok (put_strings written held) d)
                count (Yields-entries written held short_written d p (omega (arith, room))),
          )
          refl,
      λ key.
          find-put_strings key written held distinct_written
          ∙ ap (λ r. first_of r (find key held)) (same_found key),
    )
