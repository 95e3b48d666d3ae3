-- ===== src/RoundTrip/StringMaps/Find.antt =====
-- A map of strings as what is found under a key, whatever the order of its entries.
use msgpack.Prelude.{
  ◌≡◌, ◌∙◌, refl, sym, ap, Bool, true, false, List, [], ◌∷◌, Option, none, some, if◌then◌else◌,
  if_cases, inl, inr, Bool-cases,
}
use msgpack.Decoder.{Bytes}
use msgpack.Decoder.Strings.{put_string}
use msgpack.Dynamic.Order.{le_bytes, insert_by_key, sort_by_key}
use msgpack.Dynamic.Sorting.{same_sym}
use msgpack.Encoder.Intern.{same}
use msgpack.RoundTrip.Dictionary.{same-eq}

abbrev pub StringMap : Type 0
StringMap = List (Bytes × Bytes)

unfoldable pub find : Bytes → StringMap → Option Bytes
unfolding same
find key [] = none
find key ((k, v) ∷ m) = if same k key then some v else find key m

abbrev pub first_of : Option Bytes → Option Bytes → Option Bytes
first_of (some v) other = some v
first_of none other = other

abbrev pub HasDistinctKeys : StringMap → Type 0
HasDistinctKeys [] = Unit {0}
HasDistinctKeys ((k, v) ∷ m) = (find k m ≡ none) × HasDistinctKeys m

-- `m[key] = v` for the entries in order.
unfoldable pub put_strings : StringMap → StringMap → StringMap
put_strings [] acc = acc
put_strings ((k, v) ∷ m) acc = put_strings m (put_string k v acc)

module _ (x y z : Option Bytes) where
  if_twice : (b : Bool) → (if b then x else z) ≡ (if b then x else if b then y else z)
  if_twice true = refl
  if_twice false = refl

  if_swap :
      (b c : Bool)
      → (b ≡ true → c ≡ true → ⊥)
      → (if b then x else if c then y else z) ≡ (if c then y else if b then x else z)
  if_swap true true apart = absurd (apart refl refl)
  if_swap true false apart = refl
  if_swap false true apart = refl
  if_swap false false apart = refl

different : (k j key : Bytes) → same k j ≡ false → same k key ≡ true → same j key ≡ true → ⊥
different k j key off on on' = let e : j ≡ key = same-eq j key on' in absurd (cc)

missed :
    (b : Bool) (v : Bytes) (r : Option Bytes)
    → (if b then some v else r) ≡ none
    → (b ≡ false) × (r ≡ none)
missed true v r h = absurd (cc)
missed false v r h = (refl, h)

find-put_string :
    (key j v : Bytes) (m : StringMap)
    → find key (put_string j v m) ≡ (if same j key then some v else find key m)
unfolding find put_string
find-put_string key j v [] = refl
find-put_string key j v ((k, u) ∷ m) = elim (Bool-cases (same k j)) [
  | inl on ↦
      rw (on, ap (λ x. same x key) (same-eq k j on))
        (if_twice (some v) (some u) (find key m) (same j key))
  | inr off ↦
      rw (off, find-put_string key j v m)
        (if_swap (some u) (some v) (find key m) (same k key) (same j key) (different k j key off))
]

pub find-put_strings :
    (key : Bytes) (m acc : StringMap)
    → HasDistinctKeys m
    → find key (put_strings m acc) ≡ first_of (find key m) (find key acc)
unfolding find put_strings
find-put_strings key [] acc h = refl
find-put_strings key ((j, v) ∷ m) acc h =
    find-put_strings key m (put_string j v acc) (h.1) ∙ elim (Bool-cases (same j key)) [
      | inl on ↦
          rw (ap (λ x. find x m) (sym (same-eq j key on)) ∙ h.0, find-put_string key j v acc, on)
            refl
      | inr off ↦ rw (find-put_string key j v acc, off) refl
    ]

-- Where the key is new, it does not matter where it is inserted.
find-insert_by_key :
    (key j v : Bytes) (m : StringMap)
    → find j m ≡ none
    → find key (insert_by_key (j, v) m) ≡ (if same j key then some v else find key m)
unfolding find insert_by_key
find-insert_by_key key j v [] h = refl
find-insert_by_key key j v ((k, u) ∷ m) h =
    let (off, rest) = missed (same k j) u (find j m) h in
    if_cases (λ l. find key l ≡ (if same j key then some v else find key ((k, u) ∷ m)))
      (le_bytes j k) (λ _. refl)
      (λ _.
        rw (find-insert_by_key key j v m rest) (
          if_swap (some u) (some v) (find key m) (same k key) (same j key) (different k j key off)))

HasDistinctKeys-insert_by_key :
    (j v : Bytes) (m : StringMap)
    → find j m ≡ none
    → HasDistinctKeys m
    → HasDistinctKeys (insert_by_key (j, v) m)
unfolding find insert_by_key
HasDistinctKeys-insert_by_key j v [] h distinct = (refl, tt)
HasDistinctKeys-insert_by_key j v ((k, u) ∷ m) h distinct =
    let (off, rest) = missed (same k j) u (find j m) h in
    if_cases HasDistinctKeys (le_bytes j k) (λ _. (h, distinct))
      (λ _. (
        rw (find-insert_by_key k j v m rest, same_sym j k, off) (distinct.0),
        HasDistinctKeys-insert_by_key j v m rest (distinct.1),
      ))

-- Sorting changes neither what is found nor that the keys are distinct.
pub find-sort_by_key :
    (key : Bytes) (m : StringMap) → HasDistinctKeys m → find key (sort_by_key m) ≡ find key m
unfolding find sort_by_key
find-sort_by_key key [] h = refl
find-sort_by_key key ((j, v) ∷ m) h =
    find-insert_by_key key j v (sort_by_key m) (find-sort_by_key j m (h.1) ∙ h.0)
    ∙ ap (λ r. if same j key then some v else r) (find-sort_by_key key m (h.1))

pub HasDistinctKeys-sort_by_key :
    (m : StringMap) → HasDistinctKeys m → HasDistinctKeys (sort_by_key m)
unfolding find sort_by_key
HasDistinctKeys-sort_by_key [] h = tt
HasDistinctKeys-sort_by_key ((j, v) ∷ m) h =
    HasDistinctKeys-insert_by_key j v (sort_by_key m) (find-sort_by_key j m (h.1) ∙ h.0)
      (HasDistinctKeys-sort_by_key m (h.1))
