-- ===== src/Dynamic/Sorting.antt =====
-- Facts on the sorting of a map's entries by their keys.
use msgpack.Prelude.{
  suc, ◌≡◌, ◌∙◌, refl, ap, true, false, [], ◌∷◌, arith, if_cases, Bool-cases, inl, inr,
}
use msgpack.Decoder.{Bytes}
use msgpack.Encoder.Intern.{same}
use msgpack.Dynamic.{Value, Entries, no_entries, entry, count_entries}
use msgpack.Dynamic.Order.{le_bytes}
use msgpack.Dynamic.Canonical.{
  insert_entry, sort_entries, canonical, canonical_entries, Absent, HasDistinctKeys,
}

-- Of two byte strings one is at most the other.
pub le_bytes_total : (a b : Bytes) → le_bytes a b ≡ false → le_bytes b a ≡ true
unfolding le_bytes
le_bytes_total [] b h = absurd (cc)
le_bytes_total (x ∷ a) [] h = refl
le_bytes_total (x ∷ a) (y ∷ b) h = ground (arith, le_bytes_total a b)

pub same_sym : (a b : Bytes) → same a b ≡ same b a
unfolding same
same_sym [] [] = refl
same_sym [] (y ∷ b) = refl
same_sym (x ∷ a) [] = refl
same_sym (x ∷ a) (y ∷ b) = ground (arith, same_sym a b)

pub same_refl : (s : Bytes) → same s s ≡ true
unfolding same
same_refl [] = refl
same_refl (x ∷ s) = ground (arith, same_refl s)

-- A predicate on every entry.
abbrev pub AllEntries : (Bytes → Value → Type 0) → Entries → Type 0
AllEntries P no_entries = Unit {0}
AllEntries P (entry k v es) = P k v × AllEntries P es

AllEntries-insert_entry :
    (P : Bytes → Value → Type 0) (k : Bytes) (v : Value) (es : Entries)
    → P k v
    → AllEntries P es
    → AllEntries P (insert_entry k v es)
unfolding insert_entry
AllEntries-insert_entry P k v no_entries p h = (p, tt)
AllEntries-insert_entry P k v (entry j u es) p h =
    if_cases (AllEntries P) (le_bytes k j) (λ _. (p, h))
      (λ _. (h.0, AllEntries-insert_entry P k v es p h.1))

pub AllEntries-sort_entries :
    (P : Bytes → Value → Type 0) (es : Entries) → AllEntries P es → AllEntries P (sort_entries es)
unfolding sort_entries
AllEntries-sort_entries P no_entries h = tt
AllEntries-sort_entries P (entry k v es) h =
    AllEntries-insert_entry P k v (sort_entries es) (h.0) (AllEntries-sort_entries P es (h.1))

count_entries-insert_entry :
    (k : Bytes) (v : Value) (es : Entries)
    → count_entries (insert_entry k v es) ≡ suc (count_entries es)
unfolding insert_entry
count_entries-insert_entry k v no_entries = refl
count_entries-insert_entry k v (entry j u es) =
    if_cases (λ es'. count_entries es' ≡ suc (suc (count_entries es))) (le_bytes k j) (λ _. refl)
      (λ _. ap suc (count_entries-insert_entry k v es))

pub count_entries-sort_entries : (es : Entries) → count_entries (sort_entries es) ≡ count_entries es
unfolding sort_entries
count_entries-sort_entries no_entries = refl
count_entries-sort_entries (entry k v es) =
    count_entries-insert_entry k v (sort_entries es) ∙ ap suc (count_entries-sort_entries es)

Absent-insert_entry :
    (j k : Bytes) (v : Value) (es : Entries)
    → same k j ≡ false
    → Absent j es
    → Absent j (insert_entry k v es)
unfolding insert_entry
Absent-insert_entry j k v no_entries h a = (h, tt)
Absent-insert_entry j k v (entry i u es) h a =
    if_cases (Absent j) (le_bytes k i) (λ _. (h, a))
      (λ _. (a.0, Absent-insert_entry j k v es h (a.1)))

HasDistinctKeys-insert_entry :
    (k : Bytes) (v : Value) (es : Entries)
    → Absent k es
    → HasDistinctKeys es
    → HasDistinctKeys (insert_entry k v es)
unfolding insert_entry
HasDistinctKeys-insert_entry k v no_entries a h = (tt, tt)
HasDistinctKeys-insert_entry k v (entry j u es) a h =
    if_cases HasDistinctKeys (le_bytes k j) (λ _. (a, h))
      (λ _. (
        Absent-insert_entry j k v es (same_sym k j ∙ a.0) (h.0),
        HasDistinctKeys-insert_entry k v es (a.1) (h.1),
      ))

Absent-sort_entries : (k : Bytes) (es : Entries) → Absent k es → Absent k (sort_entries es)
unfolding sort_entries
Absent-sort_entries k no_entries a = tt
Absent-sort_entries k (entry j v es) a =
    Absent-insert_entry k j v (sort_entries es) (a.0) (Absent-sort_entries k es (a.1))

pub HasDistinctKeys-sort_entries :
    (es : Entries) → HasDistinctKeys es → HasDistinctKeys (sort_entries es)
unfolding sort_entries
HasDistinctKeys-sort_entries no_entries h = tt
HasDistinctKeys-sort_entries (entry k v es) h =
    HasDistinctKeys-insert_entry k v (sort_entries es) (Absent-sort_entries k es (h.0))
      (HasDistinctKeys-sort_entries es (h.1))

-- The first key is at most the next one, and so on.
abbrev FirstAtLeast : Bytes → Entries → Type 0
FirstAtLeast k no_entries = Unit {0}
FirstAtLeast k (entry j v es) = le_bytes k j ≡ true

abbrev pub IsSorted : Entries → Type 0
IsSorted no_entries = Unit {0}
IsSorted (entry k v es) = FirstAtLeast k es × IsSorted es

FirstAtLeast-insert_entry :
    (j k : Bytes) (v : Value) (es : Entries)
    → le_bytes j k ≡ true
    → FirstAtLeast j es
    → FirstAtLeast j (insert_entry k v es)
unfolding insert_entry
FirstAtLeast-insert_entry j k v no_entries h f = h
FirstAtLeast-insert_entry j k v (entry i u es) h f =
    if_cases (FirstAtLeast j) (le_bytes k i) (λ _. h) (λ _. f)

IsSorted-insert_entry :
    (k : Bytes) (v : Value) (es : Entries) → IsSorted es → IsSorted (insert_entry k v es)
unfolding insert_entry
IsSorted-insert_entry k v no_entries h = (tt, tt)
IsSorted-insert_entry k v (entry j u es) h =
    if_cases IsSorted (le_bytes k j) (λ e. (e, h))
      (λ e. (
        FirstAtLeast-insert_entry j k v es (le_bytes_total k j e) (h.0),
        IsSorted-insert_entry k v es (h.1),
      ))

pub IsSorted-sort_entries : (es : Entries) → IsSorted (sort_entries es)
unfolding sort_entries
IsSorted-sort_entries no_entries = tt
IsSorted-sort_entries (entry k v es) =
    IsSorted-insert_entry k v (sort_entries es) (IsSorted-sort_entries es)

insert_entry-FirstAtLeast :
    (k : Bytes) (v : Value) (es : Entries) → FirstAtLeast k es → insert_entry k v es ≡ entry k v es
unfolding insert_entry
insert_entry-FirstAtLeast k v no_entries h = refl
insert_entry-FirstAtLeast k v (entry j u es) h = rw h refl

-- Sorting leaves sorted entries as they are.
pub sort_entries-IsSorted : (es : Entries) → IsSorted es → sort_entries es ≡ es
unfolding sort_entries
sort_entries-IsSorted no_entries h = refl
sort_entries-IsSorted (entry k v es) h =
    ap (insert_entry k v) (sort_entries-IsSorted es (h.1)) ∙ insert_entry-FirstAtLeast k v es (h.0)

canonical_entries-insert_entry :
    (k : Bytes) (v : Value) (es : Entries)
    → canonical_entries (insert_entry k v es) ≡ insert_entry k (canonical v) (canonical_entries es)
unfolding insert_entry canonical
canonical_entries-insert_entry k v no_entries = refl
canonical_entries-insert_entry k v (entry j u es) = elim (Bool-cases (le_bytes k j)) [
  | inl e ↦ rw e refl
  | inr e ↦ rw e (ap (entry j (canonical u)) (canonical_entries-insert_entry k v es))
]

pub canonical_entries-sort_entries :
    (es : Entries) → canonical_entries (sort_entries es) ≡ sort_entries (canonical_entries es)
unfolding sort_entries canonical
canonical_entries-sort_entries no_entries = refl
canonical_entries-sort_entries (entry k v es) =
    canonical_entries-insert_entry k v (sort_entries es)
    ∙ ap (insert_entry k (canonical v)) (canonical_entries-sort_entries es)

pub sort_entries-sort_entries : (es : Entries) → sort_entries (sort_entries es) ≡ sort_entries es
sort_entries-sort_entries es = sort_entries-IsSorted (sort_entries es) (IsSorted-sort_entries es)
