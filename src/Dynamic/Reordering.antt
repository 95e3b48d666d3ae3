-- ===== src/Dynamic/Reordering.antt =====
-- Sorting by keys forgets the order in which a map's entries are visited.
use msgpack.Prelude.{◌≡◌, ◌∙◌, refl, ap, true, false, [], ◌∷◌, arith}
use msgpack.Decoder.{Bytes}
use msgpack.Encoder.Intern.{same}
use msgpack.Dynamic.{Value, Entries, no_entries, entry}
use msgpack.Dynamic.Order.{le_bytes}
use msgpack.Dynamic.Canonical.{insert_entry, sort_entries, Absent, HasDistinctKeys}
use msgpack.Dynamic.Sorting.{le_bytes_total, same_sym}

-- The same entries, visited in another order.
pub data Reordered : Entries → Entries → Type 0 where
  unchanged : {es : Entries} → Reordered es es
  behind :
      {es fs : Entries} (k : Bytes) (v : Value)
      → Reordered es fs
      → Reordered (entry k v es) (entry k v fs)
  swapped :
      (k j : Bytes) (v u : Value) (es : Entries)
      → Reordered (entry k v (entry j u es)) (entry j u (entry k v es))
  then_again : {es fs gs : Entries} → Reordered es fs → Reordered fs gs → Reordered es gs

le_bytes_antisym : (a b : Bytes) → le_bytes a b ≡ true → le_bytes b a ≡ true → same a b ≡ true
unfolding le_bytes same
le_bytes_antisym [] [] h k = refl
le_bytes_antisym [] (y ∷ b) h k = absurd (cc)
le_bytes_antisym (x ∷ a) [] h k = absurd (cc)
le_bytes_antisym (x ∷ a) (y ∷ b) h k = ground (arith, le_bytes_antisym a b)

le_bytes_trans : (a b c : Bytes) → le_bytes a b ≡ true → le_bytes b c ≡ true → le_bytes a c ≡ true
unfolding le_bytes
le_bytes_trans [] b c h k = refl
le_bytes_trans (x ∷ a) [] c h k = absurd (cc)
le_bytes_trans (x ∷ a) (y ∷ b) [] h k = absurd (cc)
le_bytes_trans (x ∷ a) (y ∷ b) (z ∷ c) h k = ground (arith, le_bytes_trans a b c)

-- Of two different keys the smaller goes first, whichever is inserted last.
insert_entry_comm :
    (k j : Bytes) (v u : Value) (es : Entries)
    → same k j ≡ false
    → insert_entry k v (insert_entry j u es) ≡ insert_entry j u (insert_entry k v es)
unfolding insert_entry
insert_entry_comm k j v u no_entries h = ground (arith, le_bytes_total k j, le_bytes_antisym k j)
insert_entry_comm k j v u (entry i w es) h = ground (
  arith,
  le_bytes_total k j,
  le_bytes_antisym k j,
  le_bytes_total k i,
  le_bytes_total j i,
  le_bytes_trans k j i,
  le_bytes_trans j k i,
  insert_entry_comm k j v u es,
)

Absent-Reordered : (k : Bytes) (es fs : Entries) → Reordered es fs → Absent k es → Absent k fs
Absent-Reordered k es fs unchanged a = a
Absent-Reordered k es fs (behind {es = es'} {fs = fs'} j v r) a =
    (a.0, Absent-Reordered k es' fs' r (a.1))
Absent-Reordered k es fs (swapped i j v u gs) (a, (b, c)) = (b, (a, c))
Absent-Reordered k es fs (then_again {fs = gs} r s) a =
    Absent-Reordered k gs fs s (Absent-Reordered k es gs r a)

HasDistinctKeys-Reordered :
    (es fs : Entries) → Reordered es fs → HasDistinctKeys es → HasDistinctKeys fs
HasDistinctKeys-Reordered es fs unchanged h = h
HasDistinctKeys-Reordered es fs (behind {es = es'} {fs = fs'} k v r) h =
    (Absent-Reordered k es' fs' r (h.0), HasDistinctKeys-Reordered es' fs' r (h.1))
HasDistinctKeys-Reordered es fs (swapped k j v u gs) ((a, b), (c, d)) =
    ((same_sym k j ∙ a, c), (b, d))
HasDistinctKeys-Reordered es fs (then_again {fs = gs} r s) h =
    HasDistinctKeys-Reordered gs fs s (HasDistinctKeys-Reordered es gs r h)

pub sort_entries-Reordered :
    (es fs : Entries) → Reordered es fs → HasDistinctKeys es → sort_entries es ≡ sort_entries fs
unfolding sort_entries
sort_entries-Reordered es fs unchanged h = refl
sort_entries-Reordered es fs (behind {es = es'} {fs = fs'} k v r) h =
    ap (insert_entry k v) (sort_entries-Reordered es' fs' r (h.1))
sort_entries-Reordered es fs (swapped k j v u gs) h =
    insert_entry_comm k j v u (sort_entries gs) (same_sym k j ∙ h.0.0)
sort_entries-Reordered es fs (then_again {fs = gs} r s) h =
    sort_entries-Reordered es gs r h
    ∙ sort_entries-Reordered gs fs s (HasDistinctKeys-Reordered es gs r h)
