-- ===== src/Dynamic/Order.antt =====
-- sort.Strings: byte strings in increasing order, and lists sorted by such keys.
use msgpack.Prelude.{Bool, true, false, ◌&&◌, ◌||◌, ◌==◌, ltb, List, [], ◌∷◌, if◌then◌else◌}
use msgpack.Decoder.{Bytes}

-- `a <= b`
unfoldable pub le_bytes : Bytes → Bytes → Bool
le_bytes [] b = true
le_bytes (x ∷ a) [] = false
le_bytes (x ∷ a) (y ∷ b) = ltb x y || x == y && le_bytes a b

-- A stable insertion sort; where all keys differ, so does any sort.
unfoldable pub insert_by_key {ℓ} : {A : Type ℓ} → Bytes × A → List (Bytes × A) → List (Bytes × A)
unfolding le_bytes
insert_by_key p [] = p ∷ []
insert_by_key p (q ∷ qs) = if le_bytes (p.0) (q.0) then p ∷ q ∷ qs else q ∷ insert_by_key p qs

unfoldable pub sort_by_key {ℓ} : {A : Type ℓ} → List (Bytes × A) → List (Bytes × A)
unfolding insert_by_key
sort_by_key [] = []
sort_by_key (p ∷ ps) = insert_by_key p (sort_by_key ps)
