-- ===== src/RoundTrip/Dictionary.antt =====
-- The dictionaries of interned strings of an encoder and of a decoder.
use msgpack.Prelude.{
  ℕ, suc, zero, ◌<◌, ◌≤◌, ◌≡◌, ◌∙◌, refl, ap, ◌∷◌, ◌++◌, List, [], Bool, true, false, if◌then◌else◌,
  arith, length, length-append, if_cases, if_cases₂, some, get_or, Bool-cases, inl, inr,
}
use mathlib.Core.Path.{subst}
use msgpack.Outcome.{ok}
use msgpack.Decoder.{Decoder, Bytes}
use msgpack.Decoder.Intern.{learn}
use msgpack.Encoder.{Encoder}
use msgpack.Encoder.Intern.{same, lookup, is_internable, remember}

-- The encoder's dictionary has each string of the decoder's under its position.
pub data Synced : List (Bytes × ℕ) → List Bytes → Type 0 where
  empty : Synced [] []
  grown :
      {m : List (Bytes × ℕ)} {ds : List Bytes} (s : Bytes)
      → Synced m ds
      → Synced ((s, length m) ∷ m) (ds ++ s ∷ [])

pub Synced-length : {m : List (Bytes × ℕ)} {ds : List Bytes} → Synced m ds → length m ≡ length ds
Synced-length empty = refl
Synced-length (grown {m} {ds} s h) = omega (arith, Synced-length h, length-append {0} ds (s ∷ []))

pub same-eq : (xs ys : Bytes) → same xs ys ≡ true → xs ≡ ys
unfolding same
same-eq [] [] h = refl
same-eq [] (y ∷ ys) h = absurd (cc)
same-eq (x ∷ xs) [] h = absurd (cc)
same-eq (x ∷ xs) (y ∷ ys) h = ground (arith, same-eq xs ys)

-- Reading in front of an added string, and the added string.
get_or-front :
    (ds : List Bytes) (s : Bytes) (i : ℕ)
    → i < length ds
    → get_or (ds ++ s ∷ []) i [] ≡ get_or ds i []
get_or-front [] s i h = absurd (omega arith)
get_or-front (t ∷ ds) s zero h = refl
get_or-front (t ∷ ds) s (suc i) h = get_or-front ds s i (omega arith)

get_or-last : (ds : List Bytes) (s : Bytes) → get_or (ds ++ s ∷ []) (length ds) [] ≡ s
get_or-last [] s = refl
get_or-last (t ∷ ds) s = get_or-last ds s

here :
    {m : List (Bytes × ℕ)} {ds : List Bytes} (s t : Bytes) (i : ℕ)
    → Synced m ds
    → t ≡ s
    → i ≡ length m
    → (i < length (ds ++ t ∷ [])) × (get_or (ds ++ t ∷ []) i [] ≡ s)
here {m} {ds} s t i sync eq at = (
  omega (arith, at, Synced-length sync, length-append {0} ds (t ∷ [])),
  ap (λ n. get_or (ds ++ t ∷ []) n []) (at ∙ Synced-length sync) ∙ get_or-last ds t ∙ eq,
)

front :
    (s t : Bytes) (i : ℕ) (ds : List Bytes)
    → (i < length ds) × (get_or ds i [] ≡ s)
    → (i < length (ds ++ t ∷ [])) × (get_or (ds ++ t ∷ []) i [] ≡ s)
front s t i ds (h, eq) =
    (omega (arith, h, length-append {0} ds (t ∷ [])), get_or-front ds t i h ∙ eq)

place :
    (s t : Bytes) (i : ℕ) (m : List (Bytes × ℕ))
    → same t s ≡ true
    → lookup s ((t, length m) ∷ m) ≡ some i
    → i ≡ length m
unfolding lookup
place s t i m e h = ground arith

earlier :
    (s t : Bytes) (i : ℕ) (m : List (Bytes × ℕ))
    → same t s ≡ false
    → lookup s ((t, length m) ∷ m) ≡ some i
    → lookup s m ≡ some i
unfolding lookup
earlier s t i m e h = ground arith

pub Synced-lookup :
    {m : List (Bytes × ℕ)} {ds : List Bytes} (s : Bytes) (i : ℕ)
    → Synced m ds
    → lookup s m ≡ some i
    → (i < length ds) × (get_or ds i [] ≡ s)
unfolding lookup
Synced-lookup s i empty h = absurd (cc)
Synced-lookup s i (grown {m} {ds} t sync) h = elim (Bool-cases (same t s)) [
  | inl e ↦ here s t i sync (same-eq t s e) (place s t i m e h)
  | inr e ↦ front s t i ds (Synced-lookup s i sync (earlier s t i m e h))
]

-- What a string read in full adds to the dictionaries.
abbrev pub learned : Bytes → Bool → List Bytes → List Bytes
learned s intern ds = if is_internable intern s (length ds) then ds ++ s ∷ [] else ds

abbrev pub remembered : Bytes → Bool → List (Bytes × ℕ) → List (Bytes × ℕ)
remembered s intern m = if is_internable intern s (length m) then (s, length m) ∷ m else m

pub Synced-learned :
    {m : List (Bytes × ℕ)} {ds : List Bytes} (s : Bytes) (intern : Bool)
    → Synced m ds
    → Synced (remembered s intern m) (learned s intern ds)
Synced-learned {m} {ds} s intern sync =
    subst
      (λ n. Synced (remembered s intern m) (if is_internable intern s n then ds ++ s ∷ [] else ds))
      (Synced-length sync)
      (if_cases₂ Synced (is_internable intern s (length m)) (λ _. grown s sync) (λ _. sync))

pub learned_bound :
    (s : Bytes) (intern : Bool) (ds : List Bytes)
    → length ds ≤ 65535
    → length (learned s intern ds) ≤ 65535
learned_bound s intern ds h =
    if_cases (λ xs. length xs ≤ 65535) (is_internable intern s (length ds))
      (λ e. ground (arith, length-append {0} ds (s ∷ []))) (λ _. h)

pub learn_lem :
    (s : Bytes) (intern : Bool) (d : Decoder)
    → learn s intern d ≡ ok s (record d { dict = learned s intern d.dict })
learn_lem s intern d = elim (Bool-cases (is_internable intern s (length d.dict))) [
  | inl e ↦ rw e refl
  | inr e ↦ rw e refl
]

pub remember_lem :
    (s : Bytes) (intern : Bool) (e : Encoder)
    → remember s intern e ≡ record e { dict = remembered s intern e.dict }
remember_lem s intern e = elim (Bool-cases (is_internable intern s (length e.dict))) [
  | inl h ↦ rw h refl
  | inr h ↦ rw h refl
]
