-- ===== src/Outcome.antt =====
-- How a method of the Encoder or the Decoder ends, with the object's new state. An error keeps the
-- changes made before it, as in Go, where the method's receiver is a pointer.
pub mod Post
use msgpack.Prelude.{ℕ, Bool, false, List, [], ◌∷◌, ◌==◌, ◌||◌, if◌then◌else◌, ◌≡◌}
use msgpack.Prelude.Int.{ℤ}
use mathlib.Core.Path.{subst₂, refl}

-- The errors of the package by their cause, with the numbers that their messages show. `eof` is
-- both io.EOF and io.ErrUnexpectedEOF.
pub data Error : Type 0 where
  eof : Error
  invalid_code unexpected_code unknown_code : ℕ → Error
  bytes_exceed_input container_exceeds_input : ℕ → ℕ → Error
  container_exceeds_limit depth_exceeds_limit overflows_int : ℕ → Error
  not_a_uint64 not_an_int64 : ℕ → Error
  unsupported_ext_len no_interned_string interned_index_too_large : ℕ → Error
  unexpected_ext : ℕ → Error
  invalid_time_ext_len : ℕ → Error
  invalid_time_ext_id : ℤ → Error
  invalid_time_text : Error
  unknown_ext : ℤ → Error
  unsupported_query : ℕ → List ℕ → Error
  invalid_index : List ℕ → Error
  array_too_short : ℕ → ℕ → Error
  unknown_field : List ℕ → Error
  array_struct nil_argument no_pointer nil_pointer : Error

-- `stuck` is no result of the program: a recursion on fuel ran out of it, or the call panics.
pub data Outcome {ℓ κ} (S : Type ℓ) (A : Type κ) : Type (ℓ ⊔ κ) where
  ok : A → S → Outcome S A
  err : Error → S → Outcome S A
  stuck : Outcome S A

abbrev pub Action {ℓ κ} : Type ℓ → Type κ → Type (ℓ ⊔ κ)
Action S A = S → Outcome S A

abbrev pub pure {ℓ κ} : {S : Type ℓ} {A : Type κ} → A → Action S A
pure a s = ok a s

abbrev pub fail {ℓ κ} : {S : Type ℓ} {A : Type κ} → Error → Action S A
fail e s = err e s

abbrev pub continue {ℓ κ κ'} :
    {S : Type ℓ} {A : Type κ} {B : Type κ'} → Outcome S A → (A → Action S B) → Outcome S B
continue (ok a s) f = f a s
continue (err e s) f = err e s
continue stuck f = stuck

infixl 5 ◌>>=◌ ◌>>◌
abbrev pub ◌>>=◌ {ℓ κ κ'} :
    {S : Type ℓ} {A : Type κ} {B : Type κ'} → Action S A → (A → Action S B) → Action S B
◌>>=◌ m f s = continue (m s) f

abbrev pub ◌>>◌ {ℓ κ κ'} :
    {S : Type ℓ} {A : Type κ} {B : Type κ'} → Action S A → Action S B → Action S B
m >> k = m >>= λ _. k

-- `for range n { m }`
unfoldable pub times {ℓ} : {S : Type ℓ} → ℕ → Action S (Unit {0}) → Action S (Unit {0})
times ℕ.zero m = pure tt
times (ℕ.suc n) m = m >> times n m

-- `switch c { case ks: a … default: d }`
abbrev pub is_one_of : ℕ → List ℕ → Bool
is_one_of c [] = false
is_one_of c (k ∷ ks) = c == k || is_one_of c ks

unfoldable pub switch {ℓ} : {A : Type ℓ} → ℕ → List (List ℕ × A) → A → A
switch c [] d = d
switch c ((ks, a) ∷ cases) d = if is_one_of c ks then a else switch c cases d

-- What holds of the result and state of one outcome holds of any equal outcome.
pub subst-ok {ℓ κ κ'} :
    {S : Type ℓ} {A : Type κ} (P : A → S → Type κ') {a b : A} {s t : S}
    → ok a s ≡ ok b t
    → P a s
    → P b t
subst-ok P e h = subst₂ P (cc) (cc) h

pub continue_assoc {ℓ κ κ' κ''} :
    {S : Type ℓ} {A : Type κ} {B : Type κ'} {C : Type κ''} (o : Outcome S A) (f : A → Action S B)
    (g : B → Action S C)
    → continue o (λ a s. continue (f a s) g) ≡ continue (continue o f) g
continue_assoc (ok a s) f g = refl
continue_assoc (err e s) f g = refl
continue_assoc stuck f g = refl
