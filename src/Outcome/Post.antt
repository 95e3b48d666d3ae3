-- ===== src/Outcome/Post.antt =====
-- Postconditions on the results of methods.
use msgpack.Prelude.{Bool, true, false, if◌then◌else◌}
use msgpack.Outcome.{Error, Outcome, ok, err, stuck, Action, continue}

-- If the method succeeds, `P` holds of its result.
pub data Gives {S A : Type 0} (P : A → Type 0) : Outcome S A → Type 0 where
  gives : {a : A} {s : S} → P a → Gives P (ok a s)
  fails : {e : Error} {s : S} → Gives P (err e s)
  never : Gives P stuck

module _ {S A : Type 0} where
  pub Gives-any : (o : Outcome S A) → Gives (λ _. Unit {0}) o
  Gives-any (ok a s) = gives tt
  Gives-any (err e s) = fails
  Gives-any stuck = never

  pub Gives-choice :
      {P : A → Type 0} (b : Bool) (m k : Action S A) {s : S}
      → Gives P (m s)
      → Gives P (k s)
      → Gives P ((if b then m else k) s)
  Gives-choice true m k h h' = h
  Gives-choice false m k h h' = h'

module _ {S A B : Type 0} {P : A → Type 0} {Q : B → Type 0} where
  pub Gives-bind :
      {o : Outcome S A} {f : A → Action S B}
      → Gives P o
      → ((a : A) (s : S) → P a → Gives Q (f a s))
      → Gives Q (continue o f)
  Gives-bind (gives {a} {s} h) k = k a s h
  Gives-bind fails k = fails
  Gives-bind never k = never

module _ {S A B : Type 0} where
  -- After a read of which nothing is known.
  pub Gives-then :
      {Q : B → Type 0} (o : Outcome S A) {f : A → Action S B}
      → ((a : A) (s : S) → Gives Q (f a s))
      → Gives Q (continue o f)
  Gives-then (ok a s) k = k a s
  Gives-then (err e s) k = fails
  Gives-then stuck k = never
