-- ===== src/RoundTrip/Reflect/Transfers.antt =====
-- An encoder and a decoder that belong together.
use msgpack.Prelude.{
  ℕ, ◌≤◌, ◌≡◌, ◌∙◌, ap, Bool, true, false, [], ◌∷◌, length, ◌==◌, arith, Bool-cases, inl, inr,
  if◌then◌else◌,
}
use msgpack.Outcome.{ok, ◌>>=◌}
use msgpack.Wire.Code.{nil_code}
use msgpack.Decoder.{Decoding, Bytes, has_flag}
use msgpack.Encoder.{Encoding, use_compact_ints_flag}
use msgpack.RoundTrip.Runs.{Writes, Reads}
use msgpack.RoundTrip.Dynamic.Yields.{Yields, Yields-of_Reads, Yields-map, Emits}

-- The first byte is not the code of nil.
abbrev pub NotNil : Bytes → Type 0
NotNil [] = ⊥
NotNil (c ∷ bs) = c == nil_code ≡ false

pub 1-le-NotNil : (bs : Bytes) → NotNil bs → 1 ≤ length bs
1-le-NotNil [] h = absurd h
1-le-NotNil (c ∷ bs) h = omega arith

-- With the options `flags`, `m` writes bytes from which `dec`, with `k` levels left, reads `a`. They
-- do not start with nil if `solid`.
pub record Transfers {A : Type 0} (flags k : ℕ) (m : Encoding (Unit {0})) (dec : Decoding A) (a : A)
    (solid : Bool) : Type 0 where
  pub form : Bytes
  pub emits : Emits flags m form
  pub yields : Yields k dec form a
  pub not_nil : solid ≡ true → NotNil form
  pub not_empty : 1 ≤ length form

module _ {A : Type 0} (flags k : ℕ) (dec : Decoding A) (a : A) where
  pub Transfers-one :
      (m : Encoding (Unit {0})) (bs : Bytes)
      → Writes m bs
      → Reads dec bs a
      → NotNil bs
      → Transfers flags k m dec a true
  Transfers-one m bs w r h = record {
    form = bs;
    emits = λ e _ _. w e;
    yields = Yields-of_Reads k dec bs a r;
    not_nil = λ _. h;
    not_empty = 1-le-NotNil bs h;
  }

  -- The compact form under the option, or the typed form.
  pub Transfers-either :
      (compact typed : Encoding (Unit {0})) (bs cs : Bytes)
      → Writes compact bs
      → Writes typed cs
      → Reads dec bs a
      → Reads dec cs a
      → NotNil bs
      → NotNil cs
      → Transfers flags k
          (λ e. if has_flag e.flags use_compact_ints_flag then compact e else typed e)
          dec
          a
          true
  Transfers-either compact typed bs cs wb wc rb rc nb nc =
      elim (Bool-cases (has_flag flags use_compact_ints_flag)) [
        | inl on ↦ record {
          form = bs;
          emits = λ e hf _. rw (ap (λ f. has_flag f use_compact_ints_flag) hf ∙ on) (wb e);
          yields = Yields-of_Reads k dec bs a rb;
          not_nil = λ _. nb;
          not_empty = 1-le-NotNil bs nb;
        }
        | inr off ↦ record {
          form = cs;
          emits = λ e hf _. rw (ap (λ f. has_flag f use_compact_ints_flag) hf ∙ off) (wc e);
          yields = Yields-of_Reads k dec cs a rc;
          not_nil = λ _. nc;
          not_empty = 1-le-NotNil cs nc;
        }
      ]

module _ {A B : Type 0} (flags k : ℕ) (m : Encoding (Unit {0})) (dec : Decoding A) (a : A)
    (solid : Bool) where
  pub Transfers-map :
      (f : A → B)
      → Transfers flags k m dec a solid
      → Transfers flags k m (dec >>= λ x. ok (f x)) (f a) solid
  Transfers-map f t = record {
    form = t.form;
    emits = t.emits;
    yields = Yields-map k dec f t.form a t.yields;
    not_nil = t.not_nil;
    not_empty = t.not_empty;
  }
