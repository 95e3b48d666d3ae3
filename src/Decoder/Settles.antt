-- ===== src/Decoder/Settles.antt =====
-- What decoding a value keeps, on every input: like Tracks, but a read may add to the dictionary of
-- interned strings, and what is recorded does not matter.
pub mod Strings
pub mod Numbers
pub mod Containers
pub mod Steps
pub mod Interface
pub mod Query
pub mod Reflect
pub mod Structs
pub mod Objects
pub mod Builtin
pub mod Unmarshal
use Prim.Native.Nat.{max}
use msgpack.Prelude.{
  ℕ, ◌≡◌, ◌≤◌, refl, sym, ◌∙◌, Bool, true, false, List, [], ◌∷◌, ◌++◌, append_assoc, append-nil,
  Option, length, All, arith, if◌then◌else◌,
}
use msgpack.Outcome.{Error, Outcome, ok, err, continue, switch, is_one_of, Action}
use msgpack.Encoder.Intern.{max_dict_len}
use msgpack.Decoder.{Decoder, Decoding, Bytes, depth_limit}
use msgpack.Decoder.Tracks.{Frame, Frame-refl, Tracks, took, gave_up}

-- The reader, the options and the depth are as before; the dictionary has grown at its end, and not
-- past its bound.
pub record Kept (d d' : Decoder) : Type 0 where
  pub attached_eq : d'.attached ≡ d.attached
  pub sized_eq : d'.sized ≡ d.sized
  pub struct_tag_eq : d'.struct_tag ≡ d.struct_tag
  pub map_decoder_eq : d'.map_decoder ≡ d.map_decoder
  pub depth_eq : d'.depth ≡ d.depth
  pub max_depth_eq : d'.max_depth ≡ d.max_depth
  pub flags_eq : d'.flags ≡ d.flags
  pub added : List Bytes
  pub dict_eq : d'.dict ≡ d.dict ++ added
  pub dict_bound : length d'.dict ≤ max (length d.dict) max_dict_len

pub Kept-Frame : (d d' : Decoder) → Frame d d' → Kept d d'
Kept-Frame d d' fr = record {
  attached_eq = fr.attached_eq;
  sized_eq = fr.sized_eq;
  struct_tag_eq = fr.struct_tag_eq;
  map_decoder_eq = fr.map_decoder_eq;
  depth_eq = fr.depth_eq;
  max_depth_eq = fr.max_depth_eq;
  flags_eq = fr.flags_eq;
  added = [];
  dict_eq = fr.dict_eq ∙ sym (append-nil d.dict);
  dict_bound = rw fr.dict_eq (omega arith);
}

pub Kept-trans : (d d' d'' : Decoder) → Kept d d' → Kept d' d'' → Kept d d''
Kept-trans d d' d'' f g = record {
  attached_eq = g.attached_eq ∙ f.attached_eq;
  sized_eq = g.sized_eq ∙ f.sized_eq;
  struct_tag_eq = g.struct_tag_eq ∙ f.struct_tag_eq;
  map_decoder_eq = g.map_decoder_eq ∙ f.map_decoder_eq;
  depth_eq = g.depth_eq ∙ f.depth_eq;
  max_depth_eq = g.max_depth_eq ∙ f.max_depth_eq;
  flags_eq = g.flags_eq ∙ f.flags_eq;
  added = f.added ++ g.added;
  dict_eq = rw (g.dict_eq, f.dict_eq, append_assoc);
  dict_bound = omega (arith, f.dict_bound, g.dict_bound);
}

-- The depth is within the limit.
abbrev pub IsWithin : Decoder → Type 0
IsWithin d = d.depth ≤ depth_limit d

pub IsWithin-Kept : (d d' : Decoder) → Kept d d' → IsWithin d → IsWithin d'
IsWithin-Kept d d' kept h = rw (kept.depth_eq, kept.max_depth_eq) h

-- The call ended, with a result or an error, and took the bytes `bs` from the input.
pub data Settles {A : Type 0} (d : Decoder) : Outcome Decoder A → Type 0 where
  settled :
      {a : A} {d' : Decoder} (bs : Bytes)
      → d.unread ≡ bs ++ d'.unread
      → Kept d d'
      → Settles d (ok a d')
  failed :
      {e : Error} {d' : Decoder} (bs : Bytes)
      → d.unread ≡ bs ++ d'.unread
      → Kept d d'
      → Settles d (err e d')

module _ {A : Type 0} where
  pub Settles-Tracks : (d : Decoder) {o : Outcome Decoder A} → Tracks d o → Settles d o
  Settles-Tracks d (took {d' = d'} bs e r fr) = settled bs e (Kept-Frame d d' fr)
  Settles-Tracks d (gave_up {d' = d'} bs e fr) = failed bs e (Kept-Frame d d' fr)

  pub Settles-pure : (a : A) (d : Decoder) → Settles d (ok a d)
  Settles-pure a d = settled [] refl (Kept-Frame d d (Frame-refl d))

  pub Settles-fail : (e : Error) (d : Decoder) → Settles {A = A} d (err e d)
  Settles-fail e d = failed [] refl (Kept-Frame d d (Frame-refl d))

  -- A choice between two methods, called on `s`.
  pub Settles-choice :
      (b : Bool) (m k : Decoding A) {d s : Decoder}
      → Settles d (m s)
      → Settles d (k s)
      → Settles d ((if b then m else k) s)
  Settles-choice true m k h h' = h
  Settles-choice false m k h h' = h'

  pub Settles-switch :
      (c : ℕ) (cases : List (List ℕ × Decoding A)) (m : Decoding A) {d s : Decoder}
      → All (λ (p : List ℕ × Decoding A). Settles d (p.1 s)) cases
      → Settles d (m s)
      → Settles d (switch c cases m s)
  unfolding switch
  Settles-switch c [] m hs h = h
  Settles-switch c ((ks, k) ∷ cases) m hs h =
      Settles-choice (is_one_of c ks) k _ hs.0 (Settles-switch c cases m hs.1 h)

  pub Settles-after :
      (d d' : Decoder) {o : Outcome Decoder A} (bs : Bytes)
      → d.unread ≡ bs ++ d'.unread
      → Kept d d'
      → Settles d' o
      → Settles d o
  Settles-after d d' bs e kept (settled {d' = s} cs e' more) =
      settled (bs ++ cs) (rw (e, e', append_assoc)) (Kept-trans d d' s kept more)
  Settles-after d d' bs e kept (failed {d' = s} cs e' more) =
      failed (bs ++ cs) (rw (e, e', append_assoc)) (Kept-trans d d' s kept more)

module _ {A B : Type 0} where
  pub Settles-bind :
      (d : Decoder) {o : Outcome Decoder A} {f : A → Decoding B}
      → Settles d o
      → ((a : A) (d' : Decoder) → Kept d d' → Settles d' (f a d'))
      → Settles d (continue o f)
  Settles-bind d (settled {a} {d'} bs e kept) k = Settles-after d d' bs e kept (k a d' kept)
  Settles-bind d (failed bs e kept) k = failed bs e kept

  -- What only maps the result of a read.
  pub Settles-map :
      (d : Decoder) {o : Outcome Decoder A} (f : A → B)
      → Settles d o
      → Settles d (continue o λ a s. ok (f a) s)
  Settles-map d f h = Settles-bind d h λ a d' _. Settles-pure (f a) d'
