-- ===== src/Decoder/Tracks.antt =====
-- What every read keeps: the bytes it takes are the next ones of the input, they are recorded if
-- the decoder records, and the decoder's options, dictionary and depth stay as they are.
pub mod Headers
pub mod Skip
use msgpack.Prelude.{
  ℕ, zero, suc, ◌≡◌, refl, sym, ◌∙◌, Bool, true, false, List, [], ◌∷◌, ◌++◌, append_assoc,
  append-nil, Option, none, some, length, take, drop, take-append-drop, All, arith, ltb, Bool-cases,
  inl, inr, if◌then◌else◌,
}
use msgpack.Outcome.{Error, Outcome, ok, err, stuck, Action, continue, times, switch, is_one_of}
use msgpack.Decoder.{Decoder, Decoding, Bytes}
use msgpack.Decoder.Read.{note, next_byte, read_code, read_n, read_block}

pub record Frame (d d' : Decoder) : Type 0 where
  pub attached_eq : d'.attached ≡ d.attached
  pub sized_eq : d'.sized ≡ d.sized
  pub dict_eq : d'.dict ≡ d.dict
  pub struct_tag_eq : d'.struct_tag ≡ d.struct_tag
  pub map_decoder_eq : d'.map_decoder ≡ d.map_decoder
  pub depth_eq : d'.depth ≡ d.depth
  pub max_depth_eq : d'.max_depth ≡ d.max_depth
  pub flags_eq : d'.flags ≡ d.flags

pub Frame-refl : (d : Decoder) → Frame d d
Frame-refl d = record {
  attached_eq = refl;
  sized_eq = refl;
  dict_eq = refl;
  struct_tag_eq = refl;
  map_decoder_eq = refl;
  depth_eq = refl;
  max_depth_eq = refl;
  flags_eq = refl;
}

pub Frame-trans : {d d' d'' : Decoder} → Frame d d' → Frame d' d'' → Frame d d''
Frame-trans f g = record {
  attached_eq = g.attached_eq ∙ f.attached_eq;
  sized_eq = g.sized_eq ∙ f.sized_eq;
  dict_eq = g.dict_eq ∙ f.dict_eq;
  struct_tag_eq = g.struct_tag_eq ∙ f.struct_tag_eq;
  map_decoder_eq = g.map_decoder_eq ∙ f.map_decoder_eq;
  depth_eq = g.depth_eq ∙ f.depth_eq;
  max_depth_eq = g.max_depth_eq ∙ f.max_depth_eq;
  flags_eq = g.flags_eq ∙ f.flags_eq;
}

-- The call ended, with a result or an error, and took the bytes `bs` from the input.
pub data Tracks {A : Type 0} (d : Decoder) : Outcome Decoder A → Type 0 where
  took :
      {a : A} {d' : Decoder} (bs : Bytes)
      → d.unread ≡ bs ++ d'.unread
      → d'.recording ≡ note bs d.recording
      → Frame d d'
      → Tracks d (ok a d')
  gave_up :
      {e : Error} {d' : Decoder} (bs : Bytes)
      → d.unread ≡ bs ++ d'.unread
      → Frame d d'
      → Tracks d (err e d')

note-nil : (r : Option Bytes) → r ≡ note [] r
note-nil none = refl
note-nil (some r) = rw append-nil

note-append : (bs cs : Bytes) (r : Option Bytes) → note cs (note bs r) ≡ note (bs ++ cs) r
note-append bs cs none = refl
note-append bs cs (some r) = rw append_assoc

module _ {A : Type 0} where
  pub Tracks-pure : (a : A) (d : Decoder) → Tracks d (ok a d)
  Tracks-pure a d = took [] refl (note-nil d.recording) (Frame-refl d)

  pub Tracks-fail : (e : Error) (d : Decoder) → Tracks {A = A} d (err e d)
  Tracks-fail e d = gave_up [] refl (Frame-refl d)

  pub Tracks-if :
      (b : Bool) {o o' : Outcome Decoder A} {d : Decoder}
      → Tracks d o
      → Tracks d o'
      → Tracks d (if b then o else o')
  Tracks-if true h h' = h
  Tracks-if false h h' = h'

  -- The same for a choice between two methods.
  pub Tracks-choice :
      (b : Bool) (m k : Decoding A) {d : Decoder}
      → Tracks d (m d)
      → Tracks d (k d)
      → Tracks d ((if b then m else k) d)
  Tracks-choice true m k h h' = h
  Tracks-choice false m k h h' = h'

  pub Tracks-switch :
      (c : ℕ) (cases : List (List ℕ × Decoding A)) (m : Decoding A) {d : Decoder}
      → All (λ (p : List ℕ × Decoding A). Tracks d (p.1 d)) cases
      → Tracks d (m d)
      → Tracks d (switch c cases m d)
  unfolding switch
  Tracks-switch c [] m hs h = h
  Tracks-switch c ((ks, k) ∷ cases) m hs h =
      Tracks-choice (is_one_of c ks) k _ hs.0 (Tracks-switch c cases m hs.1 h)

  -- A read that goes on where another one stopped.
  Tracks-after :
      {d d' : Decoder} {o : Outcome Decoder A} (bs : Bytes)
      → d.unread ≡ bs ++ d'.unread
      → d'.recording ≡ note bs d.recording
      → Frame d d'
      → Tracks d' o
      → Tracks d o
  Tracks-after {d} bs e r fr (took cs e' r' fr') =
      took (bs ++ cs) (rw (e, e', append_assoc)) (r' ∙ rw (r, note-append bs cs d.recording))
        (Frame-trans fr fr')
  Tracks-after bs e r fr (gave_up cs e' fr') =
      gave_up (bs ++ cs) (rw (e, e', append_assoc)) (Frame-trans fr fr')

module _ {A B : Type 0} where
  pub Tracks-bind :
      {d : Decoder} {o : Outcome Decoder A} {f : A → Decoding B}
      → Tracks d o
      → ((a : A) (d' : Decoder) → Frame d d' → Tracks d' (f a d'))
      → Tracks d (continue o f)
  Tracks-bind (took {a} {d'} bs e r fr) k = Tracks-after bs e r fr (k a d' fr)
  Tracks-bind (gave_up bs e fr) k = gave_up bs e fr

-- A new state that differs in what is left to read and what is recorded.
pub Frame-moved :
    (d : Decoder) (rest : Bytes) (r : Option Bytes)
    → Frame d (record d { unread = rest; recording = r })
Frame-moved d rest r = record {
  attached_eq = refl;
  sized_eq = refl;
  dict_eq = refl;
  struct_tag_eq = refl;
  map_decoder_eq = refl;
  depth_eq = refl;
  max_depth_eq = refl;
  flags_eq = refl;
}

Tracks-next_byte : (bs : Bytes) (d : Decoder) → d.unread ≡ bs → Tracks d (next_byte bs d)
Tracks-next_byte [] d e = Tracks-fail _ d
Tracks-next_byte (c ∷ rest) d e = took (c ∷ []) e refl (Frame-moved d rest _)

pub Tracks-read_code : (d : Decoder) → Tracks d (read_code d)
unfolding read_code
Tracks-read_code d = Tracks-if d.attached (Tracks-next_byte d.unread d refl) (Tracks-fail _ d)

pub Tracks-read_n : (n : ℕ) (d : Decoder) → Tracks d (read_n n d)
unfolding read_n
Tracks-read_n n d =
    Tracks-if d.attached
      (Tracks-if (ltb (length d.unread) n)
        (gave_up d.unread (sym (append-nil _)) (Frame-moved d [] d.recording))
        (took (take n d.unread) (sym (take-append-drop n d.unread)) refl (Frame-moved d _ _)))
      (Tracks-fail _ d)

-- A loop keeps what its body keeps, where the body may rely on a condition on the frame.
pub Tracks-times :
    (Q : Decoder → Type 0) (m : Decoding (Unit {0}))
    → ((d d' : Decoder) → Frame d d' → Q d → Q d')
    → ((d : Decoder) → Q d → Tracks d (m d))
    → (n : ℕ) (d : Decoder) → Q d
    → Tracks d (times n m d)
unfolding times
Tracks-times Q m stable body zero d q = Tracks-pure tt d
Tracks-times Q m stable body (suc n) d q =
    Tracks-bind (body d q) λ _ d' fr. Tracks-times Q m stable body n d' (stable d d' fr q)
