-- ===== src/Decoder/Settles/Steps.antt =====
-- One level of depth, and the leading byte of a value, which a map decoder reads again.
use msgpack.Prelude.{ℕ, ◌+◌, ◌≡◌, ◌∙◌, refl, [], ◌∷◌, Option, arith}
use msgpack.Outcome.{Outcome}
use msgpack.Decoder.{Decoder, Bytes, leave_depth}
use msgpack.Decoder.Skip.{leaving}
use msgpack.Decoder.Tracks.{Frame-moved}
use msgpack.Decoder.Settles.{Kept, Kept-Frame, Settles, settled, failed, Settles-after}

-- One level deeper, and back.
unfoldable pub deeper : Decoder → Decoder
deeper d = record d { depth = d.depth + 1 }

Kept-leave : (d d' : Decoder) → Kept (deeper d) d' → Kept d (leave_depth d')
unfolding deeper leave_depth
Kept-leave d d' kept = record {
  attached_eq = kept.attached_eq;
  sized_eq = kept.sized_eq;
  struct_tag_eq = kept.struct_tag_eq;
  map_decoder_eq = kept.map_decoder_eq;
  depth_eq = omega (arith, kept.depth_eq);
  max_depth_eq = kept.max_depth_eq;
  flags_eq = kept.flags_eq;
  added = kept.added;
  dict_eq = kept.dict_eq;
  dict_bound = kept.dict_bound;
}

pub Settles-leaving :
    {A : Type 0} (d : Decoder) {o : Outcome Decoder A}
    → Settles (deeper d) o
    → Settles d (leaving o)
unfolding deeper leave_depth
Settles-leaving d (settled {d' = d'} bs e kept) = settled bs e (Kept-leave d d' kept)
Settles-leaving d (failed {d' = d'} bs e kept) = failed bs e (Kept-leave d d' kept)

-- A read that starts again at the leading byte, whatever is recorded by then.
Kept-again :
    (d d' : Decoder) (bs : Bytes) (r : Option Bytes)
    → Kept (record d { unread = bs; recording = r }) d'
    → Kept d d'
Kept-again d d' bs r kept = record {
  attached_eq = kept.attached_eq;
  sized_eq = kept.sized_eq;
  struct_tag_eq = kept.struct_tag_eq;
  map_decoder_eq = kept.map_decoder_eq;
  depth_eq = kept.depth_eq;
  max_depth_eq = kept.max_depth_eq;
  flags_eq = kept.flags_eq;
  added = kept.added;
  dict_eq = kept.dict_eq;
  dict_bound = kept.dict_bound;
}

pub Settles-again :
    {A : Type 0} (d : Decoder) (bs : Bytes) (r : Option Bytes) {o : Outcome Decoder A}
    → d.unread ≡ bs
    → Settles (record d { unread = bs; recording = r }) o
    → Settles d o
Settles-again d bs r e (settled {d' = d'} cs e' kept) =
    settled cs (e ∙ e') (Kept-again d d' bs r kept)
Settles-again d bs r e (failed {d' = d'} cs e' kept) =
    failed cs (e ∙ e') (Kept-again d d' bs r kept)

-- A read that goes on after the leading byte.
pub Settles-next :
    {A : Type 0} (d : Decoder) (c : ℕ) (rest : Bytes) (r : Option Bytes) {o : Outcome Decoder A}
    → d.unread ≡ c ∷ rest
    → Settles (record d { unread = rest; recording = r }) o
    → Settles d o
Settles-next d c rest r e h = Settles-again d (c ∷ rest) r e (
    Settles-after (record d { unread = c ∷ rest; recording = r })
      (record d { unread = rest; recording = r }) (c ∷ []) refl
      (Kept-Frame _ _ (Frame-moved (record d { unread = c ∷ rest; recording = r }) rest r)) h)
