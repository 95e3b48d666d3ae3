-- ===== src/Decoder/Tracks/Skip.antt =====
-- Skip and DecodeRaw on every input.
use msgpack.Prelude.{
  ℕ, zero, suc, ◌+◌, ◌≤◌, ◌<◌, ◌≡◌, refl, ◌++◌, [], none, some, arith, ltb, Bool-cases, inl, inr,
}
use msgpack.Prelude.Int.{ℤ, pos, negsuc}
use msgpack.Outcome.{Outcome, ok, continue, subst-ok}
use msgpack.Wire.Code.{is_fixed_num, is_fixed_map, is_fixed_array, is_fixed_string}
use msgpack.Decoder.{Decoder, Decoding, Bytes, enter_depth, leave_depth, depth_limit}
use msgpack.Decoder.Skip.{
  times_int, skip_slice, skip_map, skip_after, leaving, skip_body, skip_fuel, skip, recorded,
  finish_raw, decode_raw,
}
use msgpack.Decoder.Tracks.{
  Frame, Tracks, took, gave_up, Tracks-pure, Tracks-fail, Tracks-choice, Tracks-switch, Tracks-bind,
  Tracks-times, Tracks-read_code,
}
use msgpack.Decoder.Tracks.Headers.{
  Tracks-array_len, Tracks-map_len, Tracks-skip_n, Tracks-skip_ext, Tracks-skip_bytes,
}

-- The depth is within the limit, and `fuel` more calls may be entered at most.
record HasRoom (fuel : ℕ) (d : Decoder) : Type 0 where
  within : d.depth ≤ depth_limit d
  enough : depth_limit d < d.depth + fuel

HasRoom-Frame : (fuel : ℕ) (d d' : Decoder) → Frame d d' → HasRoom fuel d → HasRoom fuel d'
HasRoom-Frame fuel d d' fr h = record {
  within = rw (fr.depth_eq, fr.max_depth_eq) h.within;
  enough = rw (fr.depth_eq, fr.max_depth_eq) h.enough;
}

module _ (fuel : ℕ) (m : Decoding (Unit {0}))
    (body : (d : Decoder) → HasRoom fuel d → Tracks d (m d)) where
  Tracks-times_int : (n : ℤ) (d : Decoder) → HasRoom fuel d → Tracks d (times_int n m d)
  Tracks-times_int (pos n) d q = Tracks-times (HasRoom fuel) m (HasRoom-Frame fuel) body n d q
  Tracks-times_int (negsuc n) d q = Tracks-pure tt d

module _ (fuel : ℕ) (one : Decoding (Unit {0}))
    (body : (d : Decoder) → HasRoom fuel d → Tracks d (one d)) where
  Tracks-skip_slice : (c : ℕ) (d : Decoder) → HasRoom fuel d → Tracks d (skip_slice one c d)
  unfolding skip_slice
  Tracks-skip_slice c d q =
      Tracks-bind (Tracks-array_len c d)
        λ n d' fr. Tracks-times_int fuel one body n d' (HasRoom-Frame fuel d d' fr q)

  twice : (d : Decoder) → HasRoom fuel d → Tracks d (continue (one d) λ _. one)
  twice d q = Tracks-bind (body d q) λ _ d' fr. body d' (HasRoom-Frame fuel d d' fr q)

  Tracks-skip_map : (c : ℕ) (d : Decoder) → HasRoom fuel d → Tracks d (skip_map one c d)
  unfolding skip_map
  Tracks-skip_map c d q =
      Tracks-bind (Tracks-map_len c d)
        λ n d' fr. Tracks-times_int fuel _ twice n d' (HasRoom-Frame fuel d d' fr q)

  Tracks-skip_after : (c : ℕ) (d : Decoder) → HasRoom fuel d → Tracks d (skip_after one c d)
  unfolding skip_after
  Tracks-skip_after c d q =
      let bytes = Tracks-skip_bytes c d in
      let slice = Tracks-skip_slice c d q in
      let entries = Tracks-skip_map c d q in
      let block = λ (n : ℕ). Tracks-skip_n n d in
      Tracks-choice (is_fixed_num c) _ _ (Tracks-pure tt d) (
        Tracks-choice (is_fixed_map c) _ _ entries (
          Tracks-choice (is_fixed_array c) _ _ slice (
            Tracks-choice (is_fixed_string c) _ _ bytes (
              Tracks-switch c _ _
                (
                  Tracks-pure tt d,
                  (
                    block 1,
                    (
                      block 2,
                      (
                        block 4,
                        (block 8, (bytes, (bytes, (slice, (entries, (Tracks-skip_ext c d, tt)))))),
                      ),
                    ),
                  ),
                )
                (Tracks-fail _ d)))))

  Tracks-skip_body : (d : Decoder) → HasRoom fuel d → Tracks d (skip_body one d)
  Tracks-skip_body d q =
      Tracks-bind (Tracks-read_code d)
        λ c d' fr. Tracks-skip_after c d' (HasRoom-Frame fuel d d' fr q)

-- One level deeper, and back.
deeper : Decoder → Decoder
deeper d = record d { depth = d.depth + 1 }

Frame-leave : (d d' : Decoder) → Frame (deeper d) d' → Frame d (leave_depth d')
unfolding deeper leave_depth
Frame-leave d d' fr = record {
  attached_eq = fr.attached_eq;
  sized_eq = fr.sized_eq;
  dict_eq = fr.dict_eq;
  struct_tag_eq = fr.struct_tag_eq;
  map_decoder_eq = fr.map_decoder_eq;
  depth_eq = omega (arith, fr.depth_eq);
  max_depth_eq = fr.max_depth_eq;
  flags_eq = fr.flags_eq;
}

Tracks-leaving :
    {A : Type 0} (d : Decoder) {o : Outcome Decoder A} → Tracks (deeper d) o → Tracks d (leaving o)
unfolding deeper leave_depth
Tracks-leaving d (took {d' = d'} bs e r fr) = took bs e r (Frame-leave d d' fr)
Tracks-leaving d (gave_up {d' = d'} bs e fr) = gave_up bs e (Frame-leave d d' fr)

-- Within the limit the depth grows by one; above it nothing changes.
Tracks-entered :
    {A : Type 0} (d : Decoder) (k : Decoder → Outcome Decoder A)
    → (d.depth + 1 ≤ depth_limit d → Tracks d (k (deeper d)))
    → Tracks d (continue (enter_depth d) λ _ d'. k d')
unfolding enter_depth deeper
Tracks-entered d k h = elim (Bool-cases (ltb (depth_limit d) (d.depth + 1))) [
  | inl over ↦ rw over (Tracks-fail _ d)
  | inr under ↦ rw under (h (ground arith))
]

Tracks-skip_fuel : (fuel : ℕ) (d : Decoder) → HasRoom fuel d → Tracks d (skip_fuel fuel d)
unfolding skip_fuel
Tracks-skip_fuel zero d q = absurd (omega (arith, q.within, q.enough))
Tracks-skip_fuel (suc fuel) d q =
    Tracks-entered d (λ d'. leaving (skip_body (skip_fuel fuel) d'))
      λ under.
        Tracks-leaving d
          (Tracks-skip_body fuel (skip_fuel fuel) (Tracks-skip_fuel fuel) (deeper d) (room under))
  where
    room : d.depth + 1 ≤ depth_limit d → HasRoom fuel (deeper d)
    room under = unfold deeper in record { within = under; enough = omega (arith, q.enough) }

-- Within the depth limit Skip ends on every input, with a result or an error. The bytes it takes
-- are the next ones, in order; a successful call has recorded exactly those, if the decoder
-- records; and the depth, the dictionary and the options are as before.
pub skip-Tracks : (d : Decoder) → d.depth ≤ depth_limit d → Tracks d (skip d)
unfolding skip
skip-Tracks d h =
    Tracks-skip_fuel (suc (depth_limit d)) d (record { within = h; enough = omega arith })

raw_of_Tracks :
    (d : Decoder) {o : Outcome Decoder (Unit {0})} (raw : Bytes) (d' : Decoder)
    → Tracks (record d { recording = some [] }) o
    → finish_raw o ≡ ok raw d'
    → (d.unread ≡ raw ++ d'.unread) × (d'.recording ≡ none) × Frame d d'
raw_of_Tracks d raw d' (took {d' = mid} bs e r fr) h =
    subst-ok (λ raw d'. (d.unread ≡ raw ++ d'.unread) × (d'.recording ≡ none) × Frame d d') h
      (
        rw (r, recorded) e,
        refl,
        record {
          attached_eq = fr.attached_eq;
          sized_eq = fr.sized_eq;
          dict_eq = fr.dict_eq;
          struct_tag_eq = fr.struct_tag_eq;
          map_decoder_eq = fr.map_decoder_eq;
          depth_eq = fr.depth_eq;
          max_depth_eq = fr.max_depth_eq;
          flags_eq = fr.flags_eq;
        },
      )
raw_of_Tracks d raw d' (gave_up bs e fr) h = absurd (cc)

-- Where DecodeRaw succeeds within the depth limit, it returns the bytes that it took from the
-- input, stops recording, and leaves the depth, the dictionary and the options as before.
pub decode_raw_lem :
    (d : Decoder) (raw : Bytes) (d' : Decoder)
    → d.depth ≤ depth_limit d
    → decode_raw d ≡ ok raw d'
    → (d.unread ≡ raw ++ d'.unread) × (d'.recording ≡ none) × Frame d d'
unfolding decode_raw
decode_raw_lem d raw d' h e =
    raw_of_Tracks d raw d' (skip-Tracks (record d { recording = some [] }) h) e
