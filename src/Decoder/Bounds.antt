-- ===== src/Decoder/Bounds.antt =====
-- The lengths that the guards of decode.go let pass are bounded by the input or by a constant.
pub mod Containers
use msgpack.Prelude.{
  ℕ, ◌/◌, ◌≤◌, ◌≡◌, ◌∙◌, ap, Bool, true, false, ltb, leb, ◌==◌, ◌&&◌, ◌||◌, if◌then◌else◌, length,
  arith, bit_and, refl, Option, some, none, if_cases, List, [], ◌∷◌, All,
}
use mathlib.Core.Path.{subst}
use msgpack.Prelude.Int.{ℤ, pos, negsuc}
use msgpack.Wire.Code.{
  nil_code, is_fixed_string, fixed_str_mask, fixed_array_low, fixed_array_high, fixed_array_mask,
  is_ext, fixed_map_low, fixed_map_high, fixed_map_mask, map16_code, map32_code,
}
use msgpack.Outcome.{Error, Outcome, ok, err, stuck, continue, switch, is_one_of}
use msgpack.Decoder.{Decoder, Decoding, has_flag, disable_alloc_limit_flag}
use msgpack.Decoder.Read.{read_code}
use msgpack.Decoder.Limit.{
  Kind, container_limit, reject_by_input, reject_oversized_container, remaining_readable,
  reject_oversized_bytes, reject_bytes_by_input, uint32_to_int,
}
use msgpack.Decoder.Word.{uint8, uint16, uint32}
use msgpack.Decoder.Length.{
  checked_bytes, checked_container, bytes_len, array_len, map_len, decode_bytes_len,
  decode_array_len,
}
use msgpack.Decoder.Tracks.{Frame, Frame-refl, Frame-trans, Tracks, took, gave_up, Tracks-read_code}
use msgpack.Decoder.Tracks.Headers.{
  Tracks-uint8, Tracks-uint16, Tracks-uint32, Tracks-uint32_to_int,
}

-- The length that the method returns, if it returns one, is within a bound on the state it leaves.
pub data Within (bound : Decoder → ℕ) : Outcome Decoder ℤ → Type 0 where
  length_within : {n : ℕ} {d : Decoder} → n ≤ bound d → Within bound (ok (pos n) d)
  nil_header : {n : ℕ} {d : Decoder} → Within bound (ok (negsuc n) d)
  refused : {e : Error} {d : Decoder} → Within bound (err e d)

module _ (bound : Decoder → ℕ) where
  pub Within-choice :
      (b : Bool) (m k : Decoding ℤ) {d : Decoder}
      → Within bound (m d)
      → Within bound (k d)
      → Within bound ((if b then m else k) d)
  Within-choice true m k h h' = h
  Within-choice false m k h h' = h'

  pub Within-switch :
      (c : ℕ) (cases : List (List ℕ × Decoding ℤ)) (m : Decoding ℤ) {d : Decoder}
      → All (λ (p : List ℕ × Decoding ℤ). Within bound (p.1 d)) cases
      → Within bound (m d)
      → Within bound (switch c cases m d)
  unfolding switch
  Within-switch c [] m hs h = h
  Within-switch c ((ks, k) ∷ cases) m hs h =
      Within-choice (is_one_of c ks) k _ hs.0 (Within-switch c cases m hs.1 h)

  pub Within-bind :
      {A : Type 0} {d : Decoder} {o : Outcome Decoder A} {f : A → Decoding ℤ}
      → Tracks d o
      → ((a : A) (d' : Decoder) → Frame d d' → Within bound (f a d'))
      → Within bound (continue o f)
  Within-bind (took {a} {d'} bs e r fr) k = k a d' fr
  Within-bind (gave_up bs e fr) k = refused

  -- A check that holds the bound whenever the decoder has a property that reads keep.
  module _ (Q : Decoder → Type 0) (stable : (d d' : Decoder) → Frame d d' → Q d → Q d')
      (check : ℕ → Decoding ℤ)
      (checked : (n : ℕ) (d : Decoder) → Q d → Within bound (check n d)) where
    pub after8 : (d : Decoder) → Q d → Within bound (continue (uint8 d) check)
    after8 d q = Within-bind (Tracks-uint8 d) λ n d' fr. checked n d' (stable d d' fr q)

    pub after16 : (d : Decoder) → Q d → Within bound (continue (uint16 d) check)
    after16 d q = Within-bind (Tracks-uint16 d) λ n d' fr. checked n d' (stable d d' fr q)

    pub after32 :
        (d : Decoder)
        → Q d
        → Within bound (continue (uint32 d) λ n d'. continue (uint32_to_int n d') check)
    after32 d q = Within-bind (Tracks-uint32 d) λ n d' fr.
        Within-bind (Tracks-uint32_to_int n d')
          λ size d'' fr'. checked size d'' (stable d d'' (Frame-trans fr fr') q)

pub Within-ok :
    {bound : Decoder → ℕ} {n : ℕ} {d : Decoder} → Within bound (ok (pos n) d) → n ≤ bound d
Within-ok (length_within h) = h

-- What holds of the outcome of a run holds of the length that the run returned.
pub Within-run :
    {bound : Decoder → ℕ} {o : Outcome Decoder ℤ} {n : ℕ} {d : Decoder}
    → Within bound o
    → o ≡ ok (pos n) d
    → n ≤ bound d
Within-run {bound} w e = Within-ok (subst (Within bound) e w)

-- A byte string's length against the input.
abbrev left : Decoder → ℕ
left d = length d.unread

abbrev HasLen : Decoder → Type 0
HasLen d = d.sized ≡ true

HasLen-stable : (d d' : Decoder) → Frame d d' → HasLen d → HasLen d'
HasLen-stable d d' fr h = fr.sized_eq ∙ h

abbrev Accepts : ℕ → Outcome Decoder (Unit {0}) → Type 0
Accepts n o = Within left (continue o λ _ d'. ok (pos n) d')

remaining_sized : (d : Decoder) → HasLen d → some (length d.unread) ≡ remaining_readable d
unfolding remaining_readable
remaining_sized d h = rw h refl

passed_bytes :
    (n : ℕ) (d : Decoder) → HasLen d → Accepts n (reject_bytes_by_input n (remaining_readable d) d)
passed_bytes n d h =
    subst (λ o. Accepts n (reject_bytes_by_input n o d)) (remaining_sized d h)
      (if_cases (λ (m : Decoding (Unit {0})). Accepts n (m d)) (ltb (length d.unread) n)
        (λ _. refused) (λ f. length_within (ground arith)))

Within-checked_bytes : (n : ℕ) (d : Decoder) → HasLen d → Within left (checked_bytes n d)
unfolding reject_oversized_bytes
Within-checked_bytes n d h =
    if_cases (Accepts n) (n == 0) (λ t. length_within (ground arith)) λ _. passed_bytes n d h

Within-bytes_len : (c : ℕ) (d : Decoder) → HasLen d → Within left (bytes_len c d)
unfolding bytes_len
Within-bytes_len c d h =
    let check = checked_bytes in
    let checked = Within-checked_bytes in
    Within-choice left (c == nil_code) _ _ nil_header (
      Within-choice left (is_fixed_string c) _ _ (checked (bit_and c fixed_str_mask) d h) (
        Within-switch left c _ _
          (
            after8 left HasLen HasLen-stable check checked d h,
            (
              after16 left HasLen HasLen-stable check checked d h,
              (after32 left HasLen HasLen-stable check checked d h, tt),
            ),
          )
          refused))

-- A length that DecodeBytesLen returns, where the reader has a Len method, is at most what is left
-- to read after the header.
pub decode_bytes_len_bound :
    (d d' : Decoder) (n : ℕ)
    → d.sized ≡ true
    → decode_bytes_len d ≡ ok (pos n) d'
    → n ≤ length d'.unread
unfolding decode_bytes_len
decode_bytes_len_bound d d' n h run =
    Within-run
      (Within-bind left (Tracks-read_code d)
        λ c d'' fr. Within-bytes_len c d'' (HasLen-stable d d'' fr h))
      run
