-- ===== src/RoundTrip/Dynamic/Depth.antt =====
-- Arrays in arrays, beyond the depth limit.
use msgpack.Prelude.{
  ℕ, zero, suc, ◌+◌, ◌≤◌, ◌≡◌, ◌∙◌, refl, ap, [], ◌∷◌, ◌++◌, ltb, arith, length, Bool-cases, inl,
  inr,
}
use msgpack.Outcome.{Error, ok, err, continue, ◌>>=◌}
use msgpack.Wire.Code.{is_fixed_num, is_fixed_map, is_fixed_array}
use msgpack.Dynamic.{Value}
use msgpack.Decoder.{Decoder, Decoding, Bytes, enter_depth, leave_depth, depth_limit}
use msgpack.Decoder.Read.{read_code}
use msgpack.Decoder.Skip.{leaving}
use msgpack.Decoder.Dynamic.{
  Setup, decode_items, decode_slice, interface_after, interface_by_option, interface_fuel,
  decode_interface_cond,
}
use msgpack.RoundTrip.Runs.{feed, taken_plain, Reads-read_code}
use msgpack.RoundTrip.Header.{array_form}
use msgpack.RoundTrip.Dynamic.Yields.{IsPlain, IsPlain-deeper, deeper, entered}
use msgpack.RoundTrip.Dynamic.Slices.{slice_header}

-- The leading bytes of `k` arrays of one element, each inside the one before.
abbrev pub array_starts : ℕ → Bytes
array_starts zero = []
array_starts (suc k) = 0x91 ∷ array_starts k

code_read :
    (c : ℕ) (bs : Bytes) (d : Decoder) → IsPlain d → read_code (feed (c ∷ bs) d) ≡ ok c (feed bs d)
code_read c bs d p =
    Reads-read_code c (feed bs d) p.attached ∙ ap (ok c) (taken_plain (c ∷ []) (feed bs d) p.silent)

module _ (setup : Setup) where
  one_element :
      (one : Decoding Value) (bs : Bytes) (d : Decoder)
      → IsPlain d
      → 1 ≤ length bs
      → (read_code >>= interface_after setup one) (feed (0x91 ∷ bs) d)
        ≡ continue (decode_items 1 one (feed bs d)) (λ vs s. ok (Value.slice vs) s)
  unfolding interface_after is_fixed_num is_fixed_map is_fixed_array decode_slice array_form
  one_element one bs d p room =
      let header = slice_header 1 bs d (omega arith) room p in
      let code = code_read 0x91 bs d p in rw code (rw (rw code at header) refl)

  -- An array whose one element is refused is refused, and its level is left.
  refused_inside :
      (one : Decoding Value) (k : ℕ) (e : Error) (rest left : Bytes) (d : Decoder)
      → IsPlain d
      → d.depth + suc k ≤ depth_limit d
      → 1 ≤ length rest
      → one (feed rest (deeper d)) ≡ err e (feed left (deeper d))
      → continue
          (enter_depth (feed (0x91 ∷ rest) d))
          (λ _ s. leaving (interface_by_option setup one s))
        ≡ err e (feed left d)
  unfolding leave_depth decode_items
  refused_inside one k e rest left d p room some_left h =
      rw
        (
          entered d (0x91 ∷ rest) k room,
          p.strict,
          one_element one rest (deeper d) (IsPlain-deeper d p) some_left,
          h,
        )
        (ap (λ n. err e (record (feed left d) { depth = n })) (omega arith))

  length-array_starts : (k : ℕ) (c : ℕ) → 1 ≤ length (array_starts k ++ c ∷ [])
  length-array_starts zero c = omega arith
  length-array_starts (suc k) c = omega arith

  refused :
      (k fuel c : ℕ) (d : Decoder)
      → IsPlain d
      → d.depth + k ≡ depth_limit d
      → k ≤ fuel
      → interface_fuel setup (suc fuel) (feed (array_starts k ++ c ∷ []) d)
        ≡ err (Error.depth_exceeds_limit (depth_limit d)) (feed (c ∷ []) d)
  unfolding interface_fuel enter_depth
  refused zero fuel c d p full h = elim (Bool-cases (ltb (depth_limit d) (d.depth + 1))) [
    | inl over ↦ rw over refl
    | inr under ↦ absurd (ground (arith, under, full))
  ]
  refused (suc k) zero c d p full h = absurd (omega (arith, h))
  refused (suc k) (suc fuel) c d p full h =
      refused_inside (interface_fuel setup (suc fuel)) k _ (array_starts k ++ c ∷ []) (c ∷ []) d p
        (omega (arith, full)) (length-array_starts k c)
        (refused k fuel c (deeper d) (IsPlain-deeper d p) (omega (arith, full)) (omega (arith, h)))

-- A value nested more deeply than the limit is refused as soon as the limit is passed: before `k`
-- arrays, each in the one before, with `k` levels left, and one more byte, decodeInterfaceCond
-- fails for the depth without reading that byte, and leaves the depth as it was. The decoder has a
-- reader with a Len method, does not record, and does not decode loosely.
pub decode_interface_cond-array_starts :
    (setup : Setup) (k c : ℕ) (d : Decoder)
    → IsPlain d
    → d.depth + k ≡ depth_limit d
    → decode_interface_cond setup (feed (array_starts k ++ c ∷ []) d)
      ≡ err (Error.depth_exceeds_limit (depth_limit d)) (feed (c ∷ []) d)
unfolding decode_interface_cond
decode_interface_cond-array_starts setup k c d p full =
    refused setup k (depth_limit d) c d p full (omega (arith, full))
