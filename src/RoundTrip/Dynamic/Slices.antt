-- ===== src/RoundTrip/Dynamic/Slices.antt =====
-- Slices inside a value of type `any`.
use msgpack.Prelude.{
  Option, ℕ, suc, ◌+◌, ◌^◌, ◌<◌, ◌≤◌, ◌≡◌, ◌∙◌, refl, ap, [], ◌∷◌, ◌++◌, append_assoc, length,
  length-append, ltb, leb, arith, if_cases,
}
use mathlib.Core.Path.{ap₂}
use msgpack.Prelude.Int.{pos}
use msgpack.Outcome.{ok, ◌>>=◌, switch, continue_assoc}
use msgpack.Wire.Code.{
  array16_code, array32_code, is_fixed_num, is_fixed_map, is_fixed_array, is_fixed_string,
}
use msgpack.Dynamic.{Value, Items, no_items, item, count_items}
use msgpack.Dynamic.Canonical.{canonical, canonical_items, IsQuiet}
use msgpack.Decoder.{Decoder, Decoding, Bytes}
use msgpack.Decoder.Read.{read_code}
use msgpack.Decoder.Length.{array_len}
use msgpack.Decoder.Dynamic.{
  Setup, decode_items, slice_with_len, decode_slice, interface_after, interface_fuel,
}
use msgpack.Encoder.Number.{bytes16, bytes32}
use msgpack.Encoder.Length.{encode_array_len}
use msgpack.Encoder.Dynamic.{encode, encode_items, as_element}
use msgpack.Encoder.Float.{encode_float32}
use msgpack.RoundTrip.Runs.{feed, taken_plain}
use msgpack.RoundTrip.Header.{array_form, Writes-encode_array_len}
use msgpack.RoundTrip.Container.{read_array_form}
use msgpack.RoundTrip.Dynamic.Yields.{
  IsPlainWith, IsUnset, YieldsUnset, Yields-bind, Yields-map, Yields-code, Yields-after,
  YieldsValue-suc, Emits, Emits-bind, Emits-nothing,
}
use msgpack.RoundTrip.Dynamic.Leaves.{Sent}

-- The same of the values of a slice, one after the other.
abbrev pub SentItems : Setup → ℕ → ℕ → Items → Type 0
SentItems setup flags k vs =
    (bs : Bytes) × (ws : Items) × Emits flags (encode_items setup.platform vs) bs
    × ((fuel : ℕ)
        → k ≤ fuel
        → YieldsUnset k (decode_items (count_items vs) (interface_fuel setup fuel)) bs ws)
    × (canonical_items ws ≡ canonical_items vs)
    × (count_items vs ≤ length bs)

module _ (setup : Setup) (flags k : ℕ) where
  pub SentItems-no_items : SentItems setup flags k no_items
  unfolding encode decode_items canonical
  SentItems-no_items =
      ([], no_items, Emits-nothing flags, (λ fuel _ d _ _. refl), refl, omega arith)

  as_element_quiet :
      (v : Value)
      → IsQuiet v
      → as_element setup.platform v (encode setup.platform v) ≡ encode setup.platform v
  unfolding encode
  as_element_quiet (Value.float32 n) q = ap (encode_float32 setup.platform) q
  as_element_quiet _ q = refl

  pub SentItems-item :
      (v : Value) (vs : Items)
      → Sent setup flags k v
      → IsQuiet v
      → SentItems setup flags k vs
      → SentItems setup flags k (item v vs)
  unfolding encode decode_items canonical
  SentItems-item v vs (bs, w, emits, yields, e, l) still (cs, ws, emits', yields', e', l') = (
    bs ++ cs,
    item w ws,
    Emits-bind flags (as_element setup.platform v (encode setup.platform v))
        (encode_items setup.platform vs) bs cs (rw (as_element_quiet v still) emits) emits',
    (λ fuel enough.
        Yields-bind k (interface_fuel setup fuel) _ bs cs w (item w ws) (yields fuel enough) (
          Yields-map k (decode_items (count_items vs) (interface_fuel setup fuel)) (item w) cs ws
            (yields' fuel enough))),
    ap₂ item e e',
    omega (arith, length-append {0} bs cs),
  )

-- The header of a slice, before the bytes of its values.
pub slice_header :
    {P : Option ℕ → Type 0} (l : ℕ) (bs : Bytes) (d : Decoder)
    → l < 2 ^ 32
    → l ≤ length bs
    → IsPlainWith P d
    → (read_code >>= array_len) (feed (array_form l ++ bs) d) ≡ ok (pos l) (feed bs d)
slice_header l bs d h room p =
    rw append_assoc (
      read_array_form (feed bs d) p.attached p.sized l
        (omega (arith, length-append {0} bs d.unread)) h d.recording)
    ∙ ap (ok (pos l)) (taken_plain (array_form l) (feed bs d) p.silent)

module _ (setup : Setup) (k : ℕ) (one : Decoding Value) (bs : Bytes) (ws : Items) (l : ℕ) where
  Yields-decode_slice :
      l < 2 ^ 32
      → l ≤ length bs
      → YieldsUnset k (decode_items l one) bs ws
      → YieldsUnset k (read_code >>= decode_slice one) (array_form l ++ bs) (Value.slice ws)
  unfolding decode_slice
  Yields-decode_slice h room yields d p depth =
      continue_assoc (read_code (feed (array_form l ++ bs) d)) array_len (slice_with_len one)
      ∙ rw (slice_header l bs d h room p)
          (Yields-map k (decode_items l one) Value.slice bs ws yields d p depth)

  abbrev Follows : Bytes → Type 0
  Follows form =
      YieldsUnset k (read_code >>= decode_slice one) (form ++ bs) (Value.slice ws)
      → YieldsUnset k (read_code >>= interface_after setup one) (form ++ bs) (Value.slice ws)

  fixed_slice : l < 16 → Follows ((144 + l) ∷ [])
  unfolding interface_after is_fixed_num is_fixed_map is_fixed_array
  fixed_slice h reads =
      Yields-code k (interface_after setup one) (144 + l) bs (Value.slice ws) λ d p depth.
        ground
          (arith, Yields-after k (decode_slice one) (144 + l) bs (Value.slice ws) reads d p depth)

  Follows-array_form : Follows (array_form l)
  unfolding array_form interface_after is_fixed_num is_fixed_map is_fixed_array is_fixed_string
      switch
  Follows-array_form =
      let past =
        λ (c : ℕ) (rest : Bytes)
            (reads : YieldsUnset k (read_code >>= decode_slice one) (c ∷ rest) (Value.slice ws)).
          Yields-after k (decode_slice one) c rest (Value.slice ws) reads in
      let code = λ (c : ℕ) (rest : Bytes).
        Yields-code {P = IsUnset} k (interface_after setup one) c rest (Value.slice ws) in
      if_cases Follows (ltb l 16) (λ t. fixed_slice (ground arith))
        λ _.
          if_cases Follows (leb l 65535)
            (λ _ reads.
              code array16_code (bytes16 l ++ bs) (past array16_code (bytes16 l ++ bs) reads))
            λ _ reads.
              code array32_code (bytes32 l ++ bs) (past array32_code (bytes32 l ++ bs) reads)

pub 1-le-array_form : (l : ℕ) (s : Bytes) → 1 ≤ length (array_form l ++ s)
unfolding array_form
1-le-array_form l s =
    if_cases (λ bs. 1 ≤ length (bs ++ s)) (ltb l 16) (λ _. omega arith)
      λ _. if_cases (λ bs. 1 ≤ length (bs ++ s)) (leb l 65535) (λ _. omega arith) λ _. omega arith

pub Sent-slice :
    (setup : Setup) (flags k : ℕ) (vs : Items)
    → count_items vs < 2 ^ 32
    → SentItems setup flags k vs
    → Sent setup flags (suc k) (Value.slice vs)
unfolding encode canonical
Sent-slice setup flags k vs h (bs, ws, emits, yields, e, l) =
    let n = count_items vs in
    let form = array_form n in
    (
      form ++ bs,
      Value.slice ws,
      Emits-bind flags (encode_array_len n) (encode_items setup.platform vs) form bs
          (λ s _ _. Writes-encode_array_len n h s) emits,
      YieldsValue-suc setup k (form ++ bs) (Value.slice ws) λ fuel enough.
          let one = interface_fuel setup fuel in
          Follows-array_form setup k one bs ws n
            (Yields-decode_slice setup k one bs ws n h l (yields fuel enough)),
      ap Value.slice e,
      1-le-array_form n bs,
    )
