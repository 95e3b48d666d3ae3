-- ===== src/RoundTrip/Reflect/Multi.antt =====
-- EncodeMulti and DecodeMulti.
use msgpack.Prelude.{ℕ, suc, ◌+◌, ◌≤◌, ◌≡◌, refl, Bool, List, [], ◌∷◌, ◌++◌}
use msgpack.Outcome.{ok}
use msgpack.Float.{Platform}
use msgpack.Decoder.{Decoder, Bytes, depth_limit}
use msgpack.Decoder.Unmarshal.{Argument, reference, decode, decode_multi}
use msgpack.Encoder.{Encoder}
use msgpack.Encoder.Marshal.{encode_argument, encode_multi}
use msgpack.Reflect.{GoType, Object, zero_value}
use msgpack.Reflect.Sendable.{levels, IsSendable}
use msgpack.RoundTrip.Runs.{feed}
use msgpack.RoundTrip.Dynamic.Yields.{
  IsPlain, Yields, Yields-bind, Yields-map, Yields-pure, Emits, Emits-bind, Emits-nothing,
}
use msgpack.RoundTrip.Dynamic.Leaves.{IsDirect}
use msgpack.RoundTrip.Reflect.Switches.{either_way}

-- Values with their types, and whether these are defined types.
abbrev pub Typed : Type 0
Typed = List (Bool × GoType × Object)

abbrev pub new_targets : Typed → List Argument
new_targets [] = []
new_targets ((defined, t, o) ∷ vs) = reference defined t (zero_value t) ∷ new_targets vs

abbrev pub values : Typed → List Object
values [] = []
values ((defined, t, o) ∷ vs) = o ∷ values vs

-- Each value comes back, with `k` levels of depth.
abbrev pub ComeBack : ℕ → ℕ → Typed → Type 0
ComeBack flags k [] = Unit {0}
ComeBack flags k ((defined, t, o) ∷ vs) =
    (levels t ≤ k) × IsSendable flags t o × ComeBack flags k vs

-- All of them, one after the other.
abbrev AllMoved : Platform → ℕ → ℕ → Typed → Type 0
AllMoved cpu flags k vs =
    (bs : Bytes) × Emits flags (encode_multi cpu vs) bs
    × Yields (suc k) (decode_multi cpu (new_targets vs)) bs (values vs)

moved :
    (cpu : Platform) (flags k : ℕ) (vs : Typed)
    → IsDirect flags
    → ComeBack flags k vs
    → AllMoved cpu flags k vs
unfolding encode_multi decode_multi
moved cpu flags k [] direct h = ([], Emits-nothing flags, Yields-pure (suc k) [])
moved cpu flags k ((defined, t, o) ∷ vs) direct (l, p, h) =
    let first = either_way cpu flags k direct defined t o l p in
    let (bs, emits, yields) = moved cpu flags k vs direct h in
    let target = reference defined t (zero_value t) in
    (
      first.form ++ bs,
      Emits-bind flags (encode_argument cpu defined t o) (encode_multi cpu vs) first.form bs
          first.emits emits,
      Yields-bind (suc k) (decode cpu target) _ first.form bs o (o ∷ values vs) first.yields (
          Yields-map (suc k) (decode_multi cpu (new_targets vs)) (λ os. o ∷ os) bs (values vs)
            yields),
    )

-- Several values of Go types that the wire format can carry, with the limits that one has, are
-- written by EncodeMulti as bytes from which DecodeMulti, before any further input, reads exactly
-- these values, in their order, into new targets of their types. Strings are not interned, floats
-- not compacted, and the decoder has room for the depth of each type, has a reader with a Len
-- method, does not record, and does not decode loosely.
pub decode_multi-encode_multi :
    (cpu : Platform) (k : ℕ) (vs : Typed) (e : Encoder) (d : Decoder)
    → ComeBack e.flags k vs
    → IsDirect e.flags
    → e.dict ≡ []
    → IsPlain d
    → d.depth + suc k ≤ depth_limit d
    → (bs : Bytes) × (encode_multi cpu vs e ≡ ok tt (record e { out = e.out ++ bs }))
      × (decode_multi cpu (new_targets vs) (feed bs d) ≡ ok (values vs) d)
decode_multi-encode_multi cpu k vs e d h direct empty plain room =
    let (bs, emits, yields) = moved cpu e.flags k vs direct h in
    (bs, emits e refl empty, yields d plain room)
