-- ===== src/RoundTrip/Reflect/Values.antt =====
-- A value of any Go type.
use msgpack.Prelude.{
  ℕ, zero, suc, ◌+◌, ◌^◌, ◌<◌, ◌≤◌, ◌≡◌, refl, true, false, [], ◌++◌, none, arith,
}
use msgpack.Prelude.Int.{ℤ}
use msgpack.Outcome.{ok}
use msgpack.Float.{Platform, quiet}
use msgpack.Decoder.{Decoder, Bytes, depth_limit}
use msgpack.Decoder.Number.{decode_int64, decode_uint64}
use msgpack.Decoder.Float.{decode_float32, decode_float64}
use msgpack.Decoder.Text.{decode_bytes}
use msgpack.Decoder.Intern.{decode_string}
use msgpack.Decoder.Dynamic.{decode_bool}
use msgpack.Decoder.Strings.{decode_string_slice}
use msgpack.Decoder.Reflect.{decode_value, decode_object, set_int, set_uint}
use msgpack.Encoder.{Encoder}
use msgpack.Encoder.Value.{Width, FitsInt, FitsUint, encode_int_value, encode_uint_value}
use msgpack.Encoder.Float.{encode_float32, encode_float64}
use msgpack.Encoder.Text.{encode_bool, encode_bytes}
use msgpack.Encoder.Intern.{encode_string}
use msgpack.Encoder.Strings.{encode_string_slice}
use msgpack.Encoder.Reflect.{encode_object}
use msgpack.Reflect.{
  GoType, Fields, no_fields, field, Object, Objects, no_objects, object, zero_value,
}
use msgpack.Reflect.Typing.{AllObjects}
use msgpack.Reflect.Sendable.{is_solid, levels, levels_of_fields, IsSendable, AreSendable}
use msgpack.RoundTrip.Runs.{feed}
use msgpack.RoundTrip.Dynamic.Yields.{IsPlain}
use msgpack.RoundTrip.Dynamic.Leaves.{IsDirect}
use msgpack.RoundTrip.Reflect.Transfers.{Transfers-map}
use msgpack.RoundTrip.Reflect.Numbers.{
  Transfers-bool, Transfers-int, Transfers-uint, Transfers-float32, Transfers-float64, set_int_lem,
  set_uint_lem,
}
use msgpack.RoundTrip.Reflect.Texts.{Transfers-text, Transfers-bytes, Transfers-strings}
use msgpack.RoundTrip.Reflect.Elements.{
  Yields-decode_value, TransferEach, Transfers-nil_slice, Transfers-slice, Transfers-array,
}
use msgpack.RoundTrip.Reflect.Pointers.{Transfers-nil_pointer, Transfers-pointer}
use msgpack.RoundTrip.Reflect.Named.{Moves, FieldsMove}
use msgpack.RoundTrip.Reflect.Structs.{Transfers-struct}

module _ (cpu : Platform) (flags : ℕ) (direct : IsDirect flags) where
  -- The values without parts.
  module _ (k : ℕ) where
    Moves-int :
        (w : Width) (z : ℤ) → FitsInt w z → Moves cpu flags k direct (GoType.int w) (Object.int z)
    unfolding encode_object decode_object
    Moves-int w z h = rw⁻¹ (set_int_lem w z h) (
        Transfers-map flags k (encode_int_value w z) (decode_int64 cpu) z true (set_int w)
          (Transfers-int cpu flags k w z h))

    Moves-uint :
        (w : Width) (n : ℕ)
        → FitsUint w n
        → Moves cpu flags k direct (GoType.uint w) (Object.uint n)
    unfolding encode_object decode_object
    Moves-uint w n h = rw⁻¹ (set_uint_lem w n h) (
        Transfers-map flags k (encode_uint_value w n) (decode_uint64 cpu) n true (set_uint w)
          (Transfers-uint cpu flags k w n h))

    Moves-float32 :
        (n : ℕ)
        → n < 2 ^ 32
        → quiet n ≡ n
        → Moves cpu flags k direct GoType.float32 (Object.float n)
    unfolding encode_object decode_object
    Moves-float32 n h q = rw q (
        rw q at (
          Transfers-map flags k (encode_float32 cpu n) (decode_float32 cpu) n true
            (λ x. Object.float (quiet x)) (Transfers-float32 cpu flags k n direct h)))

    Moves-float64 : (n : ℕ) → n < 2 ^ 64 → Moves cpu flags k direct GoType.float64 (Object.float n)
    unfolding encode_object decode_object
    Moves-float64 n h =
        Transfers-map flags k (encode_float64 cpu n) (decode_float64 cpu) n true Object.float
          (Transfers-float64 cpu flags k n direct h)

  mutual
    unfolding encode_object decode_object IsSendable levels zero_value

    pub moves :
        (t : GoType) (o : Object) (k : ℕ)
        → levels t ≤ k
        → IsSendable flags t o
        → Moves cpu flags k direct t o
    moves GoType.bool (Object.bool b) k l h =
        Transfers-map flags k (encode_bool b) decode_bool b true Object.bool
          (Transfers-bool flags k b)
    moves GoType.bool _ k l h = absurd h
    moves GoType.float32 (Object.float n) k l h = Moves-float32 k n (h.0) (h.1)
    moves GoType.float32 _ k l h = absurd h
    moves GoType.float64 (Object.float n) k l h = Moves-float64 k n h
    moves GoType.float64 _ k l h = absurd h
    moves GoType.text (Object.text s) k l h =
        Transfers-map flags k (encode_string s) decode_string s true Object.text
          (Transfers-text flags k s direct h)
    moves GoType.text _ k l h = absurd h
    moves GoType.bytes (Object.bytes b) k l h =
        Transfers-map flags k (encode_bytes b) decode_bytes b false Object.bytes
          (Transfers-bytes flags k b h)
    moves GoType.bytes _ k l h = absurd h
    moves GoType.strings (Object.strings ss) k l h =
        Transfers-map flags k (encode_string_slice ss) (decode_string_slice none) ss false
          Object.strings (Transfers-strings flags k ss direct (h.0) (h.1))
    moves GoType.strings _ k l h = absurd h
    moves (GoType.int w) (Object.int z) k l h = Moves-int k w z h
    moves (GoType.int w) _ k l h = absurd h
    moves (GoType.uint w) (Object.uint n) k l h = Moves-uint k w n h
    moves (GoType.uint w) _ k l h = absurd h
    moves (GoType.slice t) Object.nil_slice zero l h = absurd (omega arith)
    moves (GoType.slice t) Object.nil_slice (suc k) l h =
        Transfers-nil_slice flags k (encode_object cpu t) (decode_object cpu t) (zero_value t)
          (is_solid t)
    moves (GoType.slice t) (Object.slice os no_objects) zero l h = absurd (omega arith)
    moves (GoType.slice t) (Object.slice os no_objects) (suc k) l h =
        Transfers-slice flags k (encode_object cpu t) (decode_object cpu t) (zero_value t)
          (is_solid t) os (h.0) (moves_each t os k (omega (arith, l)) (h.1))
    moves (GoType.slice t) _ k l h = absurd h
    moves (GoType.array n t) (Object.array os) zero l h = absurd (omega arith)
    moves (GoType.array n t) (Object.array os) (suc k) l (same, short, h) =
        Transfers-array flags k (encode_object cpu t) (decode_object cpu t) (zero_value t)
          (is_solid t) n os same short (moves_each t os k (omega (arith, l)) h)
    moves (GoType.array n t) _ k l h = absurd h
    moves (GoType.pointer t) Object.nil_pointer k l h =
        Transfers-nil_pointer flags k (encode_object cpu t) (decode_object cpu t) (zero_value t)
          (is_solid t)
    moves (GoType.pointer t) (Object.pointer o) k l (solid, h) =
        Transfers-pointer flags k (encode_object cpu t) (decode_object cpu t) (zero_value t)
          (is_solid t) o solid (moves t o k l h)
    moves (GoType.pointer t) _ k l h = absurd h
    moves (GoType.struct as_array fs) (Object.struct os) k l (distinct, short, h) =
        Transfers-struct cpu flags k direct as_array fs os (fields_move fs os k l h) distinct short
    moves (GoType.struct as_array fs) _ k l h = absurd h

    moves_each :
        (t : GoType) (os : Objects) (k : ℕ)
        → levels t ≤ k
        → AllObjects (IsSendable flags t) os
        → TransferEach flags k
            (encode_object cpu t)
            (decode_object cpu t)
            (zero_value t)
            (is_solid t)
            os
    moves_each t no_objects k l h = tt
    moves_each t (object o os) k l h = (moves t o k l (h.0), moves_each t os k l (h.1))

    fields_move :
        (fs : Fields) (os : Objects) (k : ℕ)
        → levels_of_fields fs ≤ k
        → AreSendable flags fs os
        → FieldsMove cpu flags k direct fs os
    fields_move no_fields no_objects k l h = tt
    fields_move no_fields (object o os) k l h = absurd h
    fields_move (field name omit t fs) no_objects k l h = absurd h
    fields_move (field name omit t fs) (object o os) k l ((p, short, known), h) =
        ((moves t o k (omega (arith, l)) p, short, known), fields_move fs os k (omega (arith, l)) h)

-- A value of a Go type, with structs as maps or as arrays, fields left out when empty, and compact
-- integers on or off, is written by its encoder as bytes from which DecodeValue, before any further
-- input, reads exactly that value into a new target. The value is one that the wire format can
-- carry: lengths are below 2^32, no slice has hidden elements, no pointer is to a value that may be
-- nil, a float32 is no signalling NaN, the names of the fields of a struct are distinct, and a
-- field that is left out has the zero value of its type. Strings are not interned, floats not
-- compacted, and the decoder has room for the depth of the type, has a reader with a Len method,
-- does not record, and does not decode loosely.
pub decode_value-encode_object :
    (cpu : Platform) (t : GoType) (o : Object) (e : Encoder) (d : Decoder)
    → IsSendable e.flags t o
    → IsDirect e.flags
    → e.dict ≡ []
    → IsPlain d
    → d.depth + suc (levels t) ≤ depth_limit d
    → (bs : Bytes) × (encode_object cpu t o e ≡ ok tt (record e { out = e.out ++ bs }))
      × (decode_value (decode_object cpu t (zero_value t)) (feed bs d) ≡ ok o d)
decode_value-encode_object cpu t o e d h direct empty plain room =
    let moved = moves cpu e.flags direct t o (levels t) (omega arith) h in
    (
      moved.form,
      moved.emits e refl empty,
      Yields-decode_value (levels t) (decode_object cpu t (zero_value t)) moved.form o moved.yields
          d plain room,
    )
