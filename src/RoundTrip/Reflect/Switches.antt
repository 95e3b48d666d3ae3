-- ===== src/RoundTrip/Reflect/Switches.antt =====
-- The type switches of Encode and Decode belong together as the encoders and decoders of the types do.
use msgpack.Prelude.{ℕ, suc, ◌%◌, ◌^◌, ◌<◌, ◌≤◌, Bool, true, false, [], Option, none, length}
use mathlib.Core.Option.{get_or}
use msgpack.Prelude.Int.{ℤ, wrap, signed}
use msgpack.Outcome.{◌>>=◌, pure}
use msgpack.Float.{Platform}
use msgpack.Decoder.{Bytes}
use msgpack.Decoder.Number.{
  decode_int, decode_int8, decode_int16, decode_int32, decode_int64, decode_uint, decode_uint8,
  decode_uint16, decode_uint32, decode_uint64,
}
use msgpack.Decoder.Float.{decode_float32, decode_float64}
use msgpack.Decoder.Text.{bytes, decode_bytes}
use msgpack.Decoder.Intern.{decode_string}
use msgpack.Decoder.Dynamic.{decode_bool}
use msgpack.Decoder.Strings.{decode_string_slice}
use msgpack.Decoder.Reflect.{decode_value, decode_object, set_int, set_uint}
use msgpack.Decoder.Unmarshal.{reference, decode_bytes_ptr, decode_switch, decode}
use msgpack.Encoder.Value.{
  Width, word, bits8, bits16, bits32, bits64, bits, value_bits, FitsInt, FitsUint, encode_int_value,
  encode_uint_value,
}
use msgpack.Encoder.Float.{encode_float32, encode_float64}
use msgpack.Encoder.Text.{encode_bool, encode_bytes}
use msgpack.Encoder.Intern.{encode_string}
use msgpack.Encoder.Strings.{encode_string_slice}
use msgpack.Encoder.Reflect.{encode_object}
use msgpack.Encoder.Marshal.{encode_switch, encode_argument}
use msgpack.Reflect.{GoType, Object, zero_value}
use msgpack.Reflect.Sendable.{is_solid, levels, IsSendable}
use msgpack.RoundTrip.Dynamic.Leaves.{IsDirect}
use msgpack.RoundTrip.Reflect.Transfers.{Transfers, Transfers-map}
use msgpack.RoundTrip.Reflect.Numbers.{
  Transfers-bool, Transfers-int, Transfers-uint, Transfers-float32, Transfers-float64, set_int_lem,
  set_uint_lem,
}
use msgpack.RoundTrip.Reflect.Texts.{Transfers-text, Transfers-bytes, Transfers-strings}
use msgpack.RoundTrip.Reflect.Elements.{Yields-decode_value}
use msgpack.RoundTrip.Reflect.Values.{moves}

module _ (cpu : Platform) (flags k : ℕ) (direct : IsDirect flags) where
  -- As the arguments of Encode and Decode.
  abbrev Switches : GoType → Object → Bool → Type 0
  Switches t o solid =
      Transfers flags (suc k) (encode_switch cpu t o) (decode_switch cpu t (zero_value t)) o solid

  -- An integer that is cut to the width that it fits.
  Switches-cut :
      (w : Width) (z : ℤ)
      → FitsInt w z
      → Transfers flags
          (suc k)
          (encode_int_value w z)
          ((decode_int64 cpu >>= λ n. pure (signed (value_bits w) (wrap (bits w) n))) >>= λ n.
            pure (Object.int n))
          (Object.int z)
          true
  unfolding set_int
  Switches-cut w z h = rw⁻¹ (set_int_lem w z h) (
      Transfers-map flags (suc k) (encode_int_value w z) _ _ true Object.int (
        Transfers-map flags (suc k) (encode_int_value w z) (decode_int64 cpu) z true
          (λ n. signed (value_bits w) (wrap (bits w) n)) (Transfers-int cpu flags (suc k) w z h)))

  Switches-int : (w : Width) (z : ℤ) → FitsInt w z → Switches (GoType.int w) (Object.int z) true
  unfolding encode_switch encode_object encode_int_value decode_switch decode_int decode_int8
      decode_int16 decode_int32
  Switches-int word z h =
      Transfers-map flags (suc k) (encode_int_value word z) _ z true Object.int (
        Transfers-map flags (suc k) (encode_int_value word z) (decode_int64 cpu) z true (λ n. n)
          (Transfers-int cpu flags (suc k) word z h))
  Switches-int bits8 z h = Switches-cut bits8 z h
  Switches-int bits16 z h = Switches-cut bits16 z h
  Switches-int bits32 z h = Switches-cut bits32 z h
  Switches-int bits64 z h =
      Transfers-map flags (suc k) (encode_int_value bits64 z) (decode_int64 cpu) z true Object.int
        (Transfers-int cpu flags (suc k) bits64 z h)

  Switches-cut_uint :
      (w : Width) (n : ℕ)
      → FitsUint w n
      → Transfers flags
          (suc k)
          (encode_uint_value w n)
          ((decode_uint64 cpu >>= λ n. pure (n % 2 ^ bits w)) >>= λ n. pure (Object.uint n))
          (Object.uint n)
          true
  unfolding set_uint
  Switches-cut_uint w n h = rw⁻¹ (set_uint_lem w n h) (
      Transfers-map flags (suc k) (encode_uint_value w n) _ _ true Object.uint (
        Transfers-map flags (suc k) (encode_uint_value w n) (decode_uint64 cpu) n true
          (λ n. n % 2 ^ bits w) (Transfers-uint cpu flags (suc k) w n h)))

  Switches-uint : (w : Width) (n : ℕ) → FitsUint w n → Switches (GoType.uint w) (Object.uint n) true
  unfolding encode_switch encode_object encode_uint_value decode_switch decode_uint decode_uint8
      decode_uint16 decode_uint32
  Switches-uint word n h =
      Transfers-map flags (suc k) (encode_uint_value word n) _ n true Object.uint (
        Transfers-map flags (suc k) (encode_uint_value word n) (decode_uint64 cpu) n true (λ n. n)
          (Transfers-uint cpu flags (suc k) word n h))
  Switches-uint bits8 n h = Switches-cut_uint bits8 n h
  Switches-uint bits16 n h = Switches-cut_uint bits16 n h
  Switches-uint bits32 n h = Switches-cut_uint bits32 n h
  Switches-uint bits64 n h =
      Transfers-map flags (suc k) (encode_uint_value bits64 n) (decode_uint64 cpu) n true
        Object.uint (Transfers-uint cpu flags (suc k) bits64 n h)

  Transfers-bytes_ptr :
      (b : Option Bytes)
      → length (get_or b []) < 2 ^ 32
      → Transfers flags (suc k) (encode_bytes b) decode_bytes_ptr b false
  unfolding decode_bytes_ptr decode_bytes bytes
  Transfers-bytes_ptr b h = Transfers-bytes flags (suc k) b h

  -- Through EncodeValue and DecodeValue, a level deeper.
  Transfers-value :
      (t : GoType) (o : Object)
      → levels t ≤ k
      → IsSendable flags t o
      → Transfers flags
          (suc k)
          (encode_object cpu t o)
          (decode_value (decode_object cpu t (zero_value t)))
          o
          (is_solid t)
  Transfers-value t o l h =
      let moved = moves cpu flags direct t o k l h in
      record {
        form = moved.form;
        emits = moved.emits;
        yields =
            Yields-decode_value k (decode_object cpu t (zero_value t)) moved.form o moved.yields;
        not_nil = moved.not_nil;
        not_empty = moved.not_empty;
      }

  switches :
      (t : GoType) (o : Object) → levels t ≤ k → IsSendable flags t o → Switches t o (is_solid t)
  unfolding encode_switch encode_object decode_switch decode_bytes_ptr zero_value IsSendable
  switches GoType.bool (Object.bool b) l h =
      Transfers-map flags (suc k) (encode_bool b) decode_bool b true Object.bool
        (Transfers-bool flags (suc k) b)
  switches GoType.bool _ l h = absurd h
  switches GoType.float32 (Object.float n) l h =
      Transfers-map flags (suc k) (encode_float32 cpu n) (decode_float32 cpu) n true Object.float
        (Transfers-float32 cpu flags (suc k) n direct (h.0))
  switches GoType.float32 _ l h = absurd h
  switches GoType.float64 (Object.float n) l h =
      Transfers-map flags (suc k) (encode_float64 cpu n) (decode_float64 cpu) n true Object.float
        (Transfers-float64 cpu flags (suc k) n direct h)
  switches GoType.float64 _ l h = absurd h
  switches GoType.text (Object.text s) l h =
      Transfers-map flags (suc k) (encode_string s) decode_string s true Object.text
        (Transfers-text flags (suc k) s direct h)
  switches GoType.text _ l h = absurd h
  switches GoType.bytes (Object.bytes b) l h =
      Transfers-map flags (suc k) (encode_bytes b) decode_bytes_ptr b false Object.bytes
        (Transfers-bytes_ptr b h)
  switches GoType.bytes _ l h = absurd h
  switches GoType.strings (Object.strings ss) l h =
      Transfers-map flags (suc k) (encode_string_slice ss) (decode_string_slice none) ss false
        Object.strings (Transfers-strings flags (suc k) ss direct (h.0) (h.1))
  switches GoType.strings _ l h = absurd h
  switches (GoType.int w) (Object.int z) l h = Switches-int w z h
  switches (GoType.int w) _ l h = absurd h
  switches (GoType.uint w) (Object.uint n) l h = Switches-uint w n h
  switches (GoType.uint w) _ l h = absurd h
  switches (GoType.slice t) o l h = Transfers-value (GoType.slice t) o l h
  switches (GoType.array n t) o l h = Transfers-value (GoType.array n t) o l h
  switches (GoType.pointer t) o l h = Transfers-value (GoType.pointer t) o l h
  switches (GoType.struct as_array fs) o l h = Transfers-value (GoType.struct as_array fs) o l h

  pub either_way :
      (defined : Bool) (t : GoType) (o : Object)
      → levels t ≤ k
      → IsSendable flags t o
      → Transfers flags
          (suc k)
          (encode_argument cpu defined t o)
          (decode cpu (reference defined t (zero_value t)))
          o
          (is_solid t)
  unfolding encode_argument decode
  either_way false t o l h = switches t o l h
  either_way true t o l h = Transfers-value t o l h
