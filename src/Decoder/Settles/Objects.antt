-- ===== src/Decoder/Settles/Objects.antt =====
-- The decoder of a Go type, on every input.
use msgpack.Float.{Platform}
use msgpack.Decoder.{Decoder}
use msgpack.Decoder.Number.{decode_int64, decode_uint64}
use msgpack.Decoder.Float.{decode_float32, decode_float64}
use msgpack.Decoder.Text.{decode_bytes}
use msgpack.Decoder.Dynamic.{decode_bool}
use msgpack.Decoder.Reflect.{decode_object, targets}
use msgpack.Reflect.{GoType, Fields, no_fields, field, Object}
use msgpack.Decoder.Tracks.{Tracks-read_code}
use msgpack.Decoder.Settles.Numbers.{Tracks-uint, Tracks-int}
use msgpack.Decoder.Settles.Strings.{Settles-bytes, Settles-decode_string}
use msgpack.Decoder.Settles.Interface.{Tracks-bool}
use msgpack.Decoder.Settles.{IsWithin, Settles, Settles-Tracks, Settles-bind, Settles-map}
use msgpack.Decoder.Settles.Reflect.{
  Tracks-leading, Tracks-float32_bits, Tracks-float64_bits, Settles-decode_string_slice, Ends,
  Settles-decode_slice_value, Settles-decode_array_value, Settles-decode_pointer,
}
use msgpack.Decoder.Settles.Structs.{AllEnd, Settles-decode_struct_value}

module _ (cpu : Platform) where
  mutual
    unfolding decode_object decode_bool decode_int64 decode_uint64 decode_float32 decode_float64
        decode_bytes

    Settles-object : (t : GoType) (old : Object) → Ends (decode_object cpu t old)
    Settles-object GoType.bool old d h =
        Settles-map d _ (Settles-Tracks d (Tracks-leading _ d Tracks-bool))
    Settles-object GoType.float32 old d h =
        Settles-map d _ (Settles-Tracks d (Tracks-leading _ d (Tracks-float32_bits cpu)))
    Settles-object GoType.float64 old d h =
        Settles-map d _ (Settles-Tracks d (Tracks-leading _ d (Tracks-float64_bits cpu)))
    Settles-object GoType.text old d h = Settles-map d _ (Settles-decode_string d)
    Settles-object GoType.bytes old d h =
        Settles-map d _
          (Settles-bind d (Settles-Tracks d (Tracks-read_code d)) λ c s _. Settles-bytes c s)
    Settles-object GoType.strings old d h = Settles-map d _ (Settles-decode_string_slice _ d)
    Settles-object (GoType.int w) old d h =
        Settles-map d _ (Settles-Tracks d (Tracks-leading _ d (Tracks-int cpu)))
    Settles-object (GoType.uint w) old d h =
        Settles-map d _ (Settles-Tracks d (Tracks-leading _ d (Tracks-uint cpu)))
    Settles-object (GoType.slice t) old d h =
        Settles-decode_slice_value (decode_object cpu t) (Settles-object t) _ old d h
    Settles-object (GoType.array n t) old d h =
        Settles-decode_array_value (decode_object cpu t) (Settles-object t) n _ old d h
    Settles-object (GoType.pointer t) old d h =
        Settles-decode_pointer (decode_object cpu t) (Settles-object t) _ old d h
    Settles-object (GoType.struct as_array fs) old d h =
        Settles-decode_struct_value (targets cpu fs) _ _ (AllEnd-targets fs) d h

    AllEnd-targets : (fs : Fields) → AllEnd (targets cpu fs)
    AllEnd-targets no_fields = tt
    AllEnd-targets (field name omit t fs) = (Settles-object t, AllEnd-targets fs)

  pub Settles-decode_object :
      (t : GoType) (old : Object) (d : Decoder) → IsWithin d → Settles d (decode_object cpu t old d)
  Settles-decode_object t old d h = Settles-object t old d h
