-- ===== src/Decoder/Reflect/Typing.antt =====
-- The decoder of a Go type keeps the type of its target.
use msgpack.Prelude.{◌≤◌}
use msgpack.Outcome.Post.{Gives, gives, Gives-then}
use msgpack.Float.{Platform}
use msgpack.Decoder.{Decoder, depth_limit}
use msgpack.Decoder.Settles.{Settles}
use msgpack.Decoder.Settles.Objects.{Settles-decode_object}
use msgpack.Reflect.{GoType, Fields, no_fields, field, Object, zero_value}
use msgpack.Reflect.Typing.{HasType, HasType-zero_value}
use msgpack.Decoder.Reflect.{held_struct, decode_object, targets}
use msgpack.Decoder.Reflect.Elements.{
  HasType-set_int, HasType-set_uint, Gives-decode_slice_value, Gives-decode_array_value,
  Gives-decode_pointer,
}
use msgpack.Decoder.Reflect.Structs.{KeepTypes, Gives-decode_struct_value, HaveTypes-held_struct}

module _ (cpu : Platform) where
  mutual
    unfolding decode_object HasType

    typed :
        (t : GoType) (old : Object) (d : Decoder)
        → HasType t old
        → Gives (HasType t) (decode_object cpu t old d)
    typed GoType.bool old d h = Gives-then _ λ b s. gives tt
    typed GoType.float32 old d h = Gives-then _ λ n s. gives tt
    typed GoType.float64 old d h = Gives-then _ λ n s. gives tt
    typed GoType.text old d h = Gives-then _ λ n s. gives tt
    typed GoType.bytes old d h = Gives-then _ λ n s. gives tt
    typed GoType.strings old d h = Gives-then _ λ n s. gives tt
    typed (GoType.int w) old d h = Gives-then _ λ n s. gives (HasType-set_int w n)
    typed (GoType.uint w) old d h = Gives-then _ λ n s. gives (HasType-set_uint w n)
    typed (GoType.slice t) old d h =
        Gives-decode_slice_value (HasType t) (decode_object cpu t) (zero_value t)
          (HasType-zero_value t) (typed t) old d h
    typed (GoType.array n t) old d h =
        Gives-decode_array_value (HasType t) (decode_object cpu t) (zero_value t)
          (HasType-zero_value t) (typed t) n old d h
    typed (GoType.pointer t) old d h =
        Gives-decode_pointer (HasType t) (decode_object cpu t) (zero_value t) (HasType-zero_value t)
          (typed t) old d h
    typed (GoType.struct as_array fs) old d h =
        Gives-decode_struct_value (targets cpu fs) fs (held_struct old) d (KeepTypes-targets fs)
          (HaveTypes-held_struct fs old h)

    KeepTypes-targets : (fs : Fields) → KeepTypes (targets cpu fs) fs
    KeepTypes-targets no_fields = tt
    KeepTypes-targets (field name omit t fs) = (typed t, KeepTypes-targets fs)

  -- Within the depth limit, the decoder of a Go type ends on every input, from every value that the
  -- target may hold, with a value or an error. A value is again of the type. The call has taken the
  -- next bytes of the input; the depth, the limit, the options and the reader are as before; the
  -- dictionary has only grown at its end, and not past the greater of its old length and its bound.
  pub decode_object-HasType :
      (t : GoType) (old : Object) (d : Decoder)
      → HasType t old
      → d.depth ≤ depth_limit d
      → Settles d (decode_object cpu t old d) × Gives (HasType t) (decode_object cpu t old d)
  decode_object-HasType t old d h l = (Settles-decode_object cpu t old d l, typed t old d h)
