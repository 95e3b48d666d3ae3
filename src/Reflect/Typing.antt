-- ===== src/Reflect/Typing.antt =====
-- Which values are of a Go type.
use msgpack.Prelude.{ℕ, zero, suc, ◌≡◌, refl, ap, arith}
use msgpack.Encoder.Value.{Width, FitsInt, FitsUint}
use msgpack.Reflect.{
  GoType, Fields, no_fields, field, Object, Objects, no_objects, object, count_objects,
  repeat_object, zero_value, zero_fields,
}

abbrev pub AllObjects : (Object → Type 0) → Objects → Type 0
AllObjects P no_objects = Unit {0}
AllObjects P (object o os) = P o × AllObjects P os

abbrev pub IsBool : Object → Type 0
IsBool (Object.bool b) = Unit {0}
IsBool _ = ⊥

abbrev pub IsFloat : Object → Type 0
IsFloat (Object.float n) = Unit {0}
IsFloat _ = ⊥

abbrev pub IsText : Object → Type 0
IsText (Object.text s) = Unit {0}
IsText _ = ⊥

abbrev pub IsBytes : Object → Type 0
IsBytes (Object.bytes b) = Unit {0}
IsBytes _ = ⊥

abbrev pub AreStrings : Object → Type 0
AreStrings (Object.strings ss) = Unit {0}
AreStrings _ = ⊥

abbrev pub IsInt : Width → Object → Type 0
IsInt w (Object.int z) = FitsInt w z
IsInt w _ = ⊥

abbrev pub IsUint : Width → Object → Type 0
IsUint w (Object.uint n) = FitsUint w n
IsUint w _ = ⊥

abbrev pub IsSlice : (Object → Type 0) → Object → Type 0
IsSlice P Object.nil_slice = Unit {0}
IsSlice P (Object.slice os spare) = AllObjects P os × AllObjects P spare
IsSlice P _ = ⊥

abbrev pub IsArray : ℕ → (Object → Type 0) → Object → Type 0
IsArray n P (Object.array os) = (count_objects os ≡ n) × AllObjects P os
IsArray n P _ = ⊥

abbrev pub IsPointer : (Object → Type 0) → Object → Type 0
IsPointer P Object.nil_pointer = Unit {0}
IsPointer P (Object.pointer o) = P o
IsPointer P _ = ⊥

abbrev pub IsStruct : (Objects → Type 0) → Object → Type 0
IsStruct P (Object.struct os) = P os
IsStruct P _ = ⊥

-- The value of a field, and what holds of the values of the fields behind it.
abbrev pub IsField : (Object → Type 0) → (Objects → Type 0) → Objects → Type 0
IsField P Q no_objects = ⊥
IsField P Q (object o os) = P o × Q os

abbrev pub IsDone : Objects → Type 0
IsDone no_objects = Unit {0}
IsDone (object o os) = ⊥

unfoldable mutual
  pub HasType : GoType → Object → Type 0
  HasType GoType.bool = IsBool
  HasType GoType.float32 = IsFloat
  HasType GoType.float64 = IsFloat
  HasType GoType.text = IsText
  HasType GoType.bytes = IsBytes
  HasType GoType.strings = AreStrings
  HasType (GoType.int w) = IsInt w
  HasType (GoType.uint w) = IsUint w
  HasType (GoType.slice t) = IsSlice (HasType t)
  HasType (GoType.array n t) = IsArray n (HasType t)
  HasType (GoType.pointer t) = IsPointer (HasType t)
  HasType (GoType.struct as_array fs) = IsStruct (HaveTypes fs)

  pub HaveTypes : Fields → Objects → Type 0
  HaveTypes no_fields = IsDone
  HaveTypes (field name omit t fs) = IsField (HasType t) (HaveTypes fs)

AllObjects-repeat_object :
    (P : Object → Type 0) (n : ℕ) (o : Object) → P o → AllObjects P (repeat_object n o)
AllObjects-repeat_object P zero o h = tt
AllObjects-repeat_object P (suc n) o h = (h, AllObjects-repeat_object P n o h)

count_objects-repeat_object : (n : ℕ) (o : Object) → count_objects (repeat_object n o) ≡ n
count_objects-repeat_object zero o = refl
count_objects-repeat_object (suc n) o = ap suc (count_objects-repeat_object n o)

mutual
  unfolding HasType zero_value

  zero_typed : (t : GoType) → HasType t (zero_value t)
  zero_typed GoType.bool = tt
  zero_typed GoType.float32 = tt
  zero_typed GoType.float64 = tt
  zero_typed GoType.text = tt
  zero_typed GoType.bytes = tt
  zero_typed GoType.strings = tt
  zero_typed (GoType.int Width.word) = omega arith
  zero_typed (GoType.int Width.bits8) = omega arith
  zero_typed (GoType.int Width.bits16) = omega arith
  zero_typed (GoType.int Width.bits32) = omega arith
  zero_typed (GoType.int Width.bits64) = omega arith
  zero_typed (GoType.uint Width.word) = omega arith
  zero_typed (GoType.uint Width.bits8) = omega arith
  zero_typed (GoType.uint Width.bits16) = omega arith
  zero_typed (GoType.uint Width.bits32) = omega arith
  zero_typed (GoType.uint Width.bits64) = omega arith
  zero_typed (GoType.slice t) = tt
  zero_typed (GoType.array n t) = (
    count_objects-repeat_object n (zero_value t),
    AllObjects-repeat_object (HasType t) n (zero_value t) (zero_typed t),
  )
  zero_typed (GoType.pointer t) = tt
  zero_typed (GoType.struct as_array fs) = zero_fields_typed fs

  zero_fields_typed : (fs : Fields) → HaveTypes fs (zero_fields fs)
  zero_fields_typed no_fields = tt
  zero_fields_typed (field name omit t fs) = (zero_typed t, zero_fields_typed fs)

pub HasType-zero_value : (t : GoType) → HasType t (zero_value t)
HasType-zero_value t = zero_typed t

pub HaveTypes-zero_fields : (fs : Fields) → HaveTypes fs (zero_fields fs)
HaveTypes-zero_fields fs = zero_fields_typed fs
