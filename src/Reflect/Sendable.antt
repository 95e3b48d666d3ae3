-- ===== src/Reflect/Sendable.antt =====
-- Which values of a Go type come back as they were: those of that type that the wire format can
-- carry and that the encoder does not leave out.
use msgpack.Prelude.{ℕ, suc, ◌^◌, ◌<◌, ◌≡◌, Bool, true, false, [], All, length, ◌⊎◌}
use Prim.Native.Nat.{max}
use mathlib.Core.Option.{get_or}
use msgpack.Float.{quiet}
use msgpack.Decoder.{Bytes}
use msgpack.Encoder.Intern.{same}
use msgpack.Encoder.Reflect.{omitted}
use msgpack.Reflect.{
  GoType, Fields, no_fields, field, Object, Objects, no_objects, count_objects, count_fields,
  zero_value,
}
use msgpack.Reflect.Typing.{AllObjects, IsBool, IsInt, IsUint, IsField, IsDone}

-- The types of which no value is written as nil.
abbrev pub is_solid : GoType → Bool
is_solid GoType.bytes = false
is_solid GoType.strings = false
is_solid (GoType.slice t) = false
is_solid (GoType.pointer t) = false
is_solid _ = true

-- The levels of depth that a decoder of the type enters.
unfoldable mutual
  pub levels : GoType → ℕ
  levels (GoType.slice t) = suc (levels t)
  levels (GoType.array n t) = suc (levels t)
  levels (GoType.pointer t) = levels t
  levels (GoType.struct as_array fs) = levels_of_fields fs
  levels _ = 0

  pub levels_of_fields : Fields → ℕ
  levels_of_fields no_fields = 0
  levels_of_fields (field name omit t fs) = max (levels t) (levels_of_fields fs)

-- No field has the name.
abbrev pub NotNamed : Bytes → Fields → Type 0
NotNamed name no_fields = Unit {0}
NotNamed name (field key omit t fs) = (same key name ≡ false) × NotNamed name fs

abbrev pub HasDistinctNames : Fields → Type 0
HasDistinctNames no_fields = Unit {0}
HasDistinctNames (field name omit t fs) = NotNamed name fs × HasDistinctNames fs

abbrev pub IsFloat32 : Object → Type 0
IsFloat32 (Object.float n) = (n < 2 ^ 32) × (quiet n ≡ n)
IsFloat32 _ = ⊥

abbrev pub IsFloat64 : Object → Type 0
IsFloat64 (Object.float n) = n < 2 ^ 64
IsFloat64 _ = ⊥

abbrev pub IsShortText : Object → Type 0
IsShortText (Object.text s) = length s < 2 ^ 32
IsShortText _ = ⊥

abbrev pub IsShortBytes : Object → Type 0
IsShortBytes (Object.bytes b) = length (get_or b []) < 2 ^ 32
IsShortBytes _ = ⊥

abbrev pub AreShortStrings : Object → Type 0
AreShortStrings (Object.strings ss) =
    (length (get_or ss []) < 2 ^ 32) × All (λ s. length s < 2 ^ 32) (get_or ss [])
AreShortStrings _ = ⊥

-- Nothing is held behind the length.
abbrev pub IsShortSlice : (Object → Type 0) → Object → Type 0
IsShortSlice P Object.nil_slice = Unit {0}
IsShortSlice P (Object.slice os no_objects) = (count_objects os < 2 ^ 32) × AllObjects P os
IsShortSlice P _ = ⊥

abbrev pub IsShortArray : ℕ → (Object → Type 0) → Object → Type 0
IsShortArray n P (Object.array os) = (count_objects os ≡ n) × (n < 2 ^ 32) × AllObjects P os
IsShortArray n P _ = ⊥

abbrev pub IsSolidPointer : Bool → (Object → Type 0) → Object → Type 0
IsSolidPointer solid P Object.nil_pointer = Unit {0}
IsSolidPointer solid P (Object.pointer o) = (solid ≡ true) × P o
IsSolidPointer solid P _ = ⊥

abbrev pub IsPlainStruct : Fields → (Objects → Type 0) → Object → Type 0
IsPlainStruct fs P (Object.struct os) = HasDistinctNames fs × (count_fields fs < 2 ^ 32) × P os
IsPlainStruct fs P _ = ⊥

-- A field that is left out has the zero value; the source takes some others for empty too.
abbrev pub ComesBack : ℕ → Bytes → Bool → GoType → (Object → Type 0) → Object → Type 0
ComesBack flags name omit t P o =
    P o × (length name < 2 ^ 32) × ((omitted flags omit t o ≡ false) ⊎ (o ≡ zero_value t))

module _ (flags : ℕ) where
  unfoldable mutual
    pub IsSendable : GoType → Object → Type 0
    IsSendable GoType.bool = IsBool
    IsSendable GoType.float32 = IsFloat32
    IsSendable GoType.float64 = IsFloat64
    IsSendable GoType.text = IsShortText
    IsSendable GoType.bytes = IsShortBytes
    IsSendable GoType.strings = AreShortStrings
    IsSendable (GoType.int w) = IsInt w
    IsSendable (GoType.uint w) = IsUint w
    IsSendable (GoType.slice t) = IsShortSlice (IsSendable t)
    IsSendable (GoType.array n t) = IsShortArray n (IsSendable t)
    IsSendable (GoType.pointer t) = IsSolidPointer (is_solid t) (IsSendable t)
    IsSendable (GoType.struct as_array fs) = IsPlainStruct fs (AreSendable fs)

    pub AreSendable : Fields → Objects → Type 0
    AreSendable no_fields = IsDone
    AreSendable (field name omit t fs) =
        IsField (ComesBack flags name omit t (IsSendable t)) (AreSendable fs)
