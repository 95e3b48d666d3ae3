-- ===== src/Reflect.antt =====
-- What reflection shows of Go's types and values: package reflect as far as encode_value.go,
-- decode_value.go and types.go look at it. Types without methods, none of them recursive.
pub mod Typing
pub mod Sendable
use msgpack.Prelude.{ℕ, zero, suc, Bool, false, List, [], Option, none, some}
use msgpack.Prelude.Int.{ℤ, pos}
use msgpack.Decoder.{Bytes}
use msgpack.Encoder.Value.{Width}

-- `bytes` is []byte, `strings` is []string. `slice` is a slice of another type, not of bytes or of
-- strings, which have encoders of their own, and `array` an array, not of bytes. A
-- struct has the table of its fields that getFields makes: whether it is encoded as an array, and
-- for each field the name, the option omitempty, and the type.
mutual
  pub data GoType : Type 0 where
    bool float32 float64 text bytes strings : GoType
    int uint : Width → GoType
    slice : GoType → GoType
    array : ℕ → GoType → GoType
    pointer : GoType → GoType
    struct : Bool → Fields → GoType

  pub data Fields : Type 0 where
    no_fields : Fields
    field : Bytes → Bool → GoType → Fields → Fields

-- A float is its bits. A slice has its elements, and those between its length and its capacity.
mutual
  pub data Object : Type 0 where
    bool : Bool → Object
    int : ℤ → Object
    uint float : ℕ → Object
    text : Bytes → Object
    bytes : Option Bytes → Object
    strings : Option (List Bytes) → Object
    nil_slice nil_pointer : Object
    slice : Objects → Objects → Object
    array struct : Objects → Object
    pointer : Object → Object

  pub data Objects : Type 0 where
    no_objects : Objects
    object : Object → Objects → Objects

abbrev pub count_objects : Objects → ℕ
count_objects no_objects = 0
count_objects (object o os) = suc (count_objects os)

abbrev pub count_fields : Fields → ℕ
count_fields no_fields = 0
count_fields (field name omit t fs) = suc (count_fields fs)

abbrev pub repeat_object : ℕ → Object → Objects
repeat_object zero o = no_objects
repeat_object (suc n) o = object o (repeat_object n o)

-- `reflect.Zero(t)`
unfoldable mutual
  pub zero_value : GoType → Object
  zero_value GoType.bool = Object.bool false
  zero_value GoType.float32 = Object.float 0
  zero_value GoType.float64 = Object.float 0
  zero_value GoType.text = Object.text []
  zero_value GoType.bytes = Object.bytes none
  zero_value GoType.strings = Object.strings none
  zero_value (GoType.int w) = Object.int (pos 0)
  zero_value (GoType.uint w) = Object.uint 0
  zero_value (GoType.slice t) = Object.nil_slice
  zero_value (GoType.array n t) = Object.array (repeat_object n (zero_value t))
  zero_value (GoType.pointer t) = Object.nil_pointer
  zero_value (GoType.struct as_array fs) = Object.struct (zero_fields fs)

  pub zero_fields : Fields → Objects
  zero_fields no_fields = no_objects
  zero_fields (field name omit t fs) = object (zero_value t) (zero_fields fs)
