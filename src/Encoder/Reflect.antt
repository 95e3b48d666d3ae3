-- ===== src/Encoder/Reflect.antt =====
-- pkg/msgpack/encode_value.go, encode_slice.go, encode_map.go, types.go: the encoder of a Go type
-- applied to a value of it. `stuck` stands where the value is not of the type.
use msgpack.Prelude.{
  ℕ, ◌+◌, ◌^◌, ◌%◌, List, [], ◌∷◌, Bool, true, false, not, ◌&&◌, ◌||◌, ◌==◌, none, some, length,
  if◌then◌else◌,
}
use msgpack.Prelude.Int.{pos}
use msgpack.Outcome.{stuck, ◌>>◌, pure}
use msgpack.Float.{Platform, quiet}
use msgpack.Decoder.{has_flag}
use msgpack.Encoder.{Encoding, array_encoded_structs_flag, omit_empty_flag}
use msgpack.Encoder.Value.{Width, encode_int_value, encode_uint_value}
use msgpack.Encoder.Float.{encode_float32, encode_float64}
use msgpack.Encoder.Text.{encode_nil, encode_bool, encode_bytes}
use msgpack.Encoder.Length.{encode_array_len, encode_map_len}
use msgpack.Encoder.Intern.{encode_string}
use msgpack.Encoder.Strings.{encode_string_slice}
use msgpack.Encoder.Dynamic.{Field, encode_fields}
use msgpack.Reflect.{
  GoType, Fields, no_fields, field, Object, Objects, no_objects, object, count_objects,
}

-- The tests of isEmptyValue on values that hold no other.
abbrev pub is_false : Object → Bool
is_false (Object.bool b) = not b
is_false _ = false

abbrev pub is_zero_int : Object → Bool
is_zero_int (Object.int (pos n)) = n == 0
is_zero_int _ = false

abbrev pub is_zero_uint : Object → Bool
is_zero_uint (Object.uint n) = n == 0
is_zero_uint _ = false

-- `v.Float() == 0`, of either sign.
abbrev pub is_zero_float : ℕ → Object → Bool
is_zero_float sign_bit (Object.float n) = n % 2 ^ sign_bit == 0
is_zero_float sign_bit _ = false

abbrev pub has_no_length : Object → Bool
has_no_length (Object.text s) = length s == 0
has_no_length (Object.bytes none) = true
has_no_length (Object.bytes (some b)) = length b == 0
has_no_length (Object.strings none) = true
has_no_length (Object.strings (some ss)) = length ss == 0
has_no_length Object.nil_slice = true
has_no_length (Object.slice os spare) = count_objects os == 0
has_no_length (Object.array os) = count_objects os == 0
has_no_length _ = false

abbrev pub is_nil_pointer : Object → Bool
is_nil_pointer Object.nil_pointer = true
is_nil_pointer _ = false

abbrev pub fields_within : Object → Objects
fields_within (Object.struct os) = os
fields_within _ = no_objects

module _ (flags : ℕ) where
  unfoldable mutual
    pub is_empty : GoType → Object → Bool
    is_empty GoType.bool o = is_false o
    is_empty GoType.float32 o = is_zero_float 31 o
    is_empty GoType.float64 o = is_zero_float 63 o
    is_empty GoType.text o = has_no_length o
    is_empty GoType.bytes o = has_no_length o
    is_empty GoType.strings o = has_no_length o
    is_empty (GoType.int w) o = is_zero_int o
    is_empty (GoType.uint w) o = is_zero_uint o
    is_empty (GoType.slice t) o = has_no_length o
    is_empty (GoType.array n t) o = has_no_length o
    is_empty (GoType.pointer t) o = is_nil_pointer o
    is_empty (GoType.struct as_array fs) o = count_kept fs (fields_within o) == 0

    -- `len(fs.OmitEmpty(e, v))`
    pub count_kept : Fields → Objects → ℕ
    count_kept no_fields os = 0
    count_kept (field name omit t fs) no_objects = 0
    count_kept (field name omit t fs) (object o os) =
        (if (omit || has_flag flags omit_empty_flag) && is_empty t o then 0 else 1)
        + count_kept fs os

  unfoldable pub omitted : Bool → GoType → Object → Bool
  unfolding is_empty
  omitted omit t o = (omit || has_flag flags omit_empty_flag) && is_empty t o

abbrev pub encode_bool_value : Object → Encoding (Unit {0})
encode_bool_value (Object.bool b) = encode_bool b
encode_bool_value _ = λ e. stuck

abbrev pub encode_int_object : Width → Object → Encoding (Unit {0})
encode_int_object w (Object.int z) = encode_int_value w z
encode_int_object w _ = λ e. stuck

abbrev pub encode_uint_object : Width → Object → Encoding (Unit {0})
encode_uint_object w (Object.uint n) = encode_uint_value w n
encode_uint_object w _ = λ e. stuck

abbrev pub encode_float32_value : Platform → Object → Encoding (Unit {0})
encode_float32_value cpu (Object.float n) = encode_float32 cpu (quiet n)
encode_float32_value cpu _ = λ e. stuck

abbrev pub encode_float64_value : Platform → Object → Encoding (Unit {0})
encode_float64_value cpu (Object.float n) = encode_float64 cpu n
encode_float64_value cpu _ = λ e. stuck

abbrev pub encode_text_value : Object → Encoding (Unit {0})
encode_text_value (Object.text s) = encode_string s
encode_text_value _ = λ e. stuck

abbrev pub encode_bytes_value : Object → Encoding (Unit {0})
encode_bytes_value (Object.bytes b) = encode_bytes b
encode_bytes_value _ = λ e. stuck

abbrev pub encode_strings_value : Object → Encoding (Unit {0})
encode_strings_value (Object.strings ss) = encode_string_slice ss
encode_strings_value _ = λ e. stuck

module _ (encode_elem : Object → Encoding (Unit {0})) where
  unfoldable pub encode_elems : Objects → Encoding (Unit {0})
  encode_elems no_objects = pure tt
  encode_elems (object o os) = do encode_elem o; encode_elems os

  unfoldable pub encode_array_value : Objects → Encoding (Unit {0})
  unfolding encode_elems
  encode_array_value os = do encode_array_len (count_objects os); encode_elems os

  unfoldable pub encode_slice_value : Object → Encoding (Unit {0})
  unfolding encode_array_value
  encode_slice_value Object.nil_slice = encode_nil
  encode_slice_value (Object.slice os spare) = encode_array_value os
  encode_slice_value (Object.array os) = encode_array_value os
  encode_slice_value _ = λ e. stuck

  unfoldable pub encode_pointer : Object → Encoding (Unit {0})
  encode_pointer Object.nil_pointer = encode_nil
  encode_pointer (Object.pointer o) = encode_elem o
  encode_pointer _ = λ e. stuck

-- The values of fields, without their names.
unfoldable pub encode_values : List Field → Encoding (Unit {0})
encode_values [] = pure tt
encode_values ((name, value) ∷ fields) = do value; encode_values fields

-- encodeStructValue and encodeStructValueAsArray, on all fields and on those that are kept.
unfoldable pub encode_struct_value : Bool → List Field → List Field → Encoding (Unit {0})
unfolding encode_values
encode_struct_value as_array fields kept e =
    if has_flag e.flags array_encoded_structs_flag || as_array
    then (do encode_array_len (length fields); encode_values fields) e
    else (do encode_map_len (length kept); encode_fields kept) e

module _ (cpu : Platform) where
  unfoldable mutual
    unfolding encode_slice_value encode_array_value encode_pointer encode_struct_value

    pub encode_object : GoType → Object → Encoding (Unit {0})
    encode_object GoType.bool o = encode_bool_value o
    encode_object GoType.float32 o = encode_float32_value cpu o
    encode_object GoType.float64 o = encode_float64_value cpu o
    encode_object GoType.text o = encode_text_value o
    encode_object GoType.bytes o = encode_bytes_value o
    encode_object GoType.strings o = encode_strings_value o
    encode_object (GoType.int w) o = encode_int_object w o
    encode_object (GoType.uint w) o = encode_uint_object w o
    encode_object (GoType.slice t) o = encode_slice_value (encode_object t) o
    encode_object (GoType.array n t) o = encode_slice_value (encode_object t) o
    encode_object (GoType.pointer t) o = encode_pointer (encode_object t) o
    encode_object (GoType.struct as_array fs) o = λ e.
        encode_struct_value as_array (all_fields fs (fields_within o))
          (kept_fields e.flags fs (fields_within o)) e

    -- `fields.List`
    pub all_fields : Fields → Objects → List Field
    all_fields no_fields os = []
    all_fields (field name omit t fs) no_objects = []
    all_fields (field name omit t fs) (object o os) = (name, encode_object t o) ∷ all_fields fs os

    -- OmitEmpty. Where no field may be omitted, the source returns the list at once.
    pub kept_fields : ℕ → Fields → Objects → List Field
    kept_fields flags no_fields os = []
    kept_fields flags (field name omit t fs) no_objects = []
    kept_fields flags (field name omit t fs) (object o os) =
        let rest = kept_fields flags fs os in
        if omitted flags omit t o then rest else (name, encode_object t o) ∷ rest
