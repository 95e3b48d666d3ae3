-- ===== src/Decoder/Reflect.antt =====
-- pkg/msgpack/decode_value.go, decode_slice.go, decode_map.go, decode_number.go, types.go: the
-- decoder of a Go type, from what the target holds to what it holds then. What a call that fails
-- leaves in the target is not modelled.
pub mod Elements
pub mod Structs
pub mod Typing
use msgpack.Prelude.{
  ℕ, zero, suc, ◌-◌, ◌^◌, ◌%◌, List, [], ◌∷◌, Bool, true, false, Option, none, some, ltb, leb, ◌==◌,
  if◌then◌else◌,
}
use msgpack.Prelude.Int.{ℤ, pos, negsuc, signed, wrap}
use msgpack.Outcome.{Error, Outcome, ok, err, stuck, continue, ◌>>=◌, ◌>>◌, pure, fail}
use msgpack.Float.{Platform, quiet}
use msgpack.Wire.Code.{nil_code}
use msgpack.Decoder.{Decoder, Decoding, Bytes, has_flag, disallow_unknown_fields_flag, enter_depth}
use msgpack.Decoder.Read.{read_code, peek_code}
use msgpack.Decoder.Number.{decode_int64, decode_uint64}
use msgpack.Decoder.Float.{decode_float32, decode_float64}
use msgpack.Decoder.Length.{array_len, map_len, decode_array_len}
use msgpack.Decoder.Text.{decode_bytes}
use msgpack.Decoder.Intern.{decode_string, decode_string_temp}
use msgpack.Decoder.Skip.{skip, leaving}
use msgpack.Decoder.Strings.{decode_string_slice}
use msgpack.Decoder.Dynamic.{decode_bool}
use msgpack.Encoder.Intern.{same}
use msgpack.Encoder.Value.{Width, bits, value_bits}
use msgpack.Reflect.{
  GoType, Fields, no_fields, field, Object, Objects, no_objects, object, count_objects,
  count_fields, repeat_object, zero_value, zero_fields,
}

-- `v.SetInt(n)` and `v.SetUint(n)` keep the low bits.
unfoldable pub set_int : Width → ℤ → Object
set_int w n = Object.int (signed (value_bits w) (wrap (bits w) n))

unfoldable pub set_uint : Width → ℕ → Object
set_uint w n = Object.uint (n % 2 ^ bits w)

-- What a target of the type holds; the last clauses are of values of other types.
abbrev pub held_strings : Object → Option (List Bytes)
held_strings (Object.strings ss) = ss
held_strings _ = none

abbrev pub held_array : Object → Objects
held_array (Object.array os) = os
held_array _ = no_objects

abbrev pub held_struct : Object → Objects
held_struct (Object.struct os) = os
held_struct _ = no_objects

abbrev pub append_objects : Objects → Objects → Objects
append_objects no_objects ps = ps
append_objects (object o os) ps = object o (append_objects os ps)

-- The elements of a slice up to its capacity.
abbrev pub held_slice : Object → Objects
held_slice (Object.slice os spare) = append_objects os spare
held_slice _ = no_objects

-- `v.Elem()`, or a new value.
abbrev pub pointee : Object → Object → Object
pointee fresh (Object.pointer o) = o
pointee fresh _ = fresh

-- DecodeValue of a decoder.
unfoldable pub decode_value : Decoding Object → Decoding Object
decode_value decode d = continue (enter_depth d) λ _ d'. leaving (decode d')

-- `d.PeekCode()` with its error taken for another code.
abbrev pub nil_next : Outcome Decoder ℕ → Outcome Decoder Bool
nil_next (ok c d) = ok (c == nil_code) d
nil_next (err e d) = ok false d
nil_next stuck = stuck

unfoldable pub has_nil_code : Decoding Bool
has_nil_code d = nil_next (peek_code d)

unfoldable pub decode_nil : Decoding (Unit {0})
decode_nil = do c ← read_code; if c == nil_code then pure tt else fail (Error.invalid_code c)

module _ (decode_elem : Object → Decoding Object) where
  -- The loop over `n` elements, of which the target holds some; the others are new. The result has
  -- the elements decoded, and those held behind them.
  unfoldable pub decode_elems : Object → ℕ → Objects → Decoding (Objects × Objects)
  decode_elems fresh zero held = pure (no_objects, held)
  decode_elems fresh (suc n) no_objects = do
    o ← decode_value (decode_elem fresh)
    (os, spare) ← decode_elems fresh n no_objects
    pure (object o os, spare)
  decode_elems fresh (suc n) (object old held) = do
    o ← decode_value (decode_elem old)
    (os, spare) ← decode_elems fresh n held
    pure (object o os, spare)

  -- The elements that a slice has gained beyond its capacity are zero, as new ones are: none of
  -- them are kept.
  abbrev pub slice_of_len : Object → Object → ℤ → Decoding Object
  slice_of_len fresh old (negsuc n) = pure Object.nil_slice
  slice_of_len fresh old (pos n) = do
    (os, spare) ← decode_elems fresh n (held_slice old)
    pure (Object.slice os spare)

  unfoldable pub decode_slice_value : Object → Object → Decoding Object
  unfolding decode_elems
  decode_slice_value fresh old = do n ← decode_array_len; slice_of_len fresh old n

  abbrev pub array_of_len : ℕ → Object → Object → ℤ → Decoding Object
  array_of_len len fresh old (negsuc n) = pure old
  array_of_len len fresh old (pos n) = if ltb len n then fail (Error.array_too_short len n) else (do
    (os, rest) ← decode_elems fresh n (held_array old)
    pure (Object.array (append_objects os rest)))

  unfoldable pub decode_array_value : ℕ → Object → Object → Decoding Object
  unfolding decode_elems
  decode_array_value len fresh old = do n ← decode_array_len; array_of_len len fresh old n

  abbrev pub decode_pointee : Object → Object → Bool → Decoding Object
  decode_pointee fresh old true = do decode_nil; pure Object.nil_pointer
  decode_pointee fresh old false = do o ← decode_elem (pointee fresh old); pure (Object.pointer o)

  unfoldable pub decode_pointer : Object → Object → Decoding Object
  unfolding decode_nil has_nil_code
  decode_pointer fresh old = do is_nil ← has_nil_code; decode_pointee fresh old is_nil

-- A field with its decoder.
abbrev pub Target : Type 0
Target = Bytes × (Object → Decoding Object)

-- The field that `fields.Map` has under the name, decoded in its place. Of several fields with one
-- name the map has the last.
abbrev pub set_first : Object → Option (Decoding Objects) → Option (Decoding Objects)
set_first o none = none
set_first o (some m) = some (do os ← m; pure (object o os))

abbrev pub or_here : Option (Decoding Objects) → Bool → Decoding Objects → Option (Decoding Objects)
or_here (some m) hit here = some m
or_here none hit here = if hit then some here else none

unfoldable pub decode_named : List Target → Bytes → Objects → Option (Decoding Objects)
unfolding same
decode_named [] name os = none
decode_named ((key, decode) ∷ fs) name no_objects = none
decode_named ((key, decode) ∷ fs) name (object o os) =
    or_here (set_first o (decode_named fs name os)) (same key name)
      (do o' ← decode o; pure (object o' os))

abbrev pub known_or_skip : Bytes → Objects → Option (Decoding Objects) → Decoding Objects
known_or_skip name os (some m) = m
known_or_skip name os none = λ d.
    if has_flag d.flags disallow_unknown_fields_flag
    then err (Error.unknown_field name) d
    else (do skip; pure os) d

-- The loop over the `n` entries of the map.
unfoldable pub decode_named_fields : List Target → ℕ → Objects → Decoding Objects
unfolding decode_named
decode_named_fields fs zero os = pure os
decode_named_fields fs (suc n) os = do
  name ← decode_string_temp
  os' ← known_or_skip name os (decode_named fs name os)
  decode_named_fields fs n os'

-- The fields in order, from an array.
unfoldable pub decode_fields : List Target → Objects → Decoding Objects
decode_fields [] os = pure os
decode_fields ((key, decode) ∷ fs) no_objects = pure no_objects
decode_fields ((key, decode) ∷ fs) (object o os) = do
  o' ← decode o
  os' ← decode_fields fs os
  pure (object o' os')

abbrev pub struct_of_map : List Target → Objects → Objects → ℤ → Decoding Object
struct_of_map fs zeros old (negsuc n) = pure (Object.struct zeros)
struct_of_map fs zeros old (pos n) = do os ← decode_named_fields fs n old; pure (Object.struct os)

abbrev pub struct_of_array : List Target → ℕ → Objects → Objects → ℤ → Decoding Object
struct_of_array fs count zeros old (negsuc n) = pure (Object.struct zeros)
struct_of_array fs count zeros old (pos zero) = pure (Object.struct zeros)
struct_of_array fs count zeros old (pos (suc n)) =
    if suc n == count
    then (do os ← decode_fields fs old; pure (Object.struct os))
    else fail Error.array_struct

-- A code that is no map's may be an array's; if not, the first error is returned.
abbrev pub try_array : Error → Outcome Decoder ℤ → (ℤ → Decoding Object) → Outcome Decoder Object
try_array e (ok n d) k = k n d
try_array e (err e' d) k = err e d
try_array e stuck k = stuck

abbrev pub map_or_array :
    ℕ → Outcome Decoder ℤ → (ℤ → Decoding Object) → (ℤ → Decoding Object) → Outcome Decoder Object
map_or_array c (ok n d) by_map by_array = by_map n d
map_or_array c (err e d) by_map by_array = try_array e (array_len c d) by_array
map_or_array c stuck by_map by_array = stuck

unfoldable pub decode_struct_value : List Target → Objects → Objects → Decoding Object
unfolding decode_named_fields decode_fields
decode_struct_value fs zeros old = do
  c ← read_code
  λ d.
      map_or_array c (map_len c d) (struct_of_map fs zeros old)
        (struct_of_array fs (count_objects zeros) zeros old)

module _ (cpu : Platform) where
  unfoldable mutual
    unfolding set_int set_uint decode_slice_value decode_array_value decode_pointer
        decode_struct_value zero_value

    -- The decoder of the type, from what the target holds to what it holds then.
    pub decode_object : GoType → Object → Decoding Object
    decode_object GoType.bool old = do b ← decode_bool; pure (Object.bool b)
    decode_object GoType.float32 old = do n ← decode_float32 cpu; pure (Object.float (quiet n))
    decode_object GoType.float64 old = do n ← decode_float64 cpu; pure (Object.float n)
    decode_object GoType.text old = do s ← decode_string; pure (Object.text s)
    decode_object GoType.bytes old = do b ← decode_bytes; pure (Object.bytes b)
    decode_object GoType.strings old = do
      ss ← decode_string_slice (held_strings old)
      pure (Object.strings ss)
    decode_object (GoType.int w) old = do n ← decode_int64 cpu; pure (set_int w n)
    decode_object (GoType.uint w) old = do n ← decode_uint64 cpu; pure (set_uint w n)
    decode_object (GoType.slice t) old = decode_slice_value (decode_object t) (zero_value t) old
    decode_object (GoType.array n t) old = decode_array_value (decode_object t) n (zero_value t) old
    decode_object (GoType.pointer t) old = decode_pointer (decode_object t) (zero_value t) old
    decode_object (GoType.struct as_array fs) old =
        decode_struct_value (targets fs) (zero_fields fs) (held_struct old)

    pub targets : Fields → List Target
    targets no_fields = []
    targets (field name omit t fs) = (name, decode_object t) ∷ targets fs
