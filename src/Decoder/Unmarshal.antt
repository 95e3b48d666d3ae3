-- ===== src/Decoder/Unmarshal.antt =====
-- pkg/msgpack/decode.go: Decode by the type of its argument, and Unmarshal.
use msgpack.Prelude.{ℕ, Bool, true, false, Option, none, List, [], ◌∷◌}
use msgpack.Prelude.Int.{ℤ, pos, negsuc}
use msgpack.Outcome.{Error, Outcome, ok, err, stuck, ◌>>=◌, pure, fail}
use msgpack.Float.{Platform}
use msgpack.Decoder.{Decoder, Decoding, Bytes, len_reader, reset, use_preallocated, put_decoder}
use msgpack.Decoder.Read.{read_code}
use msgpack.Decoder.Number.{
  decode_int, decode_int8, decode_int16, decode_int32, decode_int64, decode_uint, decode_uint8,
  decode_uint16, decode_uint32, decode_uint64,
}
use msgpack.Decoder.Float.{decode_float32, decode_float64}
use msgpack.Decoder.Length.{bytes_len, decode_array_len}
use msgpack.Decoder.Ext.{decode_map_len}
use msgpack.Decoder.Text.{bytes_with_len}
use msgpack.Decoder.Intern.{decode_string}
use msgpack.Decoder.Strings.{decode_string_slice}
use msgpack.Decoder.Dynamic.{decode_bool}
use msgpack.Decoder.Reflect.{held_strings, decode_value, decode_object}
use msgpack.Encoder.Value.{word, bits8, bits16, bits32, bits64}
use msgpack.Reflect.{GoType, Object}

-- What Decode is called with: a nil interface; a value that is no pointer; a nil pointer, or a
-- pointer to a value, of a Go type, where the Boolean says whether it is a defined type, which the
-- type switch does not know; a nil pointer to map[string]string; a nil pointer to any other type
-- but map[string]any, such as time.Duration, time.Time or an interface; a pointer to a
-- time.Duration; a pointer to an interface that holds a value that is no pointer. There is no
-- constructor for a pointer to a map, to a time.Time, or to an interface that is nil or holds a
-- pointer, whose contents are no Object, nor for a nil pointer to map[string]any.
pub data Argument : Type 0 where
  nothing : Argument
  value : GoType → Argument
  nil_reference : Bool → GoType → Argument
  reference : Bool → GoType → Object → Argument
  nil_string_map_reference : Argument
  nil_other_reference : Argument
  duration_reference : ℤ → Argument
  interface_of_value : Argument

-- What the pointer then holds.
unfoldable pub bytes_ptr : ℕ → Decoding (Option Bytes)
bytes_ptr c = do n ← bytes_len c; bytes_with_len n

unfoldable pub decode_bytes_ptr : Decoding (Option Bytes)
unfolding bytes_ptr
decode_bytes_ptr = do c ← read_code; bytes_ptr c

-- The call panics when it stores the strings.
abbrev pub no_strings : ℤ → Decoding Object
no_strings (negsuc n) = pure (Object.strings none)
no_strings (pos n) = λ d. stuck

-- The call panics when it clears, or looks at, the map.
abbrev pub no_string_map : ℤ → Decoding Object
no_string_map n d = stuck

module _ (cpu : Platform) where
  -- The type switch; what it does not know goes through DecodeValue.
  unfoldable pub decode_switch : GoType → Object → Decoding Object
  decode_switch GoType.text old = do s ← decode_string; pure (Object.text s)
  decode_switch GoType.bytes old = do b ← decode_bytes_ptr; pure (Object.bytes b)
  decode_switch (GoType.int word) old = do n ← decode_int cpu; pure (Object.int n)
  decode_switch (GoType.int bits8) old = do n ← decode_int8 cpu; pure (Object.int n)
  decode_switch (GoType.int bits16) old = do n ← decode_int16 cpu; pure (Object.int n)
  decode_switch (GoType.int bits32) old = do n ← decode_int32 cpu; pure (Object.int n)
  decode_switch (GoType.int bits64) old = do n ← decode_int64 cpu; pure (Object.int n)
  decode_switch (GoType.uint word) old = do n ← decode_uint cpu; pure (Object.uint n)
  decode_switch (GoType.uint bits8) old = do n ← decode_uint8 cpu; pure (Object.uint n)
  decode_switch (GoType.uint bits16) old = do n ← decode_uint16 cpu; pure (Object.uint n)
  decode_switch (GoType.uint bits32) old = do n ← decode_uint32 cpu; pure (Object.uint n)
  decode_switch (GoType.uint bits64) old = do n ← decode_uint64 cpu; pure (Object.uint n)
  decode_switch GoType.bool old = do b ← decode_bool; pure (Object.bool b)
  decode_switch GoType.float32 old = do n ← decode_float32 cpu; pure (Object.float n)
  decode_switch GoType.float64 old = do n ← decode_float64 cpu; pure (Object.float n)
  decode_switch GoType.strings old = do
    ss ← decode_string_slice (held_strings old)
    pure (Object.strings ss)
  decode_switch (GoType.slice t) old = decode_value (decode_object cpu (GoType.slice t) old)
  decode_switch (GoType.array n t) old = decode_value (decode_object cpu (GoType.array n t) old)
  decode_switch (GoType.pointer t) old = decode_value (decode_object cpu (GoType.pointer t) old)
  decode_switch (GoType.struct as_array fs) old =
      decode_value (decode_object cpu (GoType.struct as_array fs) old)

  -- Decode, with what the target of a pointer holds then.
  unfoldable pub decode : Argument → Decoding Object
  unfolding decode_switch
  decode nothing = fail Error.nil_argument
  decode (value t) = fail Error.no_pointer
  decode (nil_reference false GoType.strings) = do n ← decode_array_len; no_strings n
  decode (nil_reference defined t) = fail Error.nil_pointer
  decode (reference false t old) = decode_switch t old
  decode (reference true t old) = decode_value (decode_object cpu t old)
  decode nil_string_map_reference = do n ← decode_map_len; no_string_map n
  decode nil_other_reference = fail Error.nil_pointer
  decode (duration_reference old) = do n ← decode_int64 cpu; pure (Object.int n)
  decode interface_of_value = fail Error.no_pointer

  -- The decoder goes back into the pool.
  abbrev pub put_back : Outcome Decoder Object → Outcome Decoder Object
  put_back (ok o d) = ok o (put_decoder d)
  put_back (err e d) = err e (put_decoder d)
  put_back stuck = stuck

  -- Unmarshal with the decoder `d` from the pool, over a bytes.Reader.
  unfoldable pub unmarshal : Bytes → Argument → Decoding Object
  unfolding decode use_preallocated reset put_decoder
  unmarshal bs v d = put_back (decode v (use_preallocated true (reset (len_reader bs) d)))

  -- DecodeMulti.
  unfoldable pub decode_multi : List Argument → Decoding (List Object)
  unfolding decode
  decode_multi [] = pure []
  decode_multi (v ∷ vs) = do o ← decode v; os ← decode_multi vs; pure (o ∷ os)
