-- ===== src/Encoder/Marshal.antt =====
-- pkg/msgpack/encode.go: Encode by the type of its argument, and Marshal. Times, durations, maps and
-- interfaces are not modelled here.
use msgpack.Prelude.{Bool, true, false, List, [], ◌∷◌}
use msgpack.Outcome.{Outcome, ok, err, stuck, ◌>>◌, pure}
use msgpack.Float.{Platform}
use msgpack.Decoder.{Bytes}
use msgpack.Encoder.{Encoder, Encoding, reset}
use msgpack.Encoder.Number.{encode_int, encode_int64_cond, encode_uint, encode_uint64_cond}
use msgpack.Encoder.Value.{word, bits64}
use msgpack.Encoder.Float.{encode_float32, encode_float64}
use msgpack.Encoder.Text.{encode_bool, encode_bytes}
use msgpack.Encoder.Intern.{encode_string}
use msgpack.Encoder.Reflect.{encode_object}
use msgpack.Reflect.{GoType, Object}

module _ (cpu : Platform) where
  -- The type switch on a value of a type that is no defined type; what it does not know goes through
  -- EncodeValue.
  unfoldable pub encode_switch : GoType → Object → Encoding (Unit {0})
  encode_switch GoType.text (Object.text s) = encode_string s
  encode_switch GoType.bytes (Object.bytes b) = encode_bytes b
  encode_switch (GoType.int word) (Object.int z) = encode_int z
  encode_switch (GoType.int bits64) (Object.int z) = encode_int64_cond z
  encode_switch (GoType.uint word) (Object.uint n) = encode_uint n
  encode_switch (GoType.uint bits64) (Object.uint n) = encode_uint64_cond n
  encode_switch GoType.bool (Object.bool b) = encode_bool b
  encode_switch GoType.float32 (Object.float n) = encode_float32 cpu n
  encode_switch GoType.float64 (Object.float n) = encode_float64 cpu n
  encode_switch t o = encode_object cpu t o

  -- Encode of a value; the Boolean says whether its type is a defined type.
  unfoldable pub encode_argument : Bool → GoType → Object → Encoding (Unit {0})
  unfolding encode_switch
  encode_argument false t o = encode_switch t o
  encode_argument true t o = encode_object cpu t o

  -- The buffer that has been written, with the encoder's own writer put back.
  abbrev pub take_buffer : Bytes → Outcome Encoder (Unit {0}) → Outcome Encoder Bytes
  take_buffer old (ok u e) = ok e.out (record e { out = old })
  take_buffer old (err x e) = err x (record e { out = old })
  take_buffer old stuck = stuck

  -- Append; of `dst`, only the room is used.
  unfoldable pub append : Bool → GoType → Object → Encoding Bytes
  unfolding encode_argument
  append defined t o e = take_buffer e.out (encode_argument defined t o (record e { out = [] }))

  -- Marshal and AppendMarshal, with the encoder `e` from the pool.
  unfoldable pub marshal : Bool → GoType → Object → Encoding Bytes
  unfolding append reset
  marshal defined t o e = append defined t o (reset e)

  -- EncodeMulti, on values with their types.
  unfoldable pub encode_multi : List (Bool × GoType × Object) → Encoding (Unit {0})
  unfolding encode_argument
  encode_multi [] = pure tt
  encode_multi ((defined, t, o) ∷ vs) = do encode_argument defined t o; encode_multi vs
