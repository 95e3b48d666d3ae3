-- ===== src/Encoder/Dynamic.antt =====
-- pkg/msgpack/encode.go, encode_value.go, encode_map.go, encode_slice.go: Encode on the values of
-- type `any`, by its type switch or by the encoder of the value's kind.
pub mod Sorted
use msgpack.Prelude.{ℕ, List, [], ◌∷◌, map, Option, some, none, length, if◌then◌else◌}
use msgpack.Outcome.{◌>>◌, pure}
use msgpack.Float.{Platform, quiet}
use msgpack.Dynamic.{
  Value, Items, Entries, no_items, item, no_entries, entry, count_items, count_entries,
}
use msgpack.Dynamic.Order.{sort_by_key}
use msgpack.Decoder.{Bytes, has_flag}
use msgpack.Encoder.{Encoder, Encoding, sort_map_keys_flag}
use msgpack.Encoder.Value.{encode_int_value, encode_uint_value}
use msgpack.Encoder.Float.{encode_float32, encode_float64}
use msgpack.Encoder.Text.{encode_nil, encode_bool, encode_bytes}
use msgpack.Encoder.Length.{encode_array_len, encode_map_len}
use msgpack.Encoder.Intern.{encode_string}
use msgpack.Encoder.Time.{encode_time}

-- A key with what encodes its value.
abbrev pub Field : Type 0
Field = Bytes × Encoding (Unit {0})

unfoldable pub encode_fields : List Field → Encoding (Unit {0})
encode_fields [] = pure tt
encode_fields ((key, value) ∷ fields) = do encode_string key; value; encode_fields fields

-- EncodeMap or EncodeMapSorted, by the option.
unfoldable pub encode_map_fields : List Field → Encoding (Unit {0})
unfolding sort_by_key
encode_map_fields fields e =
    if has_flag e.flags sort_map_keys_flag
    then (do encode_map_len (length fields); encode_fields (sort_by_key fields)) e
    else (do encode_map_len (length fields); encode_fields fields) e

module _ (cpu : Platform) where
  -- EncodeValue of an element: reflection hands a float32 over as a float64, which makes a
  -- signalling NaN quiet. On the other values it writes what Encode, here `plain`, does.
  abbrev pub as_element : Value → Encoding (Unit {0}) → Encoding (Unit {0})
  as_element (Value.float32 n) plain = encode_float32 cpu (quiet n)
  as_element _ plain = plain

  unfoldable mutual
    pub encode : Value → Encoding (Unit {0})
    encode Value.nil = encode_nil
    encode Value.nil_slice = encode_nil
    encode Value.nil_map = encode_nil
    encode (Value.bool b) = encode_bool b
    encode (Value.int w z) = encode_int_value w z
    encode (Value.uint w n) = encode_uint_value w n
    encode (Value.float32 n) = encode_float32 cpu n
    encode (Value.float64 n) = encode_float64 cpu n
    encode (Value.text s) = encode_string s
    encode (Value.bytes b) = encode_bytes b
    encode (Value.time t) = encode_time t
    encode (Value.slice vs) = do encode_array_len (count_items vs); encode_items vs
    encode (Value.map es) = encode_map_fields (fields_of es)

    pub encode_items : Items → Encoding (Unit {0})
    encode_items no_items = pure tt
    encode_items (item v vs) = do as_element v (encode v); encode_items vs

    pub fields_of : Entries → List Field
    fields_of no_entries = []
    fields_of (entry k v es) = (k, encode v) ∷ fields_of es
