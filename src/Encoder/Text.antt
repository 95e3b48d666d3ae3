-- ===== src/Encoder/Text.antt =====
-- pkg/msgpack/encode.go, encode_slice.go: nil, booleans, strings and byte strings.
use msgpack.Prelude.{Bool, Option, none, some, length, if◌then◌else◌}
use msgpack.Outcome.{◌>>◌}
use msgpack.Wire.Code.{nil_code, true_code, false_code}
use msgpack.Decoder.{Bytes}
use msgpack.Encoder.{Encoding, write, write_code}
use msgpack.Encoder.Length.{encode_string_len, encode_bytes_len}

unfoldable pub encode_nil : Encoding (Unit {0})
encode_nil = write_code nil_code

unfoldable pub encode_bool : Bool → Encoding (Unit {0})
encode_bool value = if value then write_code true_code else write_code false_code

unfoldable pub encode_normal_string : Bytes → Encoding (Unit {0})
encode_normal_string v = do encode_string_len (length v); write v

-- A nil slice is `none`.
unfoldable pub encode_bytes : Option Bytes → Encoding (Unit {0})
encode_bytes none = encode_nil
encode_bytes (some v) = do encode_bytes_len (length v); write v
