-- ===== src/Lib.antt =====
-- A model of the MessagePack codec in pkg/msgpack: the Encoder and the Decoder with their state,
-- the wire format of numbers, lengths, strings and extensions, interned strings, values of type
-- `any`, values of Go types, Marshal and Unmarshal, Skip and Query.
--
-- An Encoder writes Go values to a byte stream; a Decoder reads them back. Both switch on leading
-- bytes whose values package msgpcode fixes. Errors are values; a method that fails keeps the
-- changes that it made before.
--
-- The files, and the code that they are about:
--   Wire/Code: pkg/msgpack/msgpcode/msgpcode.go.
--   Outcome and below: results of methods with the new state; the switch statement; counted loops.
--   Time, Encoder/Time, Decoder/Time: time.go.
--   Float: IEEE 754 bit patterns, as far as the codec looks at them (Float64frombits, float64(f)).
--   Decoder, Decoder/Read, Decoder/Limit, Decoder/Skip: pkg/msgpack/decode.go.
--   Decoder/Word, Decoder/Number, Decoder/Float: pkg/msgpack/decode_number.go.
--   Decoder/Length: the headers of decode_slice.go, decode_map.go and decode_string.go.
--   Decoder/Text: decode_string.go. Decoder/Ext: ext.go. Decoder/Intern: intern.go.
--   Encoder: pkg/msgpack/encode.go. Encoder/Number: encode_number.go. Encoder/Value: the integer
--   rows of valueEncoders in encode_value.go. Encoder/Length, Encoder/Text: encode_slice.go,
--   encode_map.go, ext.go. Encoder/Intern: intern.go.
--   Encoder/Float: the floats of encode_number.go.
--   Dynamic and below: values of type `any`; their order by key; which of them stand for the same.
--   Encoder/Dynamic and below: Encode, with encode_map.go and encode_slice.go; sorted maps.
--   Decoder/Dynamic: DecodeInterface and DecodeInterfaceLoose in decode.go, with decode_slice.go,
--   decode_map.go and ext.go.
--   Encoder/Strings and below, Decoder/Strings: []string, map[string]string and map[string]bool.
--   Decoder/Query: decode_query.go.
--   Encoder/Marshal: Encode, Append and Marshal in encode.go. Decoder/Unmarshal: Decode and Unmarshal
--   in decode.go.
--   Reflect and below: Go types and their values, as reflection shows them; which of these come back
--   as they were.
--   Encoder/Reflect: the encoders of Go types in encode_value.go, encode_slice.go and encode_map.go;
--   empty values in types.go. Decoder/Reflect: their decoders in decode_value.go, decode_slice.go
--   and decode_map.go. Decoder/Reflect/Typing and the files beside it: what a target holds.
--   Decoder/Tracks and below: what reads keep, for every header and for Skip.
--   Decoder/Settles and below: what decodeInterfaceCond, Query and the decoders of Go types keep, on every
--   input.
--   Decoder/Bounds and below: lengths that pass the guards, against the input.
--   Decoder/Builtin: the extension types of time.go and intern.go.
--   Decoder/Pool: what a decoder out of the pool brings along from its last use.
--   RoundTrip and below: what is written is read back; in RoundTrip/Dictionary and the files of
--   interned strings, also that the dictionaries of both sides stay in step.
--   Bits, Prelude: masks and shifts; shared names, lists and integers. Tests: concrete runs.
--
-- The functions have the names of the source in snake case; an identifier such as EncodeInt is
-- encode_int. A byte is a number below 256, a string or a slice of bytes a list of them. A uint64
-- is a number, an int64 an integer, and conversions wrap where the source's do. An int has 64 bits.
--
-- Skip and decodeInterfaceCond recur on fuel, one more than the depth limit: each nested call
-- enters one level of depth, and enterDepth refuses a level above the limit, so the fuel never
-- runs out. Query recurs on fuel, one more than the length of the query: each key takes a byte. The
-- encoders and decoders of Go types recur on the type and need none.
--
-- Not modelled: the capacity of scratch buffers, which does not change what is read; io.EOF and
-- io.ErrUnexpectedEOF are one error. The writer is the growing buffer of Marshal, which does not
-- fail. Go types with methods of their own, recursive types, maps and interfaces behind reflection
-- (DecodeUntypedMap, DecodeTypedMap), embedded structs, struct tags, the registries of types and
-- the pools, but for what PutDecoder changes, are left out. A call that fails may leave a target
-- half decoded; the model does not say how. A struct comes with the table of its fields.
-- What Go leaves to the platform, the conversion of a float out of range, is the parameter
-- Platform. The table of extension types with their decoders, and the functions that a caller may
-- give to SetMapDecoder, are the parameter Setup; which of these functions is set is state of the
-- Decoder. time.Parse, which reads times written as text, is the parameter parse. Of the pointers
-- that Decode may get, those to maps and to time.Time, those to interfaces that are nil or hold a
-- pointer, and nil pointers to map[string]any are left out.
pub mod Prelude
pub mod Bits
pub mod Wire
pub mod Outcome
pub mod Float
pub mod Time
pub mod Dynamic
pub mod Reflect
pub mod Decoder
pub mod Encoder
pub mod RoundTrip
mod Tests
