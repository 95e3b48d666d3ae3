-- ===== src/Tests/Reflect.antt =====
-- Values of Go types at concrete inputs.
use msgpack.Prelude.{◌≡◌, refl, [], ◌∷◌, true, false, arith, inl, ◌++◌}
use msgpack.Prelude.Int.{pos, negsuc}
use msgpack.Outcome.{ok, switch}
use msgpack.Outcome.Post.{Gives}
use msgpack.Encoder.Value.{bits8, word, encode_int_value}
use msgpack.Decoder.{
  Decoder, Bytes, len_reader, reset, use_preallocated, enter_depth, leave_depth, put_decoder,
}
use msgpack.Decoder.Unmarshal.{reference, decode, unmarshal, decode_multi}
use msgpack.Wire.Code.{is_fixed_string, is_fixed_num}
use msgpack.Decoder.Read.{read_code, read_n, peek_code}
use msgpack.Decoder.Limit.{reject_oversized_container, reject_oversized_bytes}
use msgpack.Decoder.Intern.{decode_string_temp, temp_with_len}
use msgpack.Decoder.Length.{bytes_len, map_len, array_len, decode_array_len}
use msgpack.Decoder.Word.{uint16}
use msgpack.Decoder.Number.{decode_int64, int}
use msgpack.Decoder.Settles.{Settles}
use msgpack.Decoder.Settles.Unmarshal.{IsReturned, IsPooled, unmarshal-IsReturned}
use msgpack.Decoder.Reflect.{decode_object, decode_value}
use msgpack.Decoder.Reflect.Typing.{decode_object-HasType}
use msgpack.Reflect.{GoType, no_fields, field, Object, no_objects, object, zero_value}
use msgpack.Reflect.Typing.{HasType}
use msgpack.Reflect.Sendable.{IsSendable, levels}
use msgpack.Encoder.{Encoder, reset as reset_encoder}
use msgpack.Encoder.Marshal.{marshal, encode_multi}
use msgpack.RoundTrip.Reflect.Marshal.{drained, unmarshal-marshal}
use msgpack.Encoder.Length.{encode_array_len}
use msgpack.Encoder.Number.{encode_int8_cond}
use msgpack.Encoder.Text.{encode_bool, encode_nil}
use msgpack.Encoder.Intern.{same}
use msgpack.Encoder.Reflect.{omitted, encode_object}
use msgpack.RoundTrip.Runs.{feed}
use msgpack.RoundTrip.Reflect.Multi.{
  Typed, ComeBack, new_targets, values, decode_multi-encode_multi,
}
use msgpack.RoundTrip.Reflect.Values.{decode_value-encode_object}
use msgpack.Tests.{amd64, reading}

-- struct { A int8 "a"; B []bool "b,omitempty"; C *int "c" }
abbrev entity : GoType
entity = GoType.struct false (
    field (97 ∷ []) false (GoType.int bits8) (
      field (98 ∷ []) true (GoType.slice GoType.bool)
        (field (99 ∷ []) false (GoType.pointer (GoType.int word)) no_fields)))

-- { A: -1, B: []bool{true}, C: nil }
abbrev held : Object
held = Object.struct (
    object (Object.int (negsuc 0)) (
      object (Object.slice (object (Object.bool true) no_objects) no_objects)
        (object Object.nil_pointer no_objects)))

-- {"c": 7, "a": 300, "b": []}
abbrev input : Bytes
input = 131 ∷ 161 ∷ 99 ∷ 7 ∷ 161 ∷ 97 ∷ 205 ∷ 1 ∷ 44 ∷ 161 ∷ 98 ∷ 144 ∷ []

-- 300 is stored as an int8, and the slice keeps its hidden element.
abbrev result : Object
result = Object.struct (
    object (Object.int (pos 44)) (
      object (Object.slice no_objects (object (Object.bool true) no_objects))
        (object (Object.pointer (Object.int (pos 7))) no_objects)))

decode_object-HasType_example :
    Settles (reading input) (decode_object amd64 entity held (reading input))
    × Gives (HasType entity) (decode_object amd64 entity held (reading input))
unfolding HasType
decode_object-HasType_example =
    decode_object-HasType amd64 entity held (reading input)
      (omega arith, (((tt, tt), tt), (tt, tt))) (omega arith)

decoded : decode_object amd64 entity held (reading input) ≡ ok result (reading [])
unfolding decode_object read_code map_len reject_oversized_container decode_string_temp bytes_len
    is_fixed_string reject_oversized_bytes temp_with_len read_n peek_code decode_int64 int
    is_fixed_num switch uint16 decode_array_len array_len
decoded = refl

-- An empty slice with room for a struct that was in it before; of the new element, the input has no
-- fields.
abbrev records : GoType
records = GoType.slice (GoType.struct false (field (97 ∷ []) false (GoType.int word) no_fields))

abbrev hidden : Object
hidden = Object.struct (object (Object.int (pos 7)) no_objects)

stale_element :
    decode_object amd64 records
      (Object.slice no_objects (object hidden no_objects))
      (reading (145 ∷ 128 ∷ []))
    ≡ ok (Object.slice (object hidden no_objects) no_objects) (reading [])
unfolding decode_object read_code map_len array_len decode_array_len reject_oversized_container
    enter_depth leave_depth decode_value
stale_element = refl

-- Structs as maps, without interning.
abbrev maps : Encoder
maps = record { out = []; dict = []; struct_tag = []; flags = 0 }

held-IsSendable : IsSendable 0 entity held
unfolding IsSendable same omitted
held-IsSendable = (
  ((refl, (refl, tt)), ((refl, tt), (tt, tt))),
  omega arith,
  (
    (omega arith, omega arith, inl refl),
    (((omega arith, (tt, tt)), omega arith, inl refl), ((tt, omega arith, inl refl), tt)),
  ),
)

decode_value-encode_object_example :
    (bs : Bytes) × (encode_object amd64 entity held maps
      ≡ ok tt (record maps { out = maps.out ++ bs }))
    × (decode_value (decode_object amd64 entity (zero_value entity)) (feed bs (reading []))
        ≡ ok held (reading []))
unfolding levels
decode_value-encode_object_example =
    decode_value-encode_object amd64 entity held maps (reading []) held-IsSendable
      (record { no_intern = refl; no_compact = refl }) refl
      (record {
        attached = refl;
        sized = refl;
        silent = refl;
        direct = refl;
        strict = refl;
        allowed = tt;
      })
      (omega arith)

-- Compact integers, and structs as arrays.
written :
    encode_object amd64 entity held (record maps { flags = 6 })
    ≡ ok tt (record maps { flags = 6; out = 147 ∷ 255 ∷ 145 ∷ 195 ∷ 192 ∷ [] })
unfolding encode_object encode_array_len encode_int_value encode_int8_cond encode_bool encode_nil
written = refl

-- After a use that has left options, a dictionary and input behind.
abbrev used : Decoder
used = record (reading (1 ∷ 2 ∷ [])) { dict = (97 ∷ []) ∷ []; flags = 19; depth = 3 }

unmarshal-marshal_example :
    (bs : Bytes) × (marshal amd64 true entity held maps ≡ ok bs (reset_encoder maps))
    × (decode amd64
          (reference true entity (zero_value entity))
          (use_preallocated true (reset (len_reader bs) used))
        ≡ ok held (drained used))
    × (unmarshal amd64 bs (reference true entity (zero_value entity)) used
        ≡ ok held (put_decoder (drained used)))
unfolding levels
unmarshal-marshal_example =
    unmarshal-marshal amd64 true entity held maps used held-IsSendable refl (omega arith)

unmarshal-IsReturned_example :
    IsReturned (IsPooled used.max_depth) (unmarshal amd64 input (reference true entity held) used)
unmarshal-IsReturned_example = unmarshal-IsReturned amd64 input (reference true entity held) used tt

-- A struct and an int8.
abbrev two : Typed
two = (true, entity, held) ∷ (false, GoType.int bits8, Object.int (pos 5)) ∷ []

two-ComeBack : ComeBack 0 1 two
unfolding levels IsSendable
two-ComeBack = (omega arith, held-IsSendable, (omega arith, omega arith, tt))

decode_multi-encode_multi_example :
    (bs : Bytes) × (encode_multi amd64 two maps ≡ ok tt (record maps { out = maps.out ++ bs }))
    × (decode_multi amd64 (new_targets two) (feed bs (reading [])) ≡ ok (values two) (reading []))
decode_multi-encode_multi_example =
    decode_multi-encode_multi amd64 1 two maps (reading []) two-ComeBack
      (record { no_intern = refl; no_compact = refl }) refl
      (record {
        attached = refl;
        sized = refl;
        silent = refl;
        direct = refl;
        strict = refl;
        allowed = tt;
      })
      (omega arith)
