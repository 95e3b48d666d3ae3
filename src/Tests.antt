-- ===== src/Tests.antt =====
-- The properties at concrete inputs.
mod Dynamic
mod Query
mod Strings
mod Float
mod Reflect
use msgpack.Prelude.{◌≡◌, refl, [], ◌∷◌, none, Option, some, length, ◌≤◌, true, false, arith, ◌++◌}
use msgpack.Time.{Time}
use msgpack.Encoder.Time.{encode_time}
use msgpack.Decoder.Time.{decode_time}
use msgpack.RoundTrip.TimeExt.{decode_time-encode_time}
use msgpack.Prelude.Int.{pos, negsuc}
use msgpack.Outcome.{ok, switch, times}
use msgpack.Float.{Platform}
use msgpack.Decoder.Pool.{reset-put_decoder}
use msgpack.Decoder.Unmarshal.{reference, unmarshal}
use msgpack.Reflect.{GoType, Object}
use msgpack.Decoder.{
  reset, len_reader, put_decoder, new_decoder, Decoder, Bytes, enter_depth, leave_depth,
}
use msgpack.Decoder.Skip.{skip, decode_raw, skip_fuel, skip_slice, skip_after}
use msgpack.Decoder.Text.{skip_bytes, skip_block}
use msgpack.Decoder.Length.{array_len, bytes_len, map_len, decode_array_len, decode_bytes_len}
use msgpack.Decoder.Ext.{decode_map_len}
use msgpack.Encoder.Length.{encode_array_len, encode_map_len}
use msgpack.RoundTrip.Container.{decode_array_len-encode_array_len, decode_map_len-encode_map_len}
use msgpack.Decoder.Bounds.{decode_bytes_len_bound}
use msgpack.Decoder.Bounds.Containers.{capacity, decode_array_len_bound, decode_map_len_bound}
use msgpack.Decoder.Read.{read_code, read_n, skip_n}
use msgpack.Decoder.Limit.{
  Kind, reject_oversized_bytes, reject_oversized_container, remaining_readable,
}
use msgpack.Wire.Code.{is_ext, is_fixed_num, is_fixed_map, is_fixed_array, is_fixed_string}
use msgpack.Decoder.Number.{decode_int64, decode_uint64}
use msgpack.Decoder.Tracks.{Frame, Tracks}
use msgpack.Decoder.Tracks.Skip.{skip-Tracks, decode_raw_lem}
use msgpack.Encoder.{Encoder}
use msgpack.Encoder.Number.{encode_int, encode_uint}
use msgpack.Encoder.Value.{bits16, encode_int_value, encode_uint_value}
use msgpack.RoundTrip.Runs.{feed, taken}
use msgpack.RoundTrip.Integer.{int_form, uint_form}
use msgpack.RoundTrip.Kinds.{encode_int_value_lem, encode_uint_value_lem}
use msgpack.RoundTrip.Numbers.{decode_int64-encode_int, decode_uint64-encode_uint}
use msgpack.RoundTrip.Runs.{Exchanged}
use msgpack.Decoder.Text.{decode_bytes}
use msgpack.Decoder.Intern.{decode_string}
use msgpack.Encoder.Text.{encode_bytes, encode_normal_string}
use msgpack.RoundTrip.Text.{decode_string-encode_normal_string, decode_bytes-encode_bytes}
use msgpack.RoundTrip.Dictionary.{empty, grown}
use msgpack.RoundTrip.Intern.{StaysSynced, decode_interned_string-encode_interned_string}

abbrev pub amd64 : Platform
amd64 = record {
  uint64_of_two_64 = 0x8000_0000_0000_0000;
  int64_of_two_63 = negsuc 0x7fff_ffff_ffff_ffff;
}

-- A decoder over a bytes.Reader, as Unmarshal makes it.
abbrev pub reading : Bytes → Decoder
reading bs = record {
  attached = true;
  sized = true;
  unread = bs;
  map_decoder = none;
  recording = none;
  dict = [];
  struct_tag = [];
  depth = 0;
  max_depth = 0;
  flags = 4;
}

abbrev compact : Encoder
compact = record { out = []; dict = []; struct_tag = []; flags = 4 }

abbrev source : Decoder
source = reading (0xc0 ∷ [])

decode_int64-encode_int_example :
    (encode_int (negsuc 299) compact ≡ ok tt (record compact { out = [] ++ int_form (negsuc 299) }))
    × (decode_int64 amd64 (feed (int_form (negsuc 299)) source)
        ≡ ok (negsuc 299) (taken (int_form (negsuc 299)) source))
decode_int64-encode_int_example =
    decode_int64-encode_int amd64 (negsuc 299) compact source (omega arith) refl

decode_uint64-encode_uint_example :
    (encode_uint 70000 compact ≡ ok tt (record compact { out = [] ++ uint_form 70000 }))
    × (decode_uint64 amd64 (feed (uint_form 70000) source)
        ≡ ok 70000 (taken (uint_form 70000) source))
decode_uint64-encode_uint_example =
    decode_uint64-encode_uint amd64 70000 compact source (omega arith) refl

encode_int_value_lem_example :
    Exchanged
      (encode_int_value bits16 (negsuc 299))
      (decode_int64 amd64)
      compact
      source
      (negsuc 299)
encode_int_value_lem_example =
    encode_int_value_lem amd64 bits16 (negsuc 299) compact source (omega arith) refl

encode_uint_value_lem_example :
    Exchanged (encode_uint_value bits16 300) (decode_uint64 amd64) compact source 300
encode_uint_value_lem_example =
    encode_uint_value_lem amd64 bits16 300 compact source (omega arith) refl

-- An array of two elements, with a byte behind it.
abbrev nested : Bytes
nested = 0x92 ∷ 0x01 ∷ 0xa1 ∷ 0x61 ∷ 0xc0 ∷ []

skip-Tracks_example : Tracks (reading nested) (skip (reading nested))
skip-Tracks_example = skip-Tracks (reading nested) (omega arith)

raw_run : decode_raw (reading nested) ≡ ok (0x92 ∷ 0x01 ∷ 0xa1 ∷ 0x61 ∷ []) (reading (0xc0 ∷ []))
unfolding decode_raw skip skip_fuel skip_slice skip_bytes skip_block skip_after array_len bytes_len
    read_code read_n skip_n enter_depth leave_depth is_fixed_num is_fixed_map is_fixed_array
    is_fixed_string switch times reject_oversized_bytes reject_oversized_container
    remaining_readable
raw_run = refl

decode_raw_lem_example :
    (nested ≡ (0x92 ∷ 0x01 ∷ 0xa1 ∷ 0x61 ∷ []) ++ 0xc0 ∷ [])
    × ((reading (0xc0 ∷ [])).recording ≡ none)
    × Frame (reading nested) (reading (0xc0 ∷ []))
decode_raw_lem_example =
    decode_raw_lem (reading nested) (0x92 ∷ 0x01 ∷ 0xa1 ∷ 0x61 ∷ []) (reading (0xc0 ∷ []))
      (omega arith) raw_run

decode_string-encode_normal_string_example :
    Exchanged (encode_normal_string (104 ∷ 105 ∷ [])) decode_string compact source (104 ∷ 105 ∷ [])
decode_string-encode_normal_string_example =
    decode_string-encode_normal_string (104 ∷ 105 ∷ []) compact source (omega arith) refl refl

decode_bytes-encode_bytes_example :
    (bs : Bytes) × (encode_bytes (some (0 ∷ 255 ∷ [])) compact
      ≡ ok tt (record compact { out = [] ++ bs }))
    × (decode_bytes (feed bs source) ≡ ok (some (0 ∷ 255 ∷ [])) source)
decode_bytes-encode_bytes_example =
    decode_bytes-encode_bytes (some (0 ∷ 255 ∷ [])) compact source (omega arith) refl refl

-- Both sides know the string "abc".
abbrev abc : Bytes
abc = 97 ∷ 98 ∷ 99 ∷ []

abbrev knowing_encoder : Encoder
knowing_encoder = record compact { dict = (abc, 0) ∷ [] }

abbrev knowing_decoder : Decoder
knowing_decoder = record source { dict = abc ∷ [] }

decode_interned_string-encode_interned_string_example :
    StaysSynced abc true knowing_encoder knowing_decoder
decode_interned_string-encode_interned_string_example =
    decode_interned_string-encode_interned_string abc true knowing_encoder knowing_decoder
      (omega arith) refl (grown abc empty) (omega arith)

decode_array_len-encode_array_len_example :
    Exchanged (encode_array_len 2) decode_array_len compact (reading (1 ∷ 2 ∷ [])) (pos 2)
decode_array_len-encode_array_len_example =
    decode_array_len-encode_array_len 2 compact (reading (1 ∷ 2 ∷ [])) (omega arith) refl refl
      (omega arith)

decode_map_len-encode_map_len_example :
    Exchanged (encode_map_len 1) decode_map_len compact (reading (1 ∷ 2 ∷ [])) (pos 1)
decode_map_len-encode_map_len_example =
    decode_map_len-encode_map_len 1 compact (reading (1 ∷ 2 ∷ [])) (omega arith) refl refl
      (omega arith)

array_run :
    decode_array_len (reading nested) ≡ ok (pos 2) (reading (0x01 ∷ 0xa1 ∷ 0x61 ∷ 0xc0 ∷ []))
unfolding decode_array_len array_len read_code reject_oversized_container remaining_readable
array_run = refl

decode_array_len_bound_example :
    2 ≤ capacity 1 Kind.array (reading (0x01 ∷ 0xa1 ∷ 0x61 ∷ 0xc0 ∷ []))
decode_array_len_bound_example =
    decode_array_len_bound (reading nested) (reading (0x01 ∷ 0xa1 ∷ 0x61 ∷ 0xc0 ∷ [])) 2 refl
      array_run

-- A map of one entry.
abbrev entry : Bytes
entry = 0x81 ∷ 0x01 ∷ 0x02 ∷ []

map_run : decode_map_len (reading entry) ≡ ok (pos 1) (reading (0x01 ∷ 0x02 ∷ []))
unfolding decode_map_len map_len is_ext read_code reject_oversized_container remaining_readable
map_run = refl

decode_map_len_bound_example : 1 ≤ capacity 2 Kind.map (reading (0x01 ∷ 0x02 ∷ []))
decode_map_len_bound_example =
    decode_map_len_bound (reading entry) (reading (0x01 ∷ 0x02 ∷ [])) 1 refl map_run

bytes_run : decode_bytes_len (reading (0xa1 ∷ 0x61 ∷ [])) ≡ ok (pos 1) (reading (0x61 ∷ []))
unfolding decode_bytes_len bytes_len is_fixed_string read_code reject_oversized_bytes
    remaining_readable
bytes_run = refl

decode_bytes_len_bound_example : 1 ≤ length (reading (0x61 ∷ [])).unread
decode_bytes_len_bound_example =
    decode_bytes_len_bound (reading (0xa1 ∷ 0x61 ∷ [])) (reading (0x61 ∷ [])) 1 refl bytes_run

-- Five seconds and seven nanoseconds after the epoch, which take the layout of eight bytes.
abbrev moment : Time
moment = record { unix = pos 5; nanosecond = 7 }

abbrev no_parse : Bytes → Option Time
no_parse text = none

decode_time-encode_time_example :
    Exchanged (encode_time moment) (decode_time amd64 no_parse) compact source moment
decode_time-encode_time_example =
    decode_time-encode_time amd64 no_parse moment compact source (omega arith) (omega arith) refl

-- A decoder whose user set a depth limit of two.
abbrev limited : Decoder
limited = record source { max_depth = 2 }

-- The same limit, after a use that set a map decoder and options and filled the dictionary.
abbrev left_over : Decoder
left_over = record limited { map_decoder = some 3; dict = (97 ∷ []) ∷ []; flags = 19; depth = 1 }

reset-put_decoder_example :
    (unmarshal amd64 nested (reference false GoType.text (Object.text [])) (put_decoder limited)
      ≡ unmarshal amd64 nested
          (reference false GoType.text (Object.text []))
          (put_decoder left_over))
    × (reset (len_reader nested) (put_decoder limited)
        ≡ record (new_decoder (len_reader nested)) { max_depth = 2 })
reset-put_decoder_example =
    reset-put_decoder amd64 nested (reference false GoType.text (Object.text []))
      (len_reader nested) limited left_over refl refl refl
