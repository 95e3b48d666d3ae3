-- ===== src/Tests/Dynamic.antt =====
-- Values of type `any` at concrete inputs.
use msgpack.Prelude.{◌≡◌, refl, [], ◌∷◌, ◌++◌, none, true, arith}
use msgpack.Prelude.Int.{pos}
use msgpack.Outcome.{ok}
use msgpack.Dynamic.{Value, Entries, no_items, item, no_entries, entry}
use msgpack.Dynamic.Canonical.{canonical, IsEncodable, rank}
use msgpack.Dynamic.Reordering.{swapped}
use msgpack.Encoder.{Encoder}
use msgpack.Encoder.Value.{word, encode_int_value}
use msgpack.Encoder.Dynamic.{encode, encode_fields, encode_map_fields}
use msgpack.Encoder.Length.{encode_string_len, encode_map_len, encode_array_len}
use msgpack.Encoder.Intern.{encode_string, same}
use msgpack.Encoder.Text.{encode_normal_string, encode_bool}
use msgpack.Encoder.Number.{encode_int}
use msgpack.Encoder.Dynamic.Sorted.{encode-Reordered}
use msgpack.Decoder.Dynamic.{Setup, decode_interface_cond}
use msgpack.Decoder.{Bytes, Decoder}
use msgpack.RoundTrip.Runs.{feed}
use msgpack.RoundTrip.Dynamic.Values.{decode_interface_cond-encode}
use msgpack.Prelude.{◌≤◌, some, ℕ}
use msgpack.Decoder.Builtin.{built_in}
use msgpack.Prelude.{Option}
use msgpack.Decoder.Settles.Builtin.{AreSettled, AreSettled-some, AreSettled-built_in}
use msgpack.Prelude.Int.{ℤ}
use msgpack.Outcome.{◌>>=◌, pure}
use msgpack.Decoder.{Decoding, depth_limit}
use msgpack.Decoder.Read.{read_n}
use msgpack.Decoder.Ext.{decode_map_len}
use msgpack.Decoder.Tracks.{Tracks-read_n}
use msgpack.Decoder.Settles.{Settles, Settles-Tracks, Settles-map}
use msgpack.Decoder.Settles.Strings.{Tracks-decode_map_len}
use msgpack.Decoder.Settles.Interface.{decode_interface_cond-Settles}
use msgpack.Outcome.{Error, err}
use msgpack.RoundTrip.Dynamic.Depth.{decode_interface_cond-array_starts}
use msgpack.Tests.{amd64, reading}

-- Sorted keys and compact integers.
abbrev pub sorting : Encoder
sorting = record { out = []; dict = []; struct_tag = []; flags = 5 }

-- A map decoder that reads the header only.
abbrev map_header : Decoding Value
map_header = do n ← decode_map_len; pure Value.nil_map

abbrev plain_setup : Setup
plain_setup = record { platform = amd64; ext_types = λ _. none; map_decoders = λ _. map_header }

-- {"b": [300, "a"], "a": true}
abbrev fields : Entries
fields =
    entry (98 ∷ [])
      (Value.slice (item (Value.int word (pos 300)) (item (Value.text (97 ∷ [])) no_items)))
      (entry (97 ∷ []) (Value.bool true) no_entries)

abbrev fields_again : Entries
fields_again = entry (97 ∷ []) (Value.bool true) (
    entry (98 ∷ [])
      (Value.slice (item (Value.int word (pos 300)) (item (Value.text (97 ∷ [])) no_items)))
      no_entries)

written_map :
    encode amd64 (Value.map fields) sorting
    ≡ ok tt (record sorting {
      out = 130 ∷ 161 ∷ 97 ∷ 195 ∷ 161 ∷ 98 ∷ 146 ∷ 205 ∷ 1 ∷ 44 ∷ 161 ∷ 97 ∷ [];
    })
unfolding encode encode_map_fields encode_map_len encode_fields encode_string encode_normal_string
    encode_string_len encode_bool encode_array_len encode_int_value encode_int
written_map = refl

encode-Reordered_example :
    encode amd64 (Value.map fields) sorting ≡ encode amd64 (Value.map fields_again) sorting
unfolding same
encode-Reordered_example =
    encode-Reordered amd64 sorting refl fields fields_again (swapped _ _ _ _ no_entries)
      ((refl, tt), (tt, tt))

abbrev pub source : Decoder
source = reading (0xc0 ∷ [])

fields-IsEncodable : IsEncodable (Value.map fields)
unfolding IsEncodable same
fields-IsEncodable = (
  omega arith,
  ((refl, tt), (tt, tt)),
  (omega arith, (omega arith, (omega arith, tt, (omega arith, tt, tt))), (omega arith, tt, tt)),
)

decode_interface_cond-encode_example :
    (bs : Bytes) × (w : Value) × (encode amd64 (Value.map fields) sorting
      ≡ ok tt (record sorting { out = [] ++ bs }))
    × (decode_interface_cond plain_setup (feed bs source) ≡ ok w source)
    × (canonical w ≡ canonical (Value.map fields))
unfolding rank
decode_interface_cond-encode_example =
    decode_interface_cond-encode plain_setup (Value.map fields) sorting source fields-IsEncodable
      (record { no_intern = refl; no_compact = refl }) refl
      (record {
        attached = refl;
        sized = refl;
        silent = refl;
        direct = refl;
        strict = refl;
        allowed = tt;
      })
      refl (omega arith)

-- Extensions read as their bytes.
abbrev raw_ext : ℕ → Decoding Value
raw_ext n = do b ← read_n n; pure (Value.text b)

-- The extension types of the package, and others that the caller has registered.
abbrev or_raw : Option (ℕ → Decoding Value) → Option (ℕ → Decoding Value)
or_raw (some decoder) = some decoder
or_raw none = some raw_ext

abbrev pub raw_setup : Setup
raw_setup = record {
  platform = amd64;
  ext_types = λ id. or_raw (built_in id);
  map_decoders = λ _. map_header;
}

Settles-raw_ext : (n : ℕ) (d : Decoder) → Settles d (raw_ext n d)
Settles-raw_ext n d = Settles-map d Value.text (Settles-Tracks d (Tracks-read_n n d))

AreSettled-or_raw : (o : Option (ℕ → Decoding Value)) → AreSettled o → AreSettled (or_raw o)
AreSettled-or_raw (some decoder) h = h
AreSettled-or_raw none h = AreSettled-some raw_ext Settles-raw_ext

pub raw_ext-Settles : (id : ℤ) → AreSettled (raw_setup.ext_types id)
raw_ext-Settles id = AreSettled-or_raw (built_in id) (AreSettled-built_in id)

pub map_header-Settles :
    (fn : ℕ) (d : Decoder) → d.depth ≤ depth_limit d → Settles d (raw_setup.map_decoders fn d)
map_header-Settles fn d _ =
    Settles-map d (λ _. Value.nil_map) (Settles-Tracks d (Tracks-decode_map_len d))

-- [ext 5 {7}, "a", {}]
abbrev mixed : Decoder
mixed = reading (0x93 ∷ 0xd4 ∷ 5 ∷ 7 ∷ 0xa1 ∷ 97 ∷ 0x80 ∷ [])

decode_interface_cond-Settles_example : Settles mixed (decode_interface_cond raw_setup mixed)
decode_interface_cond-Settles_example =
    decode_interface_cond-Settles raw_setup raw_ext-Settles map_header-Settles mixed (omega arith)

abbrev shallow : Decoder
shallow = record source { max_depth = 3 }

decode_interface_cond-array_starts_example :
    decode_interface_cond plain_setup (feed (0x91 ∷ 0x91 ∷ 0x91 ∷ 0xc0 ∷ []) shallow)
    ≡ err (Error.depth_exceeds_limit 3) (feed (0xc0 ∷ []) shallow)
decode_interface_cond-array_starts_example =
    decode_interface_cond-array_starts plain_setup 3 0xc0 shallow
      (record {
        attached = refl;
        sized = refl;
        silent = refl;
        direct = refl;
        strict = refl;
        allowed = tt;
      })
      refl
