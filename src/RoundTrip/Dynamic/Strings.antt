-- ===== src/RoundTrip/Dynamic/Strings.antt =====
-- Slices of strings: what is written is read back.
use msgpack.Prelude.{
  ℕ, ◌^◌, ◌<◌, ◌≤◌, ◌≡◌, refl, List, [], ◌∷◌, ◌++◌, Option, some, length, length-append, All, arith,
}
use msgpack.Outcome.{ok}
use msgpack.Encoder.{Encoder}
use msgpack.Encoder.Length.{encode_array_len}
use msgpack.Encoder.Intern.{encode_string}
use msgpack.Encoder.Strings.{encode_strings, encode_string_slice}
use msgpack.Decoder.{Decoder, Bytes, depth_limit}
use msgpack.Decoder.Length.{decode_array_len}
use msgpack.Decoder.Intern.{decode_string}
use msgpack.Decoder.Strings.{decode_strings, strings_with_len, decode_string_slice}
use msgpack.RoundTrip.Runs.{feed}
use msgpack.RoundTrip.Header.{string_form, array_form, Writes-encode_array_len}
use msgpack.RoundTrip.Dynamic.Yields.{
  IsPlain, Yields, Yields-bind, Yields-pure, Emits, Emits-bind, Emits-nothing,
}
use msgpack.RoundTrip.Dynamic.Leaves.{IsDirect}
use msgpack.RoundTrip.Dynamic.Text.{Emits-encode_string, 1-le-string_form}
use msgpack.RoundTrip.Dynamic.Slices.{slice_header}
use msgpack.RoundTrip.Dynamic.Entries.{Yields-decode_string}

pub strings_form : List Bytes → Bytes
strings_form [] = []
strings_form (s ∷ ss) = string_form (length s) ++ s ++ strings_form ss

-- Each of less than 2^32 bytes.
abbrev pub AreShort : List Bytes → Type 0
AreShort = All (λ s. length s < 2 ^ 32)

pub Emits-strings :
    (flags : ℕ) (ss : List Bytes)
    → IsDirect flags
    → AreShort ss
    → Emits flags (encode_strings ss) (strings_form ss)
unfolding encode_strings strings_form
Emits-strings flags [] direct h = Emits-nothing flags
Emits-strings flags (s ∷ ss) direct h =
    Emits-bind flags (encode_string s) (encode_strings ss) (string_form (length s) ++ s)
      (strings_form ss) (Emits-encode_string flags s direct (h.0))
      (Emits-strings flags ss direct (h.1))

pub Yields-strings :
    (ss : List Bytes) → AreShort ss → Yields 0 (decode_strings (length ss)) (strings_form ss) ss
unfolding decode_strings strings_form
Yields-strings [] h = Yields-pure 0 []
Yields-strings (s ∷ ss) h =
    Yields-bind 0 decode_string _ (string_form (length s) ++ s) (strings_form ss) s (s ∷ ss)
      (Yields-decode_string 0 s (h.0)) (λ d p room. rw (Yields-strings ss (h.1) d p room) refl)

pub length-strings_form : (ss : List Bytes) → length ss ≤ length (strings_form ss)
unfolding strings_form
length-strings_form [] = omega arith
length-strings_form (s ∷ ss) = omega (
  arith,
  length-strings_form ss,
  1-le-string_form (length s) s,
  length-append {0} (string_form (length s) ++ s) (strings_form ss),
)

-- A slice of less than 2^32 strings, each of less than 2^32 bytes, that the encoder of []string
-- writes is read back by decodeStringSlicePtr, before any further input and whatever the pointer
-- held. Strings are not interned, and the decoder is within the depth limit, has a reader with a
-- Len method, does not record and does not decode loosely.
pub decode_string_slice-encode_string_slice :
    (old : Option (List Bytes)) (ss : List Bytes) (e : Encoder) (d : Decoder)
    → length ss < 2 ^ 32
    → AreShort ss
    → IsDirect e.flags
    → e.dict ≡ []
    → IsPlain d
    → d.depth ≤ depth_limit d
    → (bs : Bytes) × (encode_string_slice (some ss) e ≡ ok tt (record e { out = e.out ++ bs }))
      × (decode_string_slice old (feed bs d) ≡ ok (some ss) d)
unfolding encode_string_slice decode_string_slice decode_array_len strings_with_len
decode_string_slice-encode_string_slice old ss e d n short direct empty p room =
    let form = array_form (length ss) in
    let bs = strings_form ss in
    (
      form ++ bs,
      Emits-bind e.flags (encode_array_len (length ss)) (encode_strings ss) form bs
          (λ s _ _. Writes-encode_array_len (length ss) n s) (Emits-strings e.flags ss direct short)
          e refl empty,
      rw
          (
            slice_header (length ss) bs d n (length-strings_form ss) p,
            Yields-strings ss short d p (omega (arith, room)),
          )
          refl,
    )
