-- ===== src/RoundTrip/Reflect/Texts.antt =====
-- Strings, byte slices and slices of strings.
use msgpack.Prelude.{
  ℕ, ◌^◌, ◌<◌, ◌∙◌, refl, ap, true, false, [], ◌∷◌, ◌++◌, List, Option, none, some, length, ltb,
  leb, arith, if_cases,
}
use mathlib.Core.Option.{get_or}
use msgpack.Outcome.{ok}
use msgpack.Wire.Code.{nil_code}
use msgpack.Decoder.{Bytes}
use msgpack.Decoder.Text.{decode_bytes}
use msgpack.Decoder.Length.{decode_array_len, array_len}
use msgpack.Decoder.Intern.{decode_string}
use msgpack.Decoder.Strings.{decode_string_slice, strings_with_len}
use msgpack.Encoder.Text.{encode_bytes}
use msgpack.Encoder.Intern.{encode_string}
use msgpack.Encoder.Length.{encode_array_len}
use msgpack.Encoder.Strings.{encode_string_slice, encode_strings}
use msgpack.RoundTrip.Runs.{Reads-read_code, taken_plain}
use msgpack.RoundTrip.Header.{string_form, bytes_form, array_form, Writes-encode_array_len}
use msgpack.RoundTrip.Text.{Writes-encode_bytes, bytes_read, nil_written, nil_read}
use msgpack.RoundTrip.Dynamic.Yields.{Emits-bind}
use msgpack.RoundTrip.Dynamic.Leaves.{IsDirect}
use msgpack.RoundTrip.Dynamic.Text.{Emits-encode_string, 1-le-string_form, 1-le-bytes_form}
use msgpack.RoundTrip.Dynamic.Slices.{slice_header, 1-le-array_form}
use msgpack.RoundTrip.Dynamic.Entries.{Yields-decode_string}
use msgpack.RoundTrip.Dynamic.Strings.{
  AreShort, strings_form, Emits-strings, Yields-strings, length-strings_form,
}
use msgpack.RoundTrip.Reflect.Transfers.{NotNil, Transfers}

NotNil-string_form : (l : ℕ) (s : Bytes) → NotNil (string_form l ++ s)
unfolding string_form
NotNil-string_form l s =
    if_cases (λ bs. NotNil (bs ++ s)) (ltb l 32) (λ t. ground (arith, t))
      λ _.
        if_cases (λ bs. NotNil (bs ++ s)) (ltb l 256) (λ _. refl)
          λ _. if_cases (λ bs. NotNil (bs ++ s)) (leb l 65535) (λ _. refl) (λ _. refl)

module _ (flags k : ℕ) where
  pub Transfers-text :
      (s : Bytes)
      → IsDirect flags
      → length s < 2 ^ 32
      → Transfers flags k (encode_string s) decode_string s true
  Transfers-text s direct h = record {
    form = string_form (length s) ++ s;
    emits = Emits-encode_string flags s direct h;
    yields = Yields-decode_string k s h;
    not_nil = λ _. NotNil-string_form (length s) s;
    not_empty = 1-le-string_form (length s) s;
  }

  pub Transfers-bytes :
      (v : Option Bytes)
      → length (get_or v []) < 2 ^ 32
      → Transfers flags k (encode_bytes v) decode_bytes v false
  unfolding decode_bytes encode_bytes
  Transfers-bytes none h = record {
    form = nil_code ∷ [];
    emits = λ e _ _. nil_written e;
    yields = λ d p _. nil_read d p.attached ∙ ap (ok none) (taken_plain (nil_code ∷ []) d p.silent);
    not_nil = λ t. absurd (cc);
    not_empty = omega arith;
  }
  Transfers-bytes (some b) h = record {
    form = bytes_form (length b) ++ b;
    emits = λ e _ _. Writes-encode_bytes b h e;
    yields = λ d p _. bytes_read b d h p.attached p.silent;
    not_nil = λ t. absurd (cc);
    not_empty = 1-le-bytes_form (length b) b;
  }

  -- Into a new target, which holds nil.
  pub Transfers-strings :
      (ss : Option (List Bytes))
      → IsDirect flags
      → length (get_or ss []) < 2 ^ 32
      → AreShort (get_or ss [])
      → Transfers flags k (encode_string_slice ss) (decode_string_slice none) ss false
  unfolding encode_string_slice decode_string_slice strings_with_len decode_array_len array_len
  Transfers-strings none direct n short = record {
    form = nil_code ∷ [];
    emits = λ e _ _. nil_written e;
    yields = λ d p _.
        rw (Reads-read_code nil_code d p.attached, taken_plain (nil_code ∷ []) d p.silent) refl;
    not_nil = λ t. absurd (cc);
    not_empty = omega arith;
  }
  Transfers-strings (some ss) direct n short =
      let form = array_form (length ss) in
      let bs = strings_form ss in
      record {
        form = form ++ bs;
        emits =
            Emits-bind flags (encode_array_len (length ss)) (encode_strings ss) form bs
              (λ e _ _. Writes-encode_array_len (length ss) n e)
              (Emits-strings flags ss direct short);
        yields = λ d p room.
            rw
              (
                slice_header (length ss) bs d n (length-strings_form ss) p,
                Yields-strings ss short d p (omega (arith, room)),
              )
              refl;
        not_nil = λ t. absurd (cc);
        not_empty = 1-le-array_form (length ss) bs;
      }
