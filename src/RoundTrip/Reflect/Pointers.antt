-- ===== src/RoundTrip/Reflect/Pointers.antt =====
-- Pointers.
use msgpack.Prelude.{ℕ, ◌≡◌, refl, Bool, true, false, [], ◌∷◌, arith}
use msgpack.Outcome.{ok}
use msgpack.Wire.Code.{nil_code}
use msgpack.Decoder.{Decoder, Decoding, Bytes}
use msgpack.Decoder.Read.{peek_code}
use msgpack.Decoder.Reflect.{has_nil_code, decode_nil, decode_pointer}
use msgpack.Encoder.{Encoding}
use msgpack.Encoder.Reflect.{encode_pointer}
use msgpack.Reflect.{Object}
use msgpack.RoundTrip.Runs.{feed, Reads-read_code, taken_plain}
use msgpack.RoundTrip.Text.{nil_written}
use msgpack.RoundTrip.Dynamic.Yields.{IsPlain}
use msgpack.RoundTrip.Reflect.Transfers.{NotNil, Transfers}

module _ (flags k : ℕ) (enc : Object → Encoding (Unit {0})) (dec : Object → Decoding Object)
    (fresh : Object) (solid : Bool) where
  nil_seen :
      (d : Decoder)
      → IsPlain d
      → has_nil_code (feed (nil_code ∷ []) d) ≡ ok true (feed (nil_code ∷ []) d)
  unfolding has_nil_code peek_code
  nil_seen d p = rw p.attached refl

  nil_read : (d : Decoder) → IsPlain d → decode_nil (feed (nil_code ∷ []) d) ≡ ok tt d
  unfolding decode_nil
  nil_read d p =
      rw (Reads-read_code nil_code d p.attached, taken_plain (nil_code ∷ []) d p.silent) refl

  pub Transfers-nil_pointer :
      Transfers flags k
        (encode_pointer enc Object.nil_pointer)
        (decode_pointer dec fresh Object.nil_pointer)
        Object.nil_pointer
        false
  unfolding encode_pointer decode_pointer
  Transfers-nil_pointer = record {
    form = nil_code ∷ [];
    emits = λ e _ _. nil_written e;
    yields = λ d p _. rw (nil_seen d p, nil_read d p) refl;
    not_nil = λ t. absurd (cc);
    not_empty = omega arith;
  }

  value_next :
      (bs : Bytes) (d : Decoder)
      → NotNil bs
      → IsPlain d
      → has_nil_code (feed bs d) ≡ ok false (feed bs d)
  unfolding has_nil_code peek_code
  value_next [] d h p = absurd h
  value_next (c ∷ bs) d h p = rw (p.attached, h) refl

  pub Transfers-pointer :
      (o : Object)
      → solid ≡ true
      → Transfers flags k (enc o) (dec fresh) o solid
      → Transfers flags k
          (encode_pointer enc (Object.pointer o))
          (decode_pointer dec fresh Object.nil_pointer)
          (Object.pointer o)
          false
  unfolding encode_pointer decode_pointer
  Transfers-pointer o is_solid t = record {
    form = t.form;
    emits = t.emits;
    yields = λ d p r. rw (value_next t.form d (t.not_nil is_solid) p, t.yields d p r) refl;
    not_nil = λ t. absurd (cc);
    not_empty = t.not_empty;
  }
