-- ===== src/RoundTrip/Reflect/Elements.antt =====
-- Slices and arrays.
use msgpack.Prelude.{
  ℕ, suc, ◌^◌, ◌<◌, ◌≤◌, ◌≡◌, refl, ap, Bool, true, false, [], ◌∷◌, ◌++◌, length, length-append,
  ltb, leb, arith, if_cases,
}
use msgpack.Prelude.Int.{negsuc}
use msgpack.Outcome.{ok}
use msgpack.Wire.Code.{nil_code}
use msgpack.Decoder.{Decoder, Decoding, Bytes, leave_depth}
use msgpack.Decoder.Length.{array_len, decode_array_len}
use msgpack.Decoder.Skip.{leaving}
use msgpack.Decoder.Reflect.{
  append_objects, decode_value, decode_elems, decode_slice_value, decode_array_value,
}
use msgpack.Encoder.{Encoding}
use msgpack.Encoder.Length.{encode_array_len}
use msgpack.Encoder.Reflect.{encode_elems, encode_array_value, encode_slice_value}
use msgpack.Reflect.{Object, Objects, no_objects, object, count_objects, repeat_object}
use msgpack.Reflect.Typing.{AllObjects}
use msgpack.RoundTrip.Runs.{feed, Reads-read_code, taken_plain}
use msgpack.RoundTrip.Header.{array_form, Writes-encode_array_len}
use msgpack.RoundTrip.Text.{nil_written}
use msgpack.RoundTrip.Dynamic.Yields.{
  IsPlain, Yields, Yields-bind, Yields-pure, Emits, Emits-bind, Emits-nothing, deeper,
  IsPlain-deeper, entered,
}
use msgpack.RoundTrip.Dynamic.Slices.{slice_header, 1-le-array_form}
use msgpack.RoundTrip.Reflect.Transfers.{NotNil, Transfers}

left : {A : Type 0} (a : A) (d : Decoder) → leaving (ok a (deeper d)) ≡ ok a d
unfolding leave_depth
left a d = ap (λ n. ok a (record d { depth = n })) (omega arith)

-- DecodeValue takes one level more than the decoder that it calls.
pub Yields-decode_value :
    (k : ℕ) (dec : Decoding Object) (bs : Bytes) (o : Object)
    → Yields k dec bs o
    → Yields (suc k) (decode_value dec) bs o
unfolding decode_value
Yields-decode_value k dec bs o y d p room =
    rw (entered d bs k room, y (deeper d) (IsPlain-deeper d p) (omega (arith, room))) (left o d)

-- Only the array header of the empty array ends before its elements.
pub NotNil-array_form : (l : ℕ) (s : Bytes) → NotNil (array_form l ++ s)
unfolding array_form
NotNil-array_form l s =
    if_cases (λ bs. NotNil (bs ++ s)) (ltb l 16) (λ t. ground (arith, t))
      λ _. if_cases (λ bs. NotNil (bs ++ s)) (leb l 65535) (λ _. refl) (λ _. refl)

module _ (flags k : ℕ) (enc : Object → Encoding (Unit {0})) (dec : Object → Decoding Object)
    (fresh : Object) (solid : Bool) where
  -- Each object is transferred by itself, into a new target.
  abbrev pub TransferEach : Objects → Type 0
  TransferEach = AllObjects (λ o. Transfers flags k (enc o) (dec fresh) o solid)

  -- Elements one after the other, into new ones or into the first of some that are held.
  record TransfersElems (os : Objects) : Type 0 where
    form : Bytes
    emits : Emits flags (encode_elems enc os) form
    yields_new :
        Yields (suc k) (decode_elems dec fresh (count_objects os) no_objects) form (os, no_objects)
    yields_held :
        Yields
          (suc k)
          (decode_elems dec fresh (count_objects os) (repeat_object (count_objects os) fresh))
          form
          (os, no_objects)
    room : count_objects os ≤ length form

  each : (os : Objects) → TransferEach os → TransfersElems os
  unfolding encode_elems decode_elems
  each no_objects h = record {
    form = [];
    emits = Emits-nothing flags;
    yields_new = Yields-pure (suc k) (no_objects, no_objects);
    yields_held = Yields-pure (suc k) (no_objects, no_objects);
    room = omega arith;
  }
  each (object o os) h =
      let first = h.0 in
      let rest = each os (h.1) in
      let one = Yields-decode_value k (dec fresh) first.form o first.yields in
      let result : Objects × Objects = (object o os, no_objects) in
      record {
        form = first.form ++ rest.form;
        emits =
            Emits-bind flags (enc o) (encode_elems enc os) first.form rest.form first.emits
              rest.emits;
        yields_new =
            Yields-bind (suc k) (decode_value (dec fresh)) _ first.form rest.form o result one
              (λ d p r. rw (rest.yields_new d p r) refl);
        yields_held =
            Yields-bind (suc k) (decode_value (dec fresh)) _ first.form rest.form o result one
              (λ d p r. rw (rest.yields_held d p r) refl);
        room = omega (arith, first.not_empty, rest.room, length-append {0} first.form rest.form);
      }

  nil_array_read :
      (d : Decoder) → IsPlain d → decode_array_len (feed (nil_code ∷ []) d) ≡ ok (negsuc 0) d
  unfolding decode_array_len array_len
  nil_array_read d p =
      rw (Reads-read_code nil_code d p.attached, taken_plain (nil_code ∷ []) d p.silent) refl

  pub Transfers-nil_slice :
      Transfers flags
        (suc k)
        (encode_slice_value enc Object.nil_slice)
        (decode_slice_value dec fresh Object.nil_slice)
        Object.nil_slice
        false
  unfolding encode_slice_value decode_slice_value
  Transfers-nil_slice = record {
    form = nil_code ∷ [];
    emits = λ e _ _. nil_written e;
    yields = λ d p _. rw (nil_array_read d p) refl;
    not_nil = λ t. absurd (cc);
    not_empty = omega arith;
  }

  pub Transfers-slice :
      (os : Objects)
      → count_objects os < 2 ^ 32
      → TransferEach os
      → Transfers flags
          (suc k)
          (encode_slice_value enc (Object.slice os no_objects))
          (decode_slice_value dec fresh Object.nil_slice)
          (Object.slice os no_objects)
          false
  unfolding encode_slice_value encode_array_value decode_slice_value decode_array_len
  Transfers-slice os h each_sent =
      let t = each os each_sent in
      let n = count_objects os in
      record {
        form = array_form n ++ t.form;
        emits =
            Emits-bind flags (encode_array_len n) (encode_elems enc os) (array_form n) t.form
              (λ e _ _. Writes-encode_array_len n h e) t.emits;
        yields = λ d p r. rw (slice_header n t.form d h t.room p, t.yields_new d p r) refl;
        not_nil = λ t. absurd (cc);
        not_empty = 1-le-array_form n t.form;
      }

  append_objects_none : (os : Objects) → append_objects os no_objects ≡ os
  append_objects_none no_objects = refl
  append_objects_none (object o os) = ap (object o) (append_objects_none os)

  not_too_long : (n : ℕ) → ltb n n ≡ false
  not_too_long n = ground arith

  pub Transfers-array :
      (n : ℕ) (os : Objects)
      → count_objects os ≡ n
      → n < 2 ^ 32
      → TransferEach os
      → Transfers flags
          (suc k)
          (encode_slice_value enc (Object.array os))
          (decode_array_value dec n fresh (Object.array (repeat_object n fresh)))
          (Object.array os)
          true
  unfolding encode_slice_value encode_array_value decode_array_value decode_array_len
  Transfers-array n os same h each_sent =
      let t = each os each_sent in
      record {
        form = array_form n ++ t.form;
        emits = rw same (
            Emits-bind flags (encode_array_len n) (encode_elems enc os) (array_form n) t.form
              (λ e _ _. Writes-encode_array_len n h e) t.emits);
        yields = λ d p r.
            rw
              (
                slice_header n t.form d h (omega (arith, same, t.room)) p,
                not_too_long n,
                (rw same at t.yields_held) d p r,
                append_objects_none os,
              )
              refl;
        not_nil = λ _. NotNil-array_form n t.form;
        not_empty = 1-le-array_form n t.form;
      }
