-- ===== src/RoundTrip/Reflect/Named.antt =====
-- The fields of a struct one after the other, by name from a map and in order from an array.
use msgpack.Prelude.{
  ℕ, ◌*◌, ◌^◌, ◌<◌, ◌≤◌, ◌≡◌, refl, sym, Bool, true, false, List, [], ◌∷◌, ◌++◌, none, some, length,
  length-append, ◌⊎◌, inl, inr, Bool-cases, arith,
}
use msgpack.Outcome.{ok, ◌>>=◌}
use msgpack.Float.{Platform}
use msgpack.Decoder.{Decoding, Bytes}
use msgpack.Decoder.Read.{read_code}
use msgpack.Decoder.Length.{bytes_len}
use msgpack.Decoder.Intern.{decode_string_temp, temp_with_len}
use msgpack.Decoder.Reflect.{Target, decode_named, decode_named_fields, decode_object, targets}
use msgpack.Encoder.Intern.{same, encode_string}
use msgpack.Encoder.Dynamic.{encode_fields}
use msgpack.Encoder.Reflect.{omitted, encode_object, kept_fields}
use msgpack.Reflect.{
  GoType, Fields, no_fields, field, Object, Objects, no_objects, object, zero_value, zero_fields,
}
use msgpack.Reflect.Typing.{IsField, IsDone}
use msgpack.Reflect.Sendable.{is_solid, NotNamed, HasDistinctNames, ComesBack}
use msgpack.RoundTrip.Text.{Reads-temp_with_len}
use msgpack.Dynamic.Sorting.{same_refl}
use msgpack.RoundTrip.Header.{string_form}
use msgpack.RoundTrip.Dynamic.Yields.{
  Yields, Yields-of_Reads, Yields-bind, Yields-map, Yields-pure, Emits, Emits-bind, Emits-nothing,
}
use msgpack.RoundTrip.Dynamic.Leaves.{IsDirect}
use msgpack.RoundTrip.Dynamic.Text.{Emits-encode_string, 1-le-string_form}
use msgpack.RoundTrip.Reflect.Transfers.{Transfers}

decode_named-NotNamed :
    (cpu : Platform) (name : Bytes) (fs : Fields) (os : Objects)
    → NotNamed name fs
    → decode_named (targets cpu fs) name os ≡ none
unfolding decode_named decode_object
decode_named-NotNamed cpu name no_fields os h = refl
decode_named-NotNamed cpu name (field key omit t fs) no_objects h = refl
decode_named-NotNamed cpu name (field key omit t fs) (object o os) h =
    rw (decode_named-NotNamed cpu name fs os (h.1), h.0) refl

Yields-decode_string_temp :
    (k : ℕ) (s : Bytes)
    → length s < 2 ^ 32
    → Yields k decode_string_temp (string_form (length s) ++ s) s
unfolding decode_string_temp
Yields-decode_string_temp k s h d p room = rw p.direct (
    Yields-of_Reads k (read_code >>= λ c. bytes_len c >>= temp_with_len)
      (string_form (length s) ++ s) s (Reads-temp_with_len s h) d p room)

zero_of_omitted : {P : Type 0} {b : Bool} → b ≡ true → (b ≡ false) ⊎ P → P
zero_of_omitted on (inl off) = absurd (cc)
zero_of_omitted on (inr z) = z

module _ (k : ℕ) where
  -- The field under the name is there, and is read from `bs`; the fields are then `os'`.
  abbrev Hits : List Target → Bytes → Objects → Bytes → Objects → Type 0
  Hits fs name os bs os' =
      (m : Decoding Objects) × (decode_named fs name os ≡ some m) × Yields k m bs os'

  Hits-behind :
      (key : Bytes) (dec : Object → Decoding Object) (o : Object) (fs : List Target) (name : Bytes)
      (os : Objects) (bs : Bytes) (os' : Objects)
      → Hits fs name os bs os'
      → Hits ((key, dec) ∷ fs) name (object o os) bs (object o os')
  unfolding decode_named
  Hits-behind key dec o fs name os bs os' (m, found, y) =
      ((m >>= λ x. ok (object o x)), rw found refl, Yields-map k m (object o) bs os' y)

  Hits-here :
      (name : Bytes) (dec : Object → Decoding Object) (old o : Object) (fs : List Target)
      (os : Objects) (bs : Bytes)
      → decode_named fs name os ≡ none
      → Yields k (dec old) bs o
      → Hits ((name, dec) ∷ fs) name (object old os) bs (object o os)
  unfolding decode_named
  Hits-here name dec old o fs os bs absent y = (
    (dec old >>= λ x. ok (object x os)),
    rw (absent, same_refl name) refl,
    Yields-map k (dec old) (λ x. object x os) bs o y,
  )

module _ (cpu : Platform) (flags k : ℕ) (direct : IsDirect flags) where
  abbrev pub Moves : GoType → Object → Type 0
  Moves t o =
      Transfers flags k (encode_object cpu t o) (decode_object cpu t (zero_value t)) o (is_solid t)

  abbrev pub FieldsMove : Fields → Objects → Type 0
  FieldsMove no_fields = IsDone
  FieldsMove (field name omit t fs) =
      IsField (ComesBack flags name omit t (Moves t)) (FieldsMove fs)

  -- The fields that are kept, from a map. The targets `all` have the others too, and `behind` puts
  -- the values of those in front.
  pub record TransfersKept (all : List Target) (behind : Objects → Objects) (fs : Fields)
      (os : Objects) : Type 0 where
    pub form : Bytes
    pub emits : Emits flags (encode_fields (kept_fields cpu flags fs os)) form
    pub yields :
        Yields k
          (decode_named_fields all (length (kept_fields cpu flags fs os)) (behind (zero_fields fs)))
          form
          (behind os)
    pub room : 2 * length (kept_fields cpu flags fs os) ≤ length form

  module _ (all : List Target) (behind : Objects → Objects) (name : Bytes) (omit : Bool)
      (t : GoType) (fs : Fields) (o : Object) (os : Objects) where
    abbrev Rest : Type 0
    Rest = TransfersKept all (λ x. behind (object o x)) fs os

    kept-omitted :
        omitted flags omit t o ≡ true
        → o ≡ zero_value t
        → Rest
        → TransfersKept all behind (field name omit t fs) (object o os)
    unfolding kept_fields zero_value
    kept-omitted on same r = record {
      form = r.form;
      emits = rw on r.emits;
      yields = rw (on, sym same) r.yields;
      room = rw on r.room;
    }

    kept-written :
        omitted flags omit t o ≡ false
        → (moved : Moves t o) → length name < 2 ^ 32
        → Hits k all name
            (behind (object (zero_value t) (zero_fields fs)))
            moved.form
            (behind (object o (zero_fields fs)))
        → Rest
        → TransfersKept all behind (field name omit t fs) (object o os)
    unfolding kept_fields zero_value encode_fields decode_named_fields
    kept-written off moved short (m, found, y) r =
        let front = string_form (length name) ++ name in
        let bs = moved.form ++ r.form in
        let result = behind (object o os) in
        record {
          form = front ++ bs;
          emits = rw off (
              Emits-bind flags (encode_string name) _ front bs
                (Emits-encode_string flags name direct short)
                (Emits-bind flags (encode_object cpu t o) _ moved.form r.form moved.emits r.emits));
          yields = rw off (
              Yields-bind k decode_string_temp _ front bs name result
                (Yields-decode_string_temp k name short)
                (rw found (
                  Yields-bind k m _ moved.form r.form (behind (object o (zero_fields fs))) result y
                    r.yields)));
          room = rw off (
              omega (
                arith,
                1-le-string_form (length name) name,
                moved.not_empty,
                r.room,
                length-append {0} front bs,
                length-append {0} moved.form r.form,
              ));
        }

  pub kept :
      (all : List Target) (fs : Fields) (os : Objects) (behind : Objects → Objects)
      → FieldsMove fs os
      → HasDistinctNames fs
      → ((name : Bytes) (held : Objects) (bs : Bytes) (held' : Objects)
          → Hits k (targets cpu fs) name held bs held'
          → Hits k all name (behind held) bs (behind held'))
      → TransfersKept all behind fs os
  unfolding kept_fields zero_value encode_fields decode_named_fields decode_object
  kept all no_fields no_objects behind h distinct reach = record {
    form = [];
    emits = Emits-nothing flags;
    yields = Yields-pure k (behind no_objects);
    room = omega arith;
  }
  kept all no_fields (object o os) behind h distinct reach = absurd h
  kept all (field name omit t fs) no_objects behind h distinct reach = absurd h
  kept all (field name omit t fs) (object o os) behind ((moved, short, known), hs)
        (absent, distinct) reach =
      let dec = decode_object cpu t in
      let rest =
        kept all fs os (λ x. behind (object o x)) hs distinct
          (λ n held bs held' hit.
            reach n (object o held) bs (object o held')
              (Hits-behind k name dec o (targets cpu fs) n held bs held' hit)) in
      let here =
        reach name (object (zero_value t) (zero_fields fs)) moved.form (object o (zero_fields fs)) (
          Hits-here k name dec (zero_value t) o (targets cpu fs) (zero_fields fs) moved.form
            (decode_named-NotNamed cpu name fs (zero_fields fs) absent) moved.yields) in
      elim (Bool-cases (omitted flags omit t o)) [
        | inl on ↦ kept-omitted all behind name omit t fs o os on (zero_of_omitted on known) rest
        | inr off ↦ kept-written all behind name omit t fs o os off moved short here rest
      ]
