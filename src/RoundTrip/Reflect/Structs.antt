-- ===== src/RoundTrip/Reflect/Structs.antt =====
-- Structs, as maps and as arrays.
use msgpack.Prelude.{
  ℕ, suc, ◌^◌, ◌<◌, ◌≤◌, ◌≡◌, ◌∙◌, refl, sym, ap, Bool, true, false, [], ◌++◌, length,
  length-append, ◌==◌, ◌||◌, if◌then◌else◌, inl, inr, Bool-cases, arith,
}
use mathlib.Core.Path.{subst}
use msgpack.Prelude.Int.{pos}
use msgpack.Outcome.{ok, ◌>>◌}
use msgpack.Float.{Platform}
use msgpack.Decoder.{Bytes, has_flag}
use msgpack.Decoder.Reflect.{
  decode_named_fields, decode_fields, decode_struct_value, decode_object, targets, struct_of_map,
  struct_of_array,
}
use msgpack.Encoder.{Encoding, array_encoded_structs_flag}
use msgpack.Encoder.Length.{encode_array_len, encode_map_len}
use msgpack.Encoder.Dynamic.{encode_fields}
use msgpack.Encoder.Reflect.{
  encode_values, encode_struct_value, encode_object, all_fields, kept_fields,
}
use msgpack.Reflect.{
  GoType, Fields, no_fields, field, Object, Objects, no_objects, object, count_objects,
  count_fields, zero_value, zero_fields,
}
use msgpack.Reflect.Sendable.{HasDistinctNames}
use msgpack.RoundTrip.Header.{array_form, map_form, Writes-encode_array_len, Writes-encode_map_len}
use msgpack.RoundTrip.Dynamic.Yields.{
  Yields, Yields-bind, Yields-map, Yields-pure, Emits, Emits-bind, Emits-nothing,
}
use msgpack.RoundTrip.Dynamic.Leaves.{IsDirect}
use msgpack.RoundTrip.Dynamic.Slices.{1-le-array_form}
use msgpack.RoundTrip.Dynamic.Maps.{1-le-map_form}
use msgpack.RoundTrip.Reflect.Transfers.{Transfers}
use msgpack.RoundTrip.Reflect.Header.{struct_map_header, struct_array_header, NotNil-map_form}
use msgpack.RoundTrip.Reflect.Elements.{NotNil-array_form}
use msgpack.RoundTrip.Reflect.Named.{FieldsMove, kept}

module _ (cpu : Platform) (flags k : ℕ) (direct : IsDirect flags) where
  -- All fields, from an array.
  record TransfersAll (fs : Fields) (os : Objects) : Type 0 where
    form : Bytes
    emits : Emits flags (encode_values (all_fields cpu fs os)) form
    yields : Yields k (decode_fields (targets cpu fs) (zero_fields fs)) form os
    room : count_fields fs ≤ length form
    count : length (all_fields cpu fs os) ≡ count_fields fs
    kept_count : length (kept_fields cpu flags fs os) ≤ count_fields fs

  all : (fs : Fields) (os : Objects) → FieldsMove cpu flags k direct fs os → TransfersAll fs os
  unfolding encode_values all_fields kept_fields decode_fields decode_object zero_value
  all no_fields no_objects h = record {
    form = [];
    emits = Emits-nothing flags;
    yields = Yields-pure k no_objects;
    room = omega arith;
    count = refl;
    kept_count = omega arith;
  }
  all no_fields (object o os) h = absurd h
  all (field name omit t fs) no_objects h = absurd h
  all (field name omit t fs) (object o os) ((moved, short, known), hs) =
      let rest = all fs os hs in
      record {
        form = moved.form ++ rest.form;
        emits =
            Emits-bind flags (encode_object cpu t o) _ moved.form rest.form moved.emits rest.emits;
        yields =
            Yields-bind k (decode_object cpu t (zero_value t)) _ moved.form rest.form o
              (object o os) moved.yields
              (Yields-map k (decode_fields (targets cpu fs) (zero_fields fs)) (object o) rest.form
                os rest.yields);
        room = omega (arith, moved.not_empty, rest.room, length-append {0} moved.form rest.form);
        count = ap suc rest.count;
        kept_count = ground (arith, rest.kept_count);
      }

  count_objects-zero_fields : (fs : Fields) → count_objects (zero_fields fs) ≡ count_fields fs
  unfolding zero_value
  count_objects-zero_fields no_fields = refl
  count_objects-zero_fields (field name omit t fs) = ap suc (count_objects-zero_fields fs)

  array_read :
      (fs : Fields) (bs : Bytes) (os : Objects)
      → Yields k (decode_fields (targets cpu fs) (zero_fields fs)) bs os
      → Yields k
          (struct_of_array
            (targets cpu fs)
            (count_objects (zero_fields fs))
            (zero_fields fs)
            (zero_fields fs)
            (pos (count_fields fs)))
          bs
          (Object.struct os)
  unfolding decode_fields decode_object zero_value
  array_read no_fields bs os y = Yields-map k (decode_fields [] no_objects) Object.struct bs os y
  array_read (field name omit t fs) bs os y =
      let all_targets = targets cpu (field name omit t fs) in
      let zeros = zero_fields (field name omit t fs) in
      λ d p room.
        rw (count_objects-zero_fields fs, equal_refl (suc (count_fields fs)))
          (Yields-map k (decode_fields all_targets zeros) Object.struct bs os y d p room)
    where
      equal_refl : (n : ℕ) → n == n ≡ true
      equal_refl n = ground arith

  module _ (as_array : Bool) (fs : Fields) (os : Objects) where
    -- The encoder of the struct for an encoder whose options are `f`.
    abbrev writes : ℕ → Encoding (Unit {0})
    writes f e =
        if has_flag f array_encoded_structs_flag || as_array
        then (do
          encode_array_len (length (all_fields cpu fs os))
          encode_values (all_fields cpu fs os))
            e
        else (do
          encode_map_len (length (kept_fields cpu f fs os))
          encode_fields (kept_fields cpu f fs os))
            e

    Emits-struct :
        (bs : Bytes)
        → Emits flags (writes flags) bs
        → Emits flags (encode_object cpu (GoType.struct as_array fs) (Object.struct os)) bs
    unfolding encode_object encode_struct_value
    Emits-struct bs emits e hf hd =
        subst (λ f. writes f e ≡ ok tt (record e { out = e.out ++ bs })) (sym hf) (emits e hf hd)

    abbrev MovesStruct : Type 0
    MovesStruct =
        Transfers flags k (encode_object cpu (GoType.struct as_array fs) (Object.struct os))
          (decode_object cpu (GoType.struct as_array fs) (zero_value (GoType.struct as_array fs)))
          (Object.struct os) true

    as_map :
        has_flag flags array_encoded_structs_flag || as_array ≡ false
        → FieldsMove cpu flags k direct fs os
        → HasDistinctNames fs
        → count_fields fs < 2 ^ 32
        → MovesStruct
    unfolding decode_object decode_struct_value zero_value
    as_map off h distinct short =
        let t =
          kept cpu flags k direct (targets cpu fs) fs os (λ x. x) h distinct
            (λ n held bs held' hit. hit) in
        let n = length (kept_fields cpu flags fs os) in
        let ts = targets cpu fs in
        let zeros = zero_fields fs in
        let few : n < 2 ^ 32 = omega (arith, (all fs os h).kept_count, short) in
        record {
          form = map_form n ++ t.form;
          emits = Emits-struct (map_form n ++ t.form) (
              rw off (
                Emits-bind flags (encode_map_len n) _ (map_form n) t.form
                  (λ e _ _. Writes-encode_map_len n few e) t.emits));
          yields = λ d p room.
              struct_map_header (struct_of_map ts zeros zeros)
                (struct_of_array ts (count_objects zeros) zeros zeros) t.form d p n few t.room
              ∙ Yields-map k (decode_named_fields ts n zeros) Object.struct t.form os t.yields d p
                  room;
          not_nil = λ _. NotNil-map_form n t.form;
          not_empty = 1-le-map_form n t.form;
        }

    as_list :
        has_flag flags array_encoded_structs_flag || as_array ≡ true
        → FieldsMove cpu flags k direct fs os
        → count_fields fs < 2 ^ 32
        → MovesStruct
    unfolding decode_object decode_struct_value zero_value
    as_list on h short =
        let t = all fs os h in
        let n = count_fields fs in
        let ts = targets cpu fs in
        let zeros = zero_fields fs in
        record {
          form = array_form n ++ t.form;
          emits = Emits-struct (array_form n ++ t.form) (
              rw (on, t.count)
                (Emits-bind flags (encode_array_len n) _ (array_form n) t.form
                  (λ e _ _. Writes-encode_array_len n short e) t.emits));
          yields = λ d p room.
              struct_array_header (struct_of_map ts zeros zeros)
                (struct_of_array ts (count_objects zeros) zeros zeros) t.form d p n short t.room
              ∙ array_read fs t.form os t.yields d p room;
          not_nil = λ _. NotNil-array_form n t.form;
          not_empty = 1-le-array_form n t.form;
        }

    pub Transfers-struct :
        FieldsMove cpu flags k direct fs os
        → HasDistinctNames fs
        → count_fields fs < 2 ^ 32
        → MovesStruct
    Transfers-struct h distinct short =
        elim (Bool-cases (has_flag flags array_encoded_structs_flag || as_array)) [
          | inl on ↦ as_list on h short
          | inr off ↦ as_map off h distinct short
        ]
