-- ===== src/Decoder/Reflect/Structs.antt =====
-- The decoder of a struct keeps the types of its fields.
use msgpack.Prelude.{
  ℕ, zero, suc, Bool, true, false, List, [], ◌∷◌, Option, none, some, ◌==◌, Bool-cases, inl, inr,
}
use msgpack.Prelude.Int.{ℤ, pos, negsuc}
use msgpack.Outcome.{Outcome, ok, err, stuck}
use msgpack.Outcome.Post.{Gives, gives, fails, never, Gives-choice, Gives-bind, Gives-then}
use msgpack.Encoder.Intern.{same}
use msgpack.Decoder.{Decoder, Decoding, Bytes, has_flag, disallow_unknown_fields_flag}
use msgpack.Decoder.Length.{array_len, map_len}
use msgpack.Reflect.{
  Fields, no_fields, field, Object, Objects, no_objects, object, count_objects, zero_fields,
}
use msgpack.Reflect.Typing.{IsField, IsStruct, HasType, HaveTypes, HaveTypes-zero_fields}
use msgpack.Decoder.Reflect.{
  held_struct, Target, set_first, or_here, decode_named, known_or_skip, decode_named_fields,
  decode_fields, struct_of_map, struct_of_array, try_array, map_or_array, decode_struct_value,
}

-- What a struct holds when one field of it has been decoded.
abbrev FoundGives : (Objects → Type 0) → Option (Decoding Objects) → Type 0
FoundGives P none = Unit {0}
FoundGives P (some m) = (d : Decoder) → Gives P (m d)

-- The decoder of each field keeps the type of the field.
abbrev pub KeepTypes : List Target → Fields → Type 0
KeepTypes [] no_fields = Unit {0}
KeepTypes ((key, decode) ∷ ts) (field name omit t fs) =
    ((o : Object) (d : Decoder) → HasType t o → Gives (HasType t) (decode o d)) × KeepTypes ts fs
KeepTypes _ _ = ⊥

FoundGives-or_here :
    (P : Objects → Type 0) (found : Option (Decoding Objects)) (hit : Bool)
    (here : Decoding Objects)
    → FoundGives P found
    → ((d : Decoder) → Gives P (here d))
    → FoundGives P (or_here found hit here)
FoundGives-or_here P (some m) hit here g g' = g
FoundGives-or_here P none true here g g' = g'
FoundGives-or_here P none false here g g' = tt

FoundGives-set_first :
    (P : Object → Type 0) (Q : Objects → Type 0) (o : Object) (found : Option (Decoding Objects))
    → P o
    → FoundGives Q found
    → FoundGives (IsField P Q) (set_first o found)
FoundGives-set_first P Q o none h g = tt
FoundGives-set_first P Q o (some m) h g = λ d. Gives-bind (g d) λ os s q. gives (h, q)

FoundGives-decode_named :
    (ts : List Target) (fs : Fields) (name : Bytes) (os : Objects)
    → KeepTypes ts fs
    → HaveTypes fs os
    → FoundGives (HaveTypes fs) (decode_named ts name os)
unfolding decode_named HasType
FoundGives-decode_named [] no_fields name os k h = tt
FoundGives-decode_named [] (field key omit t fs) name os k h = absurd k
FoundGives-decode_named (p ∷ ts) no_fields name os k h = absurd k
FoundGives-decode_named ((key, decode) ∷ ts) (field _ omit t fs) name no_objects k h = absurd h
FoundGives-decode_named ((key, decode) ∷ ts) (field _ omit t fs) name (object o os) k h =
    FoundGives-or_here (IsField (HasType t) (HaveTypes fs)) (set_first o (decode_named ts name os))
      (same key name) _
      (FoundGives-set_first (HasType t) (HaveTypes fs) o (decode_named ts name os) (h.0)
        (FoundGives-decode_named ts fs name os (k.1) (h.1)))
      (λ d. Gives-bind (k.0 o d (h.0)) λ o' s q. gives (q, h.1))

Gives-known_or_skip :
    (P : Objects → Type 0) (name : Bytes) (os : Objects) (found : Option (Decoding Objects))
    (d : Decoder)
    → P os
    → FoundGives P found
    → Gives P (known_or_skip name os found d)
Gives-known_or_skip P name os (some m) d h g = g d
Gives-known_or_skip P name os none d h g =
    elim (Bool-cases (has_flag d.flags disallow_unknown_fields_flag)) [
      | inl strict ↦ rw strict fails
      | inr lax ↦ rw lax (Gives-then _ λ _ s. gives h)
    ]

module _ (ts : List Target) (fs : Fields) (k : KeepTypes ts fs) where
  Gives-decode_named_fields :
      (n : ℕ) (os : Objects) (d : Decoder)
      → HaveTypes fs os
      → Gives (HaveTypes fs) (decode_named_fields ts n os d)
  unfolding decode_named_fields
  Gives-decode_named_fields zero os d h = gives h
  Gives-decode_named_fields (suc n) os d h = Gives-then _ λ name s.
      Gives-bind
        (Gives-known_or_skip (HaveTypes fs) name os (decode_named ts name os) s h
          (FoundGives-decode_named ts fs name os k h))
        λ os' s' q. Gives-decode_named_fields n os' s' q

Gives-decode_fields :
    (ts : List Target) (fs : Fields) (os : Objects) (d : Decoder)
    → KeepTypes ts fs
    → HaveTypes fs os
    → Gives (HaveTypes fs) (decode_fields ts os d)
unfolding decode_fields HasType
Gives-decode_fields [] no_fields os d k h = gives h
Gives-decode_fields [] (field key omit t fs) os d k h = absurd k
Gives-decode_fields (p ∷ ts) no_fields os d k h = absurd k
Gives-decode_fields ((key, decode) ∷ ts) (field _ omit t fs) no_objects d k h = absurd h
Gives-decode_fields ((key, decode) ∷ ts) (field _ omit t fs) (object o os) d k h =
    Gives-bind (k.0 o d (h.0))
      λ o' s q. Gives-bind (Gives-decode_fields ts fs os s (k.1) (h.1)) λ os' s' q'. gives (q, q')

-- Whichever of the two methods is called, the result is as both give it.
Gives-map_or_array :
    (P : Object → Type 0) (c : ℕ) (o : Outcome Decoder ℤ) (by_map by_array : ℤ → Decoding Object)
    → ((n : ℤ) (d : Decoder) → Gives P (by_map n d))
    → ((n : ℤ) (d : Decoder) → Gives P (by_array n d))
    → Gives P (map_or_array c o by_map by_array)
Gives-map_or_array P c (ok n d) by_map by_array m a = m n d
Gives-map_or_array P c (err e d) by_map by_array m a = try (array_len c d)
  where
    try : (o : Outcome Decoder ℤ) → Gives P (try_array e o by_array)
    try (ok n s) = a n s
    try (err e' s) = fails
    try stuck = never
Gives-map_or_array P c stuck by_map by_array m a = never

pub Gives-decode_struct_value :
    (ts : List Target) (fs : Fields) (old : Objects) (d : Decoder)
    → KeepTypes ts fs
    → HaveTypes fs old
    → Gives (IsStruct (HaveTypes fs)) (decode_struct_value ts (zero_fields fs) old d)
unfolding decode_struct_value
Gives-decode_struct_value ts fs old d k h =
    Gives-then _
      λ c s. Gives-map_or_array (IsStruct (HaveTypes fs)) c (map_len c s) _ _ from_map from_array
  where
    from_map :
        (n : ℤ) (s : Decoder)
        → Gives (IsStruct (HaveTypes fs)) (struct_of_map ts (zero_fields fs) old n s)
    from_map (negsuc n) s = gives (HaveTypes-zero_fields fs)
    from_map (pos n) s = Gives-bind (Gives-decode_named_fields ts fs k n old s h) λ os s' q. gives q

    from_array :
        (n : ℤ) (s : Decoder)
        → Gives
            (IsStruct (HaveTypes fs))
            (struct_of_array ts (count_objects (zero_fields fs)) (zero_fields fs) old n s)
    from_array (negsuc n) s = gives (HaveTypes-zero_fields fs)
    from_array (pos zero) s = gives (HaveTypes-zero_fields fs)
    from_array (pos (suc n)) s =
        Gives-choice (suc n == count_objects (zero_fields fs)) _ _
          (Gives-bind (Gives-decode_fields ts fs old s k h) λ os s' q. gives q) fails

pub HaveTypes-held_struct :
    (fs : Fields) (old : Object) → IsStruct (HaveTypes fs) old → HaveTypes fs (held_struct old)
HaveTypes-held_struct fs (Object.struct os) h = h
HaveTypes-held_struct fs _ h = absurd h
