-- ===== src/Decoder/Settles/Structs.antt =====
-- Structs, on every input.
use msgpack.Prelude.{
  ℕ, zero, suc, Bool, true, false, List, [], ◌∷◌, Option, none, some, All, ◌==◌, Bool-cases, inl,
  inr,
}
use msgpack.Prelude.Int.{ℤ, pos, negsuc}
use msgpack.Outcome.{Error, Outcome}
use msgpack.Encoder.Intern.{same}
use msgpack.Decoder.{Decoder, Decoding, Bytes, has_flag, disallow_unknown_fields_flag}
use msgpack.Decoder.Length.{array_len, map_len}
use msgpack.Decoder.Reflect.{
  Target, set_first, or_here, decode_named, known_or_skip, decode_named_fields, decode_fields,
  struct_of_map, struct_of_array, try_array, map_or_array, decode_struct_value,
}
use msgpack.Reflect.{Object, Objects, no_objects, object, count_objects}
use msgpack.Decoder.Tracks.{Tracks-read_code}
use msgpack.Decoder.Tracks.Headers.{Tracks-array_len, Tracks-map_len}
use msgpack.Decoder.Tracks.Skip.{skip-Tracks}
use msgpack.Decoder.Settles.Query.{Settles-decode_string_temp}
use msgpack.Decoder.Settles.{
  IsWithin, IsWithin-Kept, Settles, settled, failed, Settles-Tracks, Settles-pure, Settles-fail,
  Settles-choice, Settles-bind, Settles-map, Settles-after,
}
use msgpack.Decoder.Settles.Reflect.{Ends}

-- The decoder of each field ends, for every old value.
abbrev pub AllEnd : List Target → Type 0
AllEnd = All (λ (p : Target). (o : Object) → Ends (p.1 o))

abbrev FoundEnds : Option (Decoding Objects) → Type 0
FoundEnds none = Unit {0}
FoundEnds (some m) = Ends m

FoundEnds-set_first :
    (o : Object) (found : Option (Decoding Objects))
    → FoundEnds found
    → FoundEnds (set_first o found)
FoundEnds-set_first o none e = tt
FoundEnds-set_first o (some m) e = λ d h. Settles-map d _ (e d h)

FoundEnds-or_here :
    (found : Option (Decoding Objects)) (hit : Bool) (here : Decoding Objects)
    → FoundEnds found
    → Ends here
    → FoundEnds (or_here found hit here)
FoundEnds-or_here (some m) hit here e e' = e
FoundEnds-or_here none true here e e' = e'
FoundEnds-or_here none false here e e' = tt

FoundEnds-decode_named :
    (fs : List Target) (name : Bytes) (os : Objects)
    → AllEnd fs
    → FoundEnds (decode_named fs name os)
unfolding decode_named
FoundEnds-decode_named [] name os e = tt
FoundEnds-decode_named ((key, decode) ∷ fs) name no_objects e = tt
FoundEnds-decode_named ((key, decode) ∷ fs) name (object o os) e =
    FoundEnds-or_here (set_first o (decode_named fs name os)) (same key name) _
      (FoundEnds-set_first o (decode_named fs name os) (FoundEnds-decode_named fs name os (e.1)))
      (λ d h. Settles-map d _ (e.0 o d h))

Settles-known_or_skip :
    (name : Bytes) (os : Objects) (found : Option (Decoding Objects))
    → FoundEnds found
    → Ends (known_or_skip name os found)
Settles-known_or_skip name os (some m) e d h = e d h
Settles-known_or_skip name os none e d h =
    elim (Bool-cases (has_flag d.flags disallow_unknown_fields_flag)) [
      | inl strict ↦ rw strict (Settles-fail _ d)
      | inr lax ↦ rw lax (Settles-map d _ (Settles-Tracks d (skip-Tracks d h)))
    ]

module _ (fs : List Target) (e : AllEnd fs) where
  Settles-decode_named_fields : (n : ℕ) (os : Objects) → Ends (decode_named_fields fs n os)
  unfolding decode_named_fields
  Settles-decode_named_fields zero os d h = Settles-pure os d
  Settles-decode_named_fields (suc n) os d h =
      Settles-bind d (Settles-decode_string_temp d) λ name s kept.
        let h' = IsWithin-Kept d s kept h in
        Settles-bind s
          (Settles-known_or_skip name os (decode_named fs name os)
            (FoundEnds-decode_named fs name os e) s h')
          λ os' s' more. Settles-decode_named_fields n os' s' (IsWithin-Kept s s' more h')

  Settles-struct_of_map : (zeros old : Objects) (n : ℤ) → Ends (struct_of_map fs zeros old n)
  Settles-struct_of_map zeros old (negsuc n) d h = Settles-pure _ d
  Settles-struct_of_map zeros old (pos n) d h =
      Settles-map d _ (Settles-decode_named_fields n old d h)

Settles-decode_fields : (fs : List Target) (os : Objects) → AllEnd fs → Ends (decode_fields fs os)
unfolding decode_fields
Settles-decode_fields [] os e d h = Settles-pure os d
Settles-decode_fields ((key, decode) ∷ fs) no_objects e d h = Settles-pure _ d
Settles-decode_fields ((key, decode) ∷ fs) (object o os) e d h =
    Settles-bind d (e.0 o d h)
      λ o' s kept. Settles-map s _ (Settles-decode_fields fs os (e.1) s (IsWithin-Kept d s kept h))

Settles-struct_of_array :
    (fs : List Target) (count : ℕ) (zeros old : Objects) (n : ℤ)
    → AllEnd fs
    → Ends (struct_of_array fs count zeros old n)
Settles-struct_of_array fs count zeros old (negsuc n) e d h = Settles-pure _ d
Settles-struct_of_array fs count zeros old (pos zero) e d h = Settles-pure _ d
Settles-struct_of_array fs count zeros old (pos (suc n)) e d h =
    Settles-choice (suc n == count) _ _ (Settles-map d _ (Settles-decode_fields fs old e d h))
      (Settles-fail _ d)

module _ (by_map by_array : ℤ → Decoding Object) (map_ends : (n : ℤ) → Ends (by_map n))
    (array_ends : (n : ℤ) → Ends (by_array n)) where
  Settles-try_array :
      (e : Error) (d : Decoder) (o : Outcome Decoder ℤ)
      → Settles d o
      → IsWithin d
      → Settles d (try_array e o by_array)
  Settles-try_array e d _ (settled {a = n} {d' = s} bs eq kept) h =
      Settles-after d s bs eq kept (array_ends n s (IsWithin-Kept d s kept h))
  Settles-try_array e d _ (failed bs eq kept) h = failed bs eq kept

  Settles-map_or_array :
      (c : ℕ) (d : Decoder) (o : Outcome Decoder ℤ)
      → Settles d o
      → IsWithin d
      → Settles d (map_or_array c o by_map by_array)
  Settles-map_or_array c d _ (settled {a = n} {d' = s} bs eq kept) h =
      Settles-after d s bs eq kept (map_ends n s (IsWithin-Kept d s kept h))
  Settles-map_or_array c d _ (failed {e = e} {d' = s} bs eq kept) h = Settles-after d s bs eq kept (
      Settles-try_array e s (array_len c s) (Settles-Tracks s (Tracks-array_len c s))
        (IsWithin-Kept d s kept h))

pub Settles-decode_struct_value :
    (fs : List Target) (zeros old : Objects) → AllEnd fs → Ends (decode_struct_value fs zeros old)
unfolding decode_struct_value
Settles-decode_struct_value fs zeros old e d h =
    Settles-bind d (Settles-Tracks d (Tracks-read_code d)) λ c s kept.
      Settles-map_or_array _ _ (Settles-struct_of_map fs e zeros old)
        (λ n. Settles-struct_of_array fs (count_objects zeros) zeros old n e) c s (map_len c s)
        (Settles-Tracks s (Tracks-map_len c s)) (IsWithin-Kept d s kept h)
