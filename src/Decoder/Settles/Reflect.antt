-- ===== src/Decoder/Settles/Reflect.antt =====
-- Floats, slices, arrays and pointers of a Go type, on every input.
use msgpack.Prelude.{
  ℕ, zero, suc, ◌+◌, Bool, true, false, List, Option, ltb, ◌==◌, arith, Bool-cases, inl, inr,
}
use msgpack.Prelude.Int.{ℤ, pos, negsuc}
use msgpack.Outcome.{Outcome, continue}
use msgpack.Float.{Platform}
use msgpack.Wire.Code.{nil_code, float_code, double_code}
use msgpack.Decoder.{Decoder, Decoding, Bytes, enter_depth, depth_limit}
use msgpack.Decoder.Read.{read_code}
use msgpack.Decoder.Float.{or_invalid, float32_bits, float64_bits}
use msgpack.Decoder.Strings.{decode_strings, strings_with_len, decode_string_slice}
use msgpack.Decoder.Reflect.{
  decode_value, nil_next, has_nil_code, decode_nil, decode_elems, slice_of_len, decode_slice_value,
  array_of_len, decode_array_value, decode_pointee, pointee, decode_pointer, held_slice, held_array,
}
use msgpack.Reflect.{Object, Objects, no_objects, object}
use msgpack.Decoder.Tracks.{
  Tracks, took, gave_up, Tracks-pure, Tracks-fail, Tracks-choice, Tracks-bind, Tracks-read_code,
}
use msgpack.Decoder.Tracks.Headers.{Tracks-uint32}
use msgpack.Decoder.Settles.Numbers.{Tracks-map, Tracks-uint64, Tracks-int}
use msgpack.Decoder.Settles.Strings.{Settles-decode_string}
use msgpack.Decoder.Settles.Steps.{deeper, Settles-leaving}
use msgpack.Decoder.Settles.Query.{Tracks-peek_code, Tracks-decode_array_len}
use msgpack.Decoder.Settles.{
  IsWithin, IsWithin-Kept, Settles, settled, failed, Settles-Tracks, Settles-pure, Settles-fail,
  Settles-choice, Settles-bind, Settles-map,
}

Tracks-or_invalid :
    {A : Type 0} (c : ℕ) (d : Decoder) {o : Outcome Decoder A}
    → Tracks d o
    → Tracks d (or_invalid c o)
Tracks-or_invalid c d (took bs e r fr) = took bs e r fr
Tracks-or_invalid c d (gave_up bs e fr) = gave_up bs e fr

module _ (cpu : Platform) where
  pub Tracks-float32_bits : (c : ℕ) (d : Decoder) → Tracks d (float32_bits cpu c d)
  unfolding float32_bits
  Tracks-float32_bits c d =
      Tracks-choice (c == float_code) _ _ (Tracks-uint32 d)
        (Tracks-map _ (Tracks-or_invalid c d (Tracks-int cpu c d)))

  pub Tracks-float64_bits : (c : ℕ) (d : Decoder) → Tracks d (float64_bits cpu c d)
  unfolding float64_bits
  Tracks-float64_bits c d =
      Tracks-choice (c == float_code) _ _ (Tracks-map _ (Tracks-float32_bits c d)) (
        Tracks-choice (c == double_code) _ _ (Tracks-uint64 d)
          (Tracks-map _ (Tracks-or_invalid c d (Tracks-int cpu c d))))

-- A method that reads the leading byte, and what follows it.
pub Tracks-leading :
    {A : Type 0} (after : ℕ → Decoding A) (d : Decoder)
    → ((c : ℕ) (s : Decoder) → Tracks s (after c s))
    → Tracks d (continue (read_code d) after)
Tracks-leading after d h = Tracks-bind (Tracks-read_code d) λ c s _. h c s

pub Settles-decode_value :
    (decode : Decoding Object) (d : Decoder)
    → ((s : Decoder) → IsWithin s → Settles s (decode s))
    → IsWithin d
    → Settles d (decode_value decode d)
unfolding decode_value enter_depth deeper
Settles-decode_value decode d body h = elim (Bool-cases (ltb (depth_limit d) (d.depth + 1))) [
  | inl over ↦ rw over (Settles-fail _ d)
  | inr under ↦ rw under (Settles-leaving d (body (deeper d) (ground (arith, under))))
]

Settles-nil_next : (d : Decoder) (o : Outcome Decoder ℕ) → Settles d o → Settles d (nil_next o)
Settles-nil_next d _ (settled bs e kept) = settled bs e kept
Settles-nil_next d _ (failed bs e kept) = settled bs e kept

Tracks-decode_nil : (d : Decoder) → Tracks d (decode_nil d)
unfolding decode_nil
Tracks-decode_nil d =
    Tracks-leading _ d λ c s. Tracks-choice (c == nil_code) _ _ (Tracks-pure tt s) (Tracks-fail _ s)

Settles-decode_strings : (n : ℕ) (d : Decoder) → Settles d (decode_strings n d)
unfolding decode_strings
Settles-decode_strings zero d = Settles-pure _ d
Settles-decode_strings (suc n) d =
    Settles-bind d (Settles-decode_string d)
      λ s d' _. Settles-map d' _ (Settles-decode_strings n d')

Settles-strings_with_len :
    (old : Option (List Bytes)) (n : ℤ) (d : Decoder) → Settles d (strings_with_len old n d)
unfolding strings_with_len
Settles-strings_with_len old (negsuc n) d = Settles-pure _ d
Settles-strings_with_len old (pos n) d = Settles-map d _ (Settles-decode_strings n d)

pub Settles-decode_string_slice :
    (old : Option (List Bytes)) (d : Decoder) → Settles d (decode_string_slice old d)
unfolding decode_string_slice
Settles-decode_string_slice old d =
    Settles-bind d (Settles-Tracks d (Tracks-decode_array_len d))
      λ n d' _. Settles-strings_with_len old n d'

-- The method ends wherever it starts within the limit.
abbrev pub Ends : {A : Type 0} → Decoding A → Type 0
Ends m = (d : Decoder) → IsWithin d → Settles d (m d)

module _ (decode_elem : Object → Decoding Object) (body : (o : Object) → Ends (decode_elem o)) where
  Settles-decode_elems :
      (fresh : Object) (n : ℕ) (held : Objects) → Ends (decode_elems decode_elem fresh n held)
  unfolding decode_elems
  Settles-decode_elems fresh zero held d h = Settles-pure _ d
  Settles-decode_elems fresh (suc n) no_objects d h =
      Settles-bind d (Settles-decode_value (decode_elem fresh) d (body fresh) h) λ o s kept.
        Settles-map s _ (Settles-decode_elems fresh n no_objects s (IsWithin-Kept d s kept h))
  Settles-decode_elems fresh (suc n) (object old held) d h =
      Settles-bind d (Settles-decode_value (decode_elem old) d (body old) h)
        λ o s kept. Settles-map s _ (Settles-decode_elems fresh n held s (IsWithin-Kept d s kept h))

  Settles-slice_of_len : (fresh old : Object) (n : ℤ) → Ends (slice_of_len decode_elem fresh old n)
  Settles-slice_of_len fresh old (negsuc n) d h = Settles-pure _ d
  Settles-slice_of_len fresh old (pos n) d h =
      Settles-map d _ (Settles-decode_elems fresh n (held_slice old) d h)

  pub Settles-decode_slice_value :
      (fresh old : Object) → Ends (decode_slice_value decode_elem fresh old)
  unfolding decode_slice_value
  Settles-decode_slice_value fresh old d h =
      Settles-bind d (Settles-Tracks d (Tracks-decode_array_len d))
        λ n s kept. Settles-slice_of_len fresh old n s (IsWithin-Kept d s kept h)

  Settles-array_of_len :
      (len : ℕ) (fresh old : Object) (n : ℤ) → Ends (array_of_len decode_elem len fresh old n)
  Settles-array_of_len len fresh old (negsuc n) d h = Settles-pure _ d
  Settles-array_of_len len fresh old (pos n) d h =
      Settles-choice (ltb len n) _ _ (Settles-fail _ d)
        (Settles-map d _ (Settles-decode_elems fresh n (held_array old) d h))

  pub Settles-decode_array_value :
      (len : ℕ) (fresh old : Object) → Ends (decode_array_value decode_elem len fresh old)
  unfolding decode_array_value
  Settles-decode_array_value len fresh old d h =
      Settles-bind d (Settles-Tracks d (Tracks-decode_array_len d))
        λ n s kept. Settles-array_of_len len fresh old n s (IsWithin-Kept d s kept h)

  Settles-decode_pointee :
      (fresh old : Object) (b : Bool) → Ends (decode_pointee decode_elem fresh old b)
  Settles-decode_pointee fresh old true d h =
      Settles-map d _ (Settles-Tracks d (Tracks-decode_nil d))
  Settles-decode_pointee fresh old false d h = Settles-map d _ (body (pointee fresh old) d h)

  pub Settles-decode_pointer : (fresh old : Object) → Ends (decode_pointer decode_elem fresh old)
  unfolding decode_pointer has_nil_code
  Settles-decode_pointer fresh old d h =
      Settles-bind d (Settles-nil_next d _ (Settles-Tracks d (Tracks-peek_code d)))
        λ b s kept. Settles-decode_pointee fresh old b s (IsWithin-Kept d s kept h)
