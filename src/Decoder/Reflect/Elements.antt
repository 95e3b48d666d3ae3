-- ===== src/Decoder/Reflect/Elements.antt =====
-- The decoders of numbers, slices, arrays and pointers keep the type of their target.
use msgpack.Prelude.{
  ℕ, zero, suc, ◌+◌, ◌-◌, ◌^◌, ◌<◌, ◌≡◌, ◌∙◌, refl, ap, Bool, true, false, ltb, arith, if_cases,
  Bool-cases, inl, inr,
}
use msgpack.Prelude.Int.{ℤ, pos, negsuc, wrap, signed}
use msgpack.Outcome.{Outcome}
use msgpack.Outcome.Post.{Gives, gives, fails, never, Gives-bind, Gives-then}
use msgpack.Encoder.Value.{Width, word, bits8, bits16, bits32, bits64, bits, value_bits, FitsInt}
use msgpack.Decoder.{Decoder, Decoding, enter_depth}
use msgpack.Decoder.Skip.{leaving}
use msgpack.Reflect.{GoType, Object, Objects, no_objects, object, count_objects}
use msgpack.Reflect.Typing.{AllObjects, IsSlice, IsArray, IsPointer, HasType}
use msgpack.Decoder.Reflect.{
  set_int, set_uint, held_slice, append_objects, pointee, decode_value, decode_elems, slice_of_len,
  decode_slice_value, array_of_len, decode_array_value, decode_pointee, decode_pointer,
}

wrap_lt : (w : Width) (z : ℤ) → wrap (bits w) z < 2 ^ bits w
wrap_lt word (pos n) = omega arith
wrap_lt word (negsuc n) = omega arith
wrap_lt bits8 (pos n) = omega arith
wrap_lt bits8 (negsuc n) = omega arith
wrap_lt bits16 (pos n) = omega arith
wrap_lt bits16 (negsuc n) = omega arith
wrap_lt bits32 (pos n) = omega arith
wrap_lt bits32 (negsuc n) = omega arith
wrap_lt bits64 (pos n) = omega arith
wrap_lt bits64 (negsuc n) = omega arith

FitsInt-signed : (w : Width) (m : ℕ) → m < 2 ^ bits w → FitsInt w (signed (value_bits w) m)
FitsInt-signed word m h =
    if_cases (FitsInt word) (ltb m (2 ^ 63)) (λ t. ground (arith, t)) (λ t. ground (arith, t))
FitsInt-signed bits8 m h =
    if_cases (FitsInt bits8) (ltb m (2 ^ 7)) (λ t. ground (arith, t)) (λ t. ground (arith, t))
FitsInt-signed bits16 m h =
    if_cases (FitsInt bits16) (ltb m (2 ^ 15)) (λ t. ground (arith, t)) (λ t. ground (arith, t))
FitsInt-signed bits32 m h =
    if_cases (FitsInt bits32) (ltb m (2 ^ 31)) (λ t. ground (arith, t)) (λ t. ground (arith, t))
FitsInt-signed bits64 m h =
    if_cases (FitsInt bits64) (ltb m (2 ^ 63)) (λ t. ground (arith, t)) (λ t. ground (arith, t))

pub HasType-set_int : (w : Width) (z : ℤ) → HasType (GoType.int w) (set_int w z)
unfolding HasType set_int
HasType-set_int w z = FitsInt-signed w (wrap (bits w) z) (wrap_lt w z)

pub HasType-set_uint : (w : Width) (n : ℕ) → HasType (GoType.uint w) (set_uint w n)
unfolding HasType set_uint
HasType-set_uint word n = omega arith
HasType-set_uint bits8 n = omega arith
HasType-set_uint bits16 n = omega arith
HasType-set_uint bits32 n = omega arith
HasType-set_uint bits64 n = omega arith

Gives-leaving :
    {A : Type 0} (P : A → Type 0) {o : Outcome Decoder A} → Gives P o → Gives P (leaving o)
Gives-leaving P (gives h) = gives h
Gives-leaving P fails = fails
Gives-leaving P never = never

Gives-decode_value :
    (P : Object → Type 0) (decode : Decoding Object)
    → ((d : Decoder) → Gives P (decode d))
    → (d : Decoder) → Gives P (decode_value decode d)
unfolding decode_value
Gives-decode_value P decode body d = Gives-then (enter_depth d) λ _ s. Gives-leaving P (body s)

AllObjects-append_objects :
    (P : Object → Type 0) (os ps : Objects)
    → AllObjects P os
    → AllObjects P ps
    → AllObjects P (append_objects os ps)
AllObjects-append_objects P no_objects ps h k = k
AllObjects-append_objects P (object o os) ps h k = (h.0, AllObjects-append_objects P os ps (h.1) k)

count_objects-append_objects :
    (os ps : Objects) → count_objects (append_objects os ps) ≡ count_objects os + count_objects ps
count_objects-append_objects no_objects ps = omega arith
count_objects-append_objects (object o os) ps = omega (arith, count_objects-append_objects os ps)

-- The elements that a loop has decoded, and those left over.
record AreElems (P : Object → Type 0) (n : ℕ) (held : Objects) (r : Objects × Objects)
    : Type 0 where
  decoded : AllObjects P (r.0)
  left : AllObjects P (r.1)
  count_decoded : count_objects (r.0) ≡ n
  count_left : count_objects (r.1) ≡ count_objects held - n

module _ (P : Object → Type 0) (decode_elem : Object → Decoding Object) (fresh : Object)
    (new : P fresh) (body : (o : Object) (d : Decoder) → P o → Gives P (decode_elem o d)) where
  Gives-decode_elems :
      (n : ℕ) (held : Objects) (d : Decoder)
      → AllObjects P held
      → Gives (AreElems P n held) (decode_elems decode_elem fresh n held d)
  unfolding decode_elems
  Gives-decode_elems zero held d h =
      gives (record { decoded = tt; left = h; count_decoded = refl; count_left = omega arith })
  Gives-decode_elems (suc n) no_objects d h =
      Gives-bind (Gives-decode_value P (decode_elem fresh) (λ s. body fresh s new) d) λ o s q.
        Gives-bind (Gives-decode_elems n no_objects s tt) λ r s' e. gives (record {
          decoded = (q, e.decoded);
          left = e.left;
          count_decoded = ap suc e.count_decoded;
          count_left = e.count_left ∙ omega arith;
        })
  Gives-decode_elems (suc n) (object old held) d h =
      Gives-bind (Gives-decode_value P (decode_elem old) (λ s. body old s (h.0)) d) λ o s q.
        Gives-bind (Gives-decode_elems n held s (h.1)) λ r s' e. gives (record {
          decoded = (q, e.decoded);
          left = e.left;
          count_decoded = ap suc e.count_decoded;
          count_left = e.count_left ∙ omega arith;
        })

  AllObjects-held_slice : (old : Object) → IsSlice P old → AllObjects P (held_slice old)
  AllObjects-held_slice Object.nil_slice h = tt
  AllObjects-held_slice (Object.slice os spare) h = AllObjects-append_objects P os spare (h.0) (h.1)
  AllObjects-held_slice _ h = absurd h

  Gives-slice_of_len :
      (old : Object) (n : ℤ) (d : Decoder)
      → IsSlice P old
      → Gives (IsSlice P) (slice_of_len decode_elem fresh old n d)
  Gives-slice_of_len old (negsuc n) d h = gives tt
  Gives-slice_of_len old (pos n) d h =
      Gives-bind (Gives-decode_elems n (held_slice old) d (AllObjects-held_slice old h))
        λ r s e. gives (e.decoded, e.left)

  pub Gives-decode_slice_value :
      (old : Object) (d : Decoder)
      → IsSlice P old
      → Gives (IsSlice P) (decode_slice_value decode_elem fresh old d)
  unfolding decode_slice_value
  Gives-decode_slice_value old d h = Gives-then _ λ n s. Gives-slice_of_len old n s h

  Gives-array_of_len :
      (len : ℕ) (old : Object) (n : ℤ) (d : Decoder)
      → IsArray len P old
      → Gives (IsArray len P) (array_of_len decode_elem len fresh old n d)
  Gives-array_of_len len old (negsuc n) d h = gives h
  Gives-array_of_len len (Object.array os) (pos n) d (count, h) = elim (Bool-cases (ltb len n)) [
    | inl long ↦ rw long fails
    | inr fits ↦ rw fits (
        Gives-bind (Gives-decode_elems n os d h) λ r s e. gives (
          count_objects-append_objects (r.0) (r.1)
              ∙ ground (arith, e.count_decoded, e.count_left, count, fits),
          AllObjects-append_objects P (r.0) (r.1) e.decoded e.left,
        ))
  ]
  Gives-array_of_len len _ (pos n) d h = absurd h

  pub Gives-decode_array_value :
      (len : ℕ) (old : Object) (d : Decoder)
      → IsArray len P old
      → Gives (IsArray len P) (decode_array_value decode_elem len fresh old d)
  unfolding decode_array_value
  Gives-decode_array_value len old d h = Gives-then _ λ n s. Gives-array_of_len len old n s h

  pointee_typed : (old : Object) → IsPointer P old → P (pointee fresh old)
  pointee_typed Object.nil_pointer h = new
  pointee_typed (Object.pointer o) h = h
  pointee_typed _ h = absurd h

  pub Gives-decode_pointer :
      (old : Object) (d : Decoder)
      → IsPointer P old
      → Gives (IsPointer P) (decode_pointer decode_elem fresh old d)
  unfolding decode_pointer
  Gives-decode_pointer old d h = Gives-then _ λ b s. by_code b s
    where
      by_code :
          (b : Bool) (s : Decoder) → Gives (IsPointer P) (decode_pointee decode_elem fresh old b s)
      by_code true s = Gives-then _ λ _ s'. gives tt
      by_code false s =
          Gives-bind (body (pointee fresh old) s (pointee_typed old h)) λ o s' q. gives q
