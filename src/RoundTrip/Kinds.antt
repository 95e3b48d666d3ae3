-- ===== src/RoundTrip/Kinds.antt =====
-- Integers of every Go kind, with their type on the wire or in the compact form.
use msgpack.Prelude.{ℕ, ◌^◌, ◌<◌, ◌≡◌, true, refl, ◌∷◌, [], ◌++◌, arith, if_cases, if◌then◌else◌}
use msgpack.Prelude.Int.{ℤ, pos, negsuc, wrap, signed, IsInt64}
use msgpack.Outcome.{ok, switch}
use msgpack.Float.{Platform}
use msgpack.Wire.Code.{
  is_fixed_num, uint8_code, uint16_code, uint32_code, uint64_code, int8_code, int16_code,
  int32_code, int64_code,
}
use msgpack.Decoder.{Decoder, Bytes, has_flag}
use msgpack.Decoder.Word.{uint8, uint16, uint32, uint64}
use msgpack.Decoder.Number.{uint, int, decode_uint64, decode_int64}
use msgpack.Encoder.{Encoder, Encoding, use_compact_ints_flag}
use msgpack.Encoder.Number.{
  bytes16, bytes32, bytes64, encode_uint, encode_int, encode_int8, encode_int16, encode_int32,
  encode_int64, encode_int8_cond, encode_int16_cond, encode_int32_cond, encode_int64_cond,
  encode_uint8, encode_uint16, encode_uint32, encode_uint64, encode_uint8_cond, encode_uint16_cond,
  encode_uint32_cond, encode_uint64_cond,
}
use msgpack.Encoder.Value.{
  Width, word, bits8, bits16, bits32, bits64, FitsInt, FitsUint, encode_int_value,
  encode_uint_value,
}
use msgpack.RoundTrip.Runs.{Exchanged, Writes, Reads, Reads-code, Reads-map}
use msgpack.RoundTrip.Word.{Reads-uint8, Reads-uint16, Reads-uint32, Reads-uint64}
use msgpack.RoundTrip.Integer.{
  uint_form, int_form, Writes-encode_uint, Writes-encode_int, Reads-uint_form, Reads-int_form,
  as_signed,
}

-- On the encoder `e` the method writes bytes, from which every decoder with a reader reads the value.
abbrev SendsInt : Platform → Encoding (Unit {0}) → Encoder → ℤ → Type 0
SendsInt cpu m e z =
    (bs : Bytes) × (m e ≡ ok tt (record e { out = e.out ++ bs })) × Reads (decode_int64 cpu) bs z

abbrev SendsUint : Platform → Encoding (Unit {0}) → Encoder → ℕ → Type 0
SendsUint cpu m e n =
    (bs : Bytes) × (m e ≡ ok tt (record e { out = e.out ++ bs })) × Reads (decode_uint64 cpu) bs n

module _ (cpu : Platform) (z : ℤ) where
  abbrev pub Typed : ℕ → Bytes → Type 0
  Typed code bs = Reads (decode_int64 cpu) (code ∷ bs) z

  pub Reads-int8 : signed 7 (wrap 8 z) ≡ z → Typed int8_code (wrap 8 z ∷ [])
  unfolding int is_fixed_num switch
  Reads-int8 fits =
      as_signed cpu (signed 7) int8_code (wrap 8 z) _ _
        (Reads-map uint8 (signed 7) _ _ (Reads-uint8 _)) fits

  pub Reads-int16 :
      wrap 16 z < 2 ^ 16 → signed 15 (wrap 16 z) ≡ z → Typed int16_code (bytes16 (wrap 16 z))
  unfolding int is_fixed_num switch
  Reads-int16 h fits =
      as_signed cpu (signed 15) int16_code (wrap 16 z) _ _
        (Reads-map uint16 (signed 15) _ _ (Reads-uint16 _ h)) fits

  pub Reads-int32 :
      wrap 32 z < 2 ^ 32 → signed 31 (wrap 32 z) ≡ z → Typed int32_code (bytes32 (wrap 32 z))
  unfolding int is_fixed_num switch
  Reads-int32 h fits =
      as_signed cpu (signed 31) int32_code (wrap 32 z) _ _
        (Reads-map uint32 (signed 31) _ _ (Reads-uint32 _ h)) fits

  pub Reads-int64 :
      wrap 64 z < 2 ^ 64 → signed 63 (wrap 64 z) ≡ z → Typed int64_code (bytes64 (wrap 64 z))
  unfolding int is_fixed_num switch
  Reads-int64 h fits =
      as_signed cpu (signed 63) int64_code (wrap 64 z) _ _
        (Reads-map uint64 (signed 63) _ _ (Reads-uint64 _ h)) fits

-- The compact form under the option, or the bytes `bs` of the typed form.
either_form :
    (cpu : Platform) (z : ℤ) (e : Encoder) (typed : Encoding (Unit {0})) (bs : Bytes)
    → IsInt64 z
    → Writes typed bs
    → Reads (decode_int64 cpu) bs z
    → SendsInt cpu
        (λ s. if has_flag s.flags use_compact_ints_flag then encode_int z s else typed s)
        e
        z
either_form cpu z e typed bs h w r =
    if_cases
      (λ o.
        (cs : Bytes) × (o ≡ ok tt (record e { out = e.out ++ cs })) × Reads (decode_int64 cpu) cs z)
      (has_flag e.flags use_compact_ints_flag)
      (λ _. (int_form z, Writes-encode_int z h e, Reads-int_form cpu z h)) (λ _. (bs, w e, r))

pub IsInt64-of_fits : (w : Width) (z : ℤ) → FitsInt w z → IsInt64 z
IsInt64-of_fits word (pos n) h = omega arith
IsInt64-of_fits word (negsuc n) h = omega arith
IsInt64-of_fits bits8 (pos n) h = omega arith
IsInt64-of_fits bits8 (negsuc n) h = omega arith
IsInt64-of_fits bits16 (pos n) h = omega arith
IsInt64-of_fits bits16 (negsuc n) h = omega arith
IsInt64-of_fits bits32 (pos n) h = omega arith
IsInt64-of_fits bits32 (negsuc n) h = omega arith
IsInt64-of_fits bits64 (pos n) h = omega arith
IsInt64-of_fits bits64 (negsuc n) h = omega arith

pub wrap16_lt : (z : ℤ) → wrap 16 z < 2 ^ 16
wrap16_lt (pos n) = omega arith
wrap16_lt (negsuc n) = omega arith

pub wrap32_lt : (z : ℤ) → wrap 32 z < 2 ^ 32
wrap32_lt (pos n) = omega arith
wrap32_lt (negsuc n) = omega arith

pub wrap64_lt : (z : ℤ) → wrap 64 z < 2 ^ 64
wrap64_lt (pos n) = omega arith
wrap64_lt (negsuc n) = omega arith

pub fits8 : (z : ℤ) → FitsInt bits8 z → signed 7 (wrap 8 z) ≡ z
fits8 (pos n) h = ground arith
fits8 (negsuc n) h = ground arith

pub fits16 : (z : ℤ) → FitsInt bits16 z → signed 15 (wrap 16 z) ≡ z
fits16 (pos n) h = ground arith
fits16 (negsuc n) h = ground arith

pub fits32 : (z : ℤ) → FitsInt bits32 z → signed 31 (wrap 32 z) ≡ z
fits32 (pos n) h = ground arith
fits32 (negsuc n) h = ground arith

pub fits64 : (z : ℤ) → FitsInt bits64 z → signed 63 (wrap 64 z) ≡ z
fits64 (pos n) h = ground arith
fits64 (negsuc n) h = ground arith

encode_int_value_sends :
    (cpu : Platform) (w : Width) (z : ℤ) (e : Encoder)
    → FitsInt w z
    → SendsInt cpu (encode_int_value w z) e z
unfolding encode_int_value encode_int8 encode_int8_cond encode_int16_cond encode_int32_cond
    encode_int64_cond
encode_int_value_sends cpu word z e h =
    let fits = IsInt64-of_fits word z h in
    (int_form z, Writes-encode_int z fits e, Reads-int_form cpu z fits)
encode_int_value_sends cpu bits8 z e h =
    either_form cpu z e (encode_int8 z) _ (IsInt64-of_fits bits8 z h) (λ _. refl)
      (Reads-int8 cpu z (fits8 z h))
encode_int_value_sends cpu bits16 z e h =
    either_form cpu z e (encode_int16 z) _ (IsInt64-of_fits bits16 z h) (λ _. refl)
      (Reads-int16 cpu z (wrap16_lt z) (fits16 z h))
encode_int_value_sends cpu bits32 z e h =
    either_form cpu z e (encode_int32 z) _ (IsInt64-of_fits bits32 z h) (λ _. refl)
      (Reads-int32 cpu z (wrap32_lt z) (fits32 z h))
encode_int_value_sends cpu bits64 z e h =
    either_form cpu z e (encode_int64 z) _ (IsInt64-of_fits bits64 z h) (λ _. refl)
      (Reads-int64 cpu z (wrap64_lt z) (fits64 z h))

-- The encoder of each signed kind, with or without the compact form, writes bytes from which
-- DecodeInt64 reads the value back, where the value fits the kind and the decoder has a reader.
pub encode_int_value_lem :
    (cpu : Platform) (w : Width) (z : ℤ) (e : Encoder) (d : Decoder)
    → FitsInt w z
    → d.attached ≡ true
    → Exchanged (encode_int_value w z) (decode_int64 cpu) e d z
encode_int_value_lem cpu w z e d h a =
    let (bs, written, read) = encode_int_value_sends cpu w z e h in (bs, written, read d a)

compact_or_uint :
    (cpu : Platform) (n : ℕ) (e : Encoder) (typed : Encoding (Unit {0})) (bs : Bytes)
    → n < 2 ^ 64
    → Writes typed bs
    → Reads (decode_uint64 cpu) bs n
    → SendsUint cpu
        (λ s. if has_flag s.flags use_compact_ints_flag then encode_uint n s else typed s)
        e
        n
compact_or_uint cpu n e typed bs h w r =
    if_cases
      (λ o.
        (cs : Bytes) × (o ≡ ok tt (record e { out = e.out ++ cs }))
        × Reads (decode_uint64 cpu) cs n)
      (has_flag e.flags use_compact_ints_flag)
      (λ _. (uint_form n, Writes-encode_uint n h e, Reads-uint_form cpu n h)) (λ _. (bs, w e, r))

module _ (cpu : Platform) (n : ℕ) where
  abbrev pub TypedUint : ℕ → Bytes → Type 0
  TypedUint code bs = Reads (decode_uint64 cpu) (code ∷ bs) n

  pub Reads-typed_uint8 : TypedUint uint8_code (n ∷ [])
  unfolding decode_uint64 uint is_fixed_num switch
  Reads-typed_uint8 =
      Reads-code (uint cpu) uint8_code _ n (Reads-map uint8 (λ x. x) _ n (Reads-uint8 n))

  pub Reads-typed_uint16 : n < 2 ^ 16 → TypedUint uint16_code (bytes16 n)
  unfolding decode_uint64 uint is_fixed_num switch
  Reads-typed_uint16 h =
      Reads-code (uint cpu) uint16_code _ n (Reads-map uint16 (λ x. x) _ n (Reads-uint16 n h))

  pub Reads-typed_uint32 : n < 2 ^ 32 → TypedUint uint32_code (bytes32 n)
  unfolding decode_uint64 uint is_fixed_num switch
  Reads-typed_uint32 h =
      Reads-code (uint cpu) uint32_code _ n (Reads-map uint32 (λ x. x) _ n (Reads-uint32 n h))

  pub Reads-typed_uint64 : n < 2 ^ 64 → TypedUint uint64_code (bytes64 n)
  unfolding decode_uint64 uint is_fixed_num switch
  Reads-typed_uint64 h = Reads-code (uint cpu) uint64_code _ n (Reads-uint64 n h)

encode_uint_value_sends :
    (cpu : Platform) (w : Width) (n : ℕ) (e : Encoder)
    → FitsUint w n
    → SendsUint cpu (encode_uint_value w n) e n
unfolding encode_uint_value encode_uint8 encode_uint8_cond encode_uint16_cond encode_uint32_cond
    encode_uint64_cond
encode_uint_value_sends cpu word n e h =
    (uint_form n, Writes-encode_uint n h e, Reads-uint_form cpu n h)
encode_uint_value_sends cpu bits8 n e h =
    compact_or_uint cpu n e (encode_uint8 n) _ (omega arith) (λ _. refl) (Reads-typed_uint8 cpu n)
encode_uint_value_sends cpu bits16 n e h =
    compact_or_uint cpu n e (encode_uint16 n) _ (omega arith) (λ _. refl)
      (Reads-typed_uint16 cpu n h)
encode_uint_value_sends cpu bits32 n e h =
    compact_or_uint cpu n e (encode_uint32 n) _ (omega arith) (λ _. refl)
      (Reads-typed_uint32 cpu n h)
encode_uint_value_sends cpu bits64 n e h =
    compact_or_uint cpu n e (encode_uint64 n) _ (omega arith) (λ _. refl)
      (Reads-typed_uint64 cpu n h)

-- The encoder of each unsigned kind, with or without the compact form, writes bytes from which
-- DecodeUint64 reads the value back, where the value fits the kind and the decoder has a reader.
pub encode_uint_value_lem :
    (cpu : Platform) (w : Width) (n : ℕ) (e : Encoder) (d : Decoder)
    → FitsUint w n
    → d.attached ≡ true
    → Exchanged (encode_uint_value w n) (decode_uint64 cpu) e d n
encode_uint_value_lem cpu w n e d h a =
    let (bs, written, read) = encode_uint_value_sends cpu w n e h in (bs, written, read d a)
