-- ===== src/RoundTrip/Dynamic/Numbers.antt =====
-- Integers inside a value of type `any`: the width may change, the number does not.
use msgpack.Prelude.{
  ℕ, suc, ◌-◌, ◌^◌, ◌<◌, ◌≤◌, ◌≡◌, ◌∙◌, ap, refl, true, [], ◌∷◌, length, leb, arith, if◌then◌else◌,
  if_cases, Bool-cases, inl, inr,
}
use msgpack.Prelude.Int.{ℤ, pos, negsuc, signed, wrap, IsInt64}
use msgpack.Outcome.{ok, ◌>>=◌, switch}
use msgpack.Wire.Code.{
  is_fixed_num, is_fixed_map, is_fixed_array, is_fixed_string, uint8_code, uint16_code, uint32_code,
  uint64_code, int8_code, int16_code, int32_code, int64_code,
}
use msgpack.Dynamic.{Value}
use msgpack.Dynamic.Canonical.{canonical}
use msgpack.Decoder.{Decoding, Bytes, has_flag}
use msgpack.Decoder.Read.{read_code}
use msgpack.Decoder.Word.{uint8, uint16, uint32, uint64, int8, int16, int32, int64}
use msgpack.Decoder.Dynamic.{Setup, interface_after, interface_fuel}
use msgpack.Encoder.{Encoding, use_compact_ints_flag}
use msgpack.Encoder.Number.{
  bytes16, bytes32, bytes64, encode_int, encode_int8, encode_int16, encode_int32, encode_int64,
  encode_int8_cond, encode_int16_cond, encode_int32_cond, encode_int64_cond,
}
use msgpack.Encoder.Value.{Width, word, bits8, bits16, bits32, bits64, FitsInt, encode_int_value}
use msgpack.Encoder.Dynamic.{encode}
use msgpack.RoundTrip.Runs.{Writes, Reads}
use msgpack.RoundTrip.Word.{Reads-uint8, Reads-uint16, Reads-uint32, Reads-uint64}
use msgpack.RoundTrip.Integer.{uint_form, int_form, Writes-encode_int}
use msgpack.RoundTrip.Kinds.{
  IsInt64-of_fits, wrap16_lt, wrap32_lt, wrap64_lt, fits8, fits16, fits32, fits64,
}
use msgpack.RoundTrip.Dynamic.Yields.{
  YieldsUnset, Yields-of_Reads, Yields-map, Yields-code, YieldsValue-suc, Emits,
}
use msgpack.RoundTrip.Dynamic.Leaves.{Sent}

-- The bytes are read as a value that stands for the integer.
abbrev pub Carries : Setup → ℕ → Bytes → ℤ → Type 0
Carries setup k bs z =
    (v : Value) × ((one : Decoding Value)
      → YieldsUnset k (read_code >>= interface_after setup one) bs v)
    × (canonical v ≡ Value.int word z)
    × (1 ≤ length bs)

module _ (setup : Setup) (k : ℕ) where
  -- A code, and a word that is read after it and taken as a number by `f`.
  pub coded :
      (c : ℕ) (bs : Bytes) (n : ℕ) (z : ℤ) (f : ℕ → Value)
      → ((one : Decoding Value) → YieldsUnset k (interface_after setup one c) bs (f n))
      → canonical (f n) ≡ Value.int word z
      → Carries setup k (c ∷ bs) z
  coded c bs n z f yields e = (
    f n,
    (λ one. Yields-code k (interface_after setup one) c bs (f n) (yields one)),
    e,
    omega arith,
  )

  pub read_word :
      (m : Decoding ℕ) (bs : Bytes) (n : ℕ) (f : ℕ → Value)
      → Reads m bs n
      → YieldsUnset k (m >>= λ x. ok (f x)) bs (f n)
  read_word m bs n f h = Yields-map k m f bs n (Yields-of_Reads k m bs n h)

  signed_word :
      (m : Decoding ℕ) (bs : Bytes) (n : ℕ) (narrow : ℕ → ℤ) (w : Width)
      → Reads m bs n
      → YieldsUnset k
          ((m >>= λ x. ok (narrow x)) >>= λ y. ok (Value.int w y))
          bs
          (Value.int w (narrow n))
  signed_word m bs n narrow w h =
      Yields-map k (m >>= λ x. ok (narrow x)) (Value.int w) bs (narrow n)
        (Yields-map k m narrow bs n (Yields-of_Reads k m bs n h))

  fixed : (c : ℕ) (z : ℤ) → is_fixed_num c ≡ true → signed 7 c ≡ z → Carries setup k (c ∷ []) z
  unfolding canonical interface_after
  fixed c z h e =
      coded c [] c z (λ x. Value.int bits8 (signed 7 x)) (λ one d _ _. rw h refl)
        (ap (Value.int word) e)

  pub Carries-uint_form : (n : ℕ) → n < 2 ^ 64 → Carries setup k (uint_form n) (pos n)
  unfolding uint_form canonical interface_after is_fixed_num is_fixed_map is_fixed_array
      is_fixed_string switch
  Carries-uint_form n h =
      let P = λ (bs : Bytes). Carries setup k bs (pos n) in
      if_cases P (leb n 127) (λ e. fixed n (pos n) (ground arith) (ground arith))
        λ _.
          if_cases P (leb n 255)
            (λ e.
              coded uint8_code (n ∷ []) n (pos n) (Value.uint bits8)
                (λ one. read_word uint8 (n ∷ []) n (Value.uint bits8) (Reads-uint8 n)) refl)
            λ _.
              if_cases P (leb n 65535)
                (λ e.
                  coded uint16_code (bytes16 n) n (pos n) (Value.uint bits16)
                    (λ one.
                      read_word uint16 (bytes16 n) n (Value.uint bits16)
                        (Reads-uint16 n (ground arith)))
                    refl)
                λ _.
                  if_cases P (leb n 4294967295)
                    (λ e.
                      coded uint32_code (bytes32 n) n (pos n) (Value.uint bits32)
                        (λ one.
                          read_word uint32 (bytes32 n) n (Value.uint bits32)
                            (Reads-uint32 n (ground arith)))
                        refl)
                    λ _.
                      coded uint64_code (bytes64 n) n (pos n) (Value.uint bits64)
                        (λ one.
                          read_word uint64 (bytes64 n) n (Value.uint bits64) (Reads-uint64 n h))
                        refl

  -- The signed words.
  signed8 : (n : ℕ) (z : ℤ) → signed 7 n ≡ z → Carries setup k (int8_code ∷ n ∷ []) z
  unfolding canonical interface_after is_fixed_num is_fixed_map is_fixed_array is_fixed_string
      switch int8
  signed8 n z e =
      coded int8_code (n ∷ []) n z (λ x. Value.int bits8 (signed 7 x))
        (λ one. signed_word uint8 (n ∷ []) n (signed 7) bits8 (Reads-uint8 n))
        (ap (Value.int word) e)

  signed16 :
      (n : ℕ) (z : ℤ) → n < 2 ^ 16 → signed 15 n ≡ z → Carries setup k (int16_code ∷ bytes16 n) z
  unfolding canonical interface_after is_fixed_num is_fixed_map is_fixed_array is_fixed_string
      switch int16
  signed16 n z h e =
      coded int16_code (bytes16 n) n z (λ x. Value.int bits16 (signed 15 x))
        (λ one. signed_word uint16 (bytes16 n) n (signed 15) bits16 (Reads-uint16 n h))
        (ap (Value.int word) e)

  signed32 :
      (n : ℕ) (z : ℤ) → n < 2 ^ 32 → signed 31 n ≡ z → Carries setup k (int32_code ∷ bytes32 n) z
  unfolding canonical interface_after is_fixed_num is_fixed_map is_fixed_array is_fixed_string
      switch int32
  signed32 n z h e =
      coded int32_code (bytes32 n) n z (λ x. Value.int bits32 (signed 31 x))
        (λ one. signed_word uint32 (bytes32 n) n (signed 31) bits32 (Reads-uint32 n h))
        (ap (Value.int word) e)

  signed64 :
      (n : ℕ) (z : ℤ) → n < 2 ^ 64 → signed 63 n ≡ z → Carries setup k (int64_code ∷ bytes64 n) z
  unfolding canonical interface_after is_fixed_num is_fixed_map is_fixed_array is_fixed_string
      switch int64
  signed64 n z h e =
      coded int64_code (bytes64 n) n z (λ x. Value.int bits64 (signed 63 x))
        (λ one. signed_word uint64 (bytes64 n) n (signed 63) bits64 (Reads-uint64 n h))
        (ap (Value.int word) e)

  Carries-int_form_neg : (m : ℕ) → m < 2 ^ 63 → Carries setup k (int_form (negsuc m)) (negsuc m)
  unfolding int_form is_fixed_num
  Carries-int_form_neg m h =
      let P = λ (bs : Bytes). Carries setup k bs (negsuc m) in
      if_cases P (leb m 31) (λ e. fixed (255 - m) (negsuc m) (ground arith) (ground arith))
        λ _.
          if_cases P (leb m 127) (λ e. signed8 (255 - m) (negsuc m) (ground arith))
            λ _.
              if_cases P (leb m 32767)
                (λ e. signed16 (65535 - m) (negsuc m) (ground arith) (ground arith))
                λ _.
                  if_cases P (leb m 2147483647)
                    (λ e. signed32 (4294967295 - m) (negsuc m) (ground arith) (ground arith))
                    λ _. signed64 (18446744073709551615 - m) (negsuc m) (omega arith) (ground arith)

  pub Carries-int_form : (z : ℤ) → IsInt64 z → Carries setup k (int_form z) z
  unfolding int_form
  Carries-int_form (pos n) h = Carries-uint_form n (omega arith)
  Carries-int_form (negsuc m) h = Carries-int_form_neg m h

-- An integer that is written in the shortest form, or with its type.
abbrev pub SentInt : Setup → ℕ → ℕ → Encoding (Unit {0}) → ℤ → Type 0
SentInt setup flags k m z = (bs : Bytes) × Emits flags m bs × Carries setup k bs z

module _ (setup : Setup) (flags k : ℕ) where
  pub either_form :
      (compact typed : Encoding (Unit {0})) (bs cs : Bytes) (z : ℤ)
      → Writes compact bs
      → Writes typed cs
      → Carries setup k bs z
      → Carries setup k cs z
      → SentInt setup flags k
          (λ e. if has_flag e.flags use_compact_ints_flag then compact e else typed e)
          z
  either_form compact typed bs cs z hb hc rb rc =
      elim (Bool-cases (has_flag flags use_compact_ints_flag)) [
        | inl on ↦
            (bs, (λ e hf _. rw (ap (λ f. has_flag f use_compact_ints_flag) hf ∙ on) (hb e)), rb)
        | inr off ↦
            (cs, (λ e hf _. rw (ap (λ f. has_flag f use_compact_ints_flag) hf ∙ off) (hc e)), rc)
      ]

  SentInt-encode_int_value :
      (w : Width) (z : ℤ) → FitsInt w z → SentInt setup flags k (encode_int_value w z) z
  unfolding encode_int_value encode_int8 encode_int8_cond encode_int16_cond encode_int32_cond
      encode_int64_cond
  SentInt-encode_int_value word z h =
      let fits = IsInt64-of_fits word z h in
      (int_form z, (λ e _ _. Writes-encode_int z fits e), Carries-int_form setup k z fits)
  SentInt-encode_int_value bits8 z h =
      let fits = IsInt64-of_fits bits8 z h in
      either_form (encode_int z) (encode_int8 z) (int_form z) (int8_code ∷ wrap 8 z ∷ []) z
        (Writes-encode_int z fits) (λ _. refl) (Carries-int_form setup k z fits)
        (signed8 setup k (wrap 8 z) z (fits8 z h))
  SentInt-encode_int_value bits16 z h =
      let fits = IsInt64-of_fits bits16 z h in
      either_form (encode_int z) (encode_int16 z) (int_form z) (int16_code ∷ bytes16 (wrap 16 z)) z
        (Writes-encode_int z fits) (λ _. refl) (Carries-int_form setup k z fits)
        (signed16 setup k (wrap 16 z) z (wrap16_lt z) (fits16 z h))
  SentInt-encode_int_value bits32 z h =
      let fits = IsInt64-of_fits bits32 z h in
      either_form (encode_int z) (encode_int32 z) (int_form z) (int32_code ∷ bytes32 (wrap 32 z)) z
        (Writes-encode_int z fits) (λ _. refl) (Carries-int_form setup k z fits)
        (signed32 setup k (wrap 32 z) z (wrap32_lt z) (fits32 z h))
  SentInt-encode_int_value bits64 z h =
      let fits = IsInt64-of_fits bits64 z h in
      either_form (encode_int z) (encode_int64 z) (int_form z) (int64_code ∷ bytes64 (wrap 64 z)) z
        (Writes-encode_int z fits) (λ _. refl) (Carries-int_form setup k z fits)
        (signed64 setup k (wrap 64 z) z (wrap64_lt z) (fits64 z h))

  pub Sent-int : (w : Width) (z : ℤ) → FitsInt w z → Sent setup flags (suc k) (Value.int w z)
  unfolding encode canonical
  Sent-int w z h =
      let (bs, emits, (v, yields, e, l)) = SentInt-encode_int_value w z h in
      (
        bs,
        v,
        emits,
        YieldsValue-suc setup k bs v (λ fuel _. yields (interface_fuel setup fuel)),
        e,
        l,
      )
