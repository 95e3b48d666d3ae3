-- ===== src/RoundTrip/Integer.antt =====
-- Integers of 64 bits in the shortest form, and integers with their type.
use msgpack.Prelude.{
  ℕ, ◌-◌, ◌%◌, ◌^◌, ◌<◌, ◌≤◌, ◌≡◌, refl, ◌∷◌, [], true, false, leb, if◌then◌else◌, arith, if_cases,
  if_cases₂,
}
use msgpack.Prelude.Int.{ℤ, pos, negsuc, wrap, signed, IsInt64, leb_ℤ}
use msgpack.Outcome.{switch}
use msgpack.Float.{Platform}
use msgpack.Wire.Code.{
  is_fixed_num, uint8_code, uint16_code, uint32_code, uint64_code, int8_code, int16_code,
  int32_code, int64_code,
}
use msgpack.Decoder.{Bytes}
use msgpack.Decoder.Word.{uint8, uint16, uint32, uint64}
use msgpack.Decoder.Number.{uint, int, decode_uint64, decode_int64}
use msgpack.Encoder.Number.{bytes16, bytes32, bytes64, encode_uint, encode_int}
use msgpack.RoundTrip.Runs.{Writes, Reads, Reads-code, Reads-map, Reads-pure}
use msgpack.RoundTrip.Word.{Reads-uint8, Reads-uint16, Reads-uint32, Reads-uint64}

-- The shortest wire form of a number that is not negative.
unfoldable pub uint_form : ℕ → Bytes
uint_form n =
    if leb n 127
    then n ∷ []
    else if leb n 255
    then uint8_code ∷ n ∷ []
    else if leb n 65535
    then uint16_code ∷ bytes16 n
    else if leb n 4294967295
    then uint32_code ∷ bytes32 n
    else uint64_code ∷ bytes64 n

pub Writes-encode_uint : (n : ℕ) → n < 2 ^ 64 → Writes (encode_uint n) (uint_form n)
unfolding encode_uint uint_form
Writes-encode_uint n h =
    if_cases₂ Writes (leb n 127) (λ e _. rw (low 8 (ground arith)))
      λ _.
        if_cases₂ Writes (leb n 255) (λ e _. rw (low 8 (ground arith)))
          λ _.
            if_cases₂ Writes (leb n 65535) (λ e _. rw (low 16 (ground arith)))
              λ _.
                if_cases₂ Writes (leb n 4294967295) (λ e _. rw (low 32 (ground arith))) λ _ _. refl
  where
    low : (w : ℕ) → n < 2 ^ w → n % 2 ^ w ≡ n
    low w h = grind arith

module _ (cpu : Platform) where
  Reads-uint_fixed : (n : ℕ) → n ≤ 127 → Reads (uint cpu n) [] n
  unfolding uint is_fixed_num
  Reads-uint_fixed n h d a = ground (arith, Reads-pure n d a)

  pub Reads-uint_form : (n : ℕ) → n < 2 ^ 64 → Reads (decode_uint64 cpu) (uint_form n) n
  unfolding decode_uint64 uint is_fixed_num switch uint_form
  Reads-uint_form n h =
      let P = λ (bs : Bytes). Reads (decode_uint64 cpu) bs n in
      let after = Reads-code (uint cpu) in
      if_cases P (leb n 127) (λ e. after n [] n (Reads-uint_fixed n (ground arith)))
        λ _.
          if_cases P (leb n 255)
            (λ e. after uint8_code _ n (Reads-map uint8 (λ x. x) _ n (Reads-uint8 n)))
            λ _.
              if_cases P (leb n 65535)
                (λ e.
                  after uint16_code _ n
                    (Reads-map uint16 (λ x. x) _ n (Reads-uint16 n (ground arith))))
                λ _.
                  if_cases P (leb n 4294967295)
                    (λ e.
                      after uint32_code _ n
                        (Reads-map uint32 (λ x. x) _ n (Reads-uint32 n (ground arith))))
                    λ _. after uint64_code _ n (Reads-uint64 n h)

-- The shortest wire form of an int64. The number -(m + 1) is `negsuc m`.
unfoldable pub int_form : ℤ → Bytes
unfolding uint_form
int_form (pos n) = uint_form n
int_form (negsuc m) =
    if leb m 31
    then (255 - m) ∷ []
    else if leb m 127
    then int8_code ∷ (255 - m) ∷ []
    else if leb m 32767
    then int16_code ∷ bytes16 (65535 - m)
    else if leb m 2147483647
    then int32_code ∷ bytes32 (4294967295 - m)
    else int64_code ∷ bytes64 (18446744073709551615 - m)

-- The complement of a small number, narrowed and widened again.
narrow8 : (m : ℕ) → m ≤ 127 → wrap 8 (signed 7 (wrap 8 (negsuc m))) ≡ 255 - m
narrow8 m h = ground arith

narrow5 : (m : ℕ) → m ≤ 31 → wrap 8 (negsuc m) ≡ 255 - m
narrow5 m h = ground arith

narrow16 : (m : ℕ) → m ≤ 32767 → wrap 16 (signed 15 (wrap 16 (negsuc m))) ≡ 65535 - m
narrow16 m h = ground arith

narrow32 : (m : ℕ) → m ≤ 2147483647 → wrap 32 (signed 31 (wrap 32 (negsuc m))) ≡ 4294967295 - m
narrow32 m h = ground arith

widest : (m : ℕ) → m < 2 ^ 63 → wrap 64 (negsuc m) ≡ 18446744073709551615 - m
widest m h = ground arith

-- The tests of EncodeInt.
test_pos : (n : ℕ) → leb_ℤ (pos 0) (pos n) ≡ true
test_pos n = ground arith

test_zero : (m : ℕ) → leb_ℤ (pos 0) (negsuc m) ≡ false
test_zero m = ground arith

test_neg : (k m : ℕ) → leb_ℤ (negsuc k) (negsuc m) ≡ leb m k
test_neg k m = ground arith

Writes-encode_int_neg : (m : ℕ) → m < 2 ^ 63 → Writes (encode_int (negsuc m)) (int_form (negsuc m))
unfolding encode_int int_form
Writes-encode_int_neg m h =
    rw (test_zero m, test_neg 31 m, test_neg 127 m, test_neg 32767 m, test_neg 2147483647 m)
      (if_cases₂ Writes (leb m 31) (λ e _. rw (narrow5 m (ground arith)))
        λ _.
          if_cases₂ Writes (leb m 127) (λ e _. rw (narrow8 m (ground arith)))
            λ _.
              if_cases₂ Writes (leb m 32767) (λ e _. rw (narrow16 m (ground arith)))
                λ _.
                  if_cases₂ Writes (leb m 2147483647) (λ e _. rw (narrow32 m (ground arith)))
                    λ _ _. rw (widest m h))

module _ (cpu : Platform) where
  Reads-int_fixed : (n : ℕ) → n ≤ 127 → Reads (int cpu n) [] (pos n)
  unfolding int is_fixed_num
  Reads-int_fixed n h d a = ground (arith, Reads-pure (pos n) d a)

  Reads-int_fixed_neg : (m : ℕ) → m ≤ 31 → Reads (int cpu (255 - m)) [] (negsuc m)
  unfolding int is_fixed_num
  Reads-int_fixed_neg m h d a = ground (arith, Reads-pure (negsuc m) d a)

  -- A word read and then taken as a signed number.
  pub as_signed :
      (f : ℕ → ℤ) (code n : ℕ) (bs : Bytes) (z : ℤ)
      → Reads (int cpu code) bs (f n)
      → f n ≡ z
      → Reads (decode_int64 cpu) (code ∷ bs) z
  unfolding decode_int64
  as_signed f code n bs z h e = Reads-code (int cpu) code bs z (rw e at h)

  Reads-int_form_pos : (n : ℕ) → n < 2 ^ 63 → Reads (decode_int64 cpu) (uint_form n) (pos n)
  unfolding int is_fixed_num switch uint_form
  Reads-int_form_pos n h =
      let P = λ (bs : Bytes). Reads (decode_int64 cpu) bs (pos n) in
      if_cases P (leb n 127) (λ e. as_signed pos n n [] _ (Reads-int_fixed n (ground arith)) refl)
        λ _.
          if_cases P (leb n 255)
            (λ e. as_signed pos uint8_code n _ _ (Reads-map uint8 pos _ n (Reads-uint8 n)) refl)
            λ _.
              if_cases P (leb n 65535)
                (λ e.
                  as_signed pos uint16_code n _ _
                    (Reads-map uint16 pos _ n (Reads-uint16 n (ground arith))) refl)
                λ _.
                  if_cases P (leb n 4294967295)
                    (λ e.
                      as_signed pos uint32_code n _ _
                        (Reads-map uint32 pos _ n (Reads-uint32 n (ground arith))) refl)
                    λ _.
                      as_signed (signed 63) uint64_code n _ _
                        (Reads-map uint64 (signed 63) _ n (Reads-uint64 n (omega arith)))
                        (ground arith)

  Reads-int_form_neg :
      (m : ℕ) → m < 2 ^ 63 → Reads (decode_int64 cpu) (int_form (negsuc m)) (negsuc m)
  unfolding int is_fixed_num switch int_form
  Reads-int_form_neg m h =
      let P = λ (bs : Bytes). Reads (decode_int64 cpu) bs (negsuc m) in
      if_cases P (leb m 31)
        (λ e.
          as_signed (λ _. negsuc m) (255 - m) m [] _ (Reads-int_fixed_neg m (ground arith)) refl)
        λ _.
          if_cases P (leb m 127)
            (λ e.
              as_signed (signed 7) int8_code (255 - m) _ _
                (Reads-map uint8 (signed 7) _ _ (Reads-uint8 (255 - m))) (ground arith))
            λ _.
              if_cases P (leb m 32767)
                (λ e.
                  as_signed (signed 15) int16_code (65535 - m) _ _
                    (Reads-map uint16 (signed 15) _ _ (Reads-uint16 _ (ground arith)))
                    (ground arith))
                λ _.
                  if_cases P (leb m 2147483647)
                    (λ e.
                      as_signed (signed 31) int32_code (4294967295 - m) _ _
                        (Reads-map uint32 (signed 31) _ _ (Reads-uint32 _ (ground arith)))
                        (ground arith))
                    λ _.
                      as_signed (signed 63) int64_code (18446744073709551615 - m) _ _
                        (Reads-map uint64 (signed 63) _ _ (Reads-uint64 _ (omega arith)))
                        (ground arith)

  pub Reads-int_form : (z : ℤ) → IsInt64 z → Reads (decode_int64 cpu) (int_form z) z
  unfolding int_form
  Reads-int_form (pos n) h = Reads-int_form_pos n h
  Reads-int_form (negsuc m) h = Reads-int_form_neg m h

pub Writes-encode_int : (z : ℤ) → IsInt64 z → Writes (encode_int z) (int_form z)
unfolding encode_int int_form
Writes-encode_int (pos n) h e = rw (test_pos n, small) (Writes-encode_uint n (omega arith) e)
  where
    small : n % 2 ^ 64 ≡ n
    small = omega arith
Writes-encode_int (negsuc m) h e = Writes-encode_int_neg m h e
