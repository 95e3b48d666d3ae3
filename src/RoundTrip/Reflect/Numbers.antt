-- ===== src/RoundTrip/Reflect/Numbers.antt =====
-- Booleans and numbers.
use msgpack.Prelude.{ℕ, ◌^◌, ◌<◌, ◌≡◌, refl, ap, Bool, true, false, [], ◌∷◌, leb, arith, if_cases}
use msgpack.Prelude.Int.{ℤ, pos, negsuc, wrap}
use msgpack.Float.{Platform}
use msgpack.Wire.Code.{
  true_code, false_code, float_code, double_code, uint8_code, uint16_code, uint32_code, uint64_code,
  int8_code, int16_code, int32_code, int64_code,
}
use msgpack.Decoder.Number.{decode_int64, decode_uint64}
use msgpack.Decoder.Float.{float32_bits, float64_bits, decode_float32, decode_float64}
use msgpack.Decoder.Dynamic.{bool, decode_bool}
use msgpack.Decoder.Reflect.{set_int, set_uint}
use msgpack.Encoder.{write, write_code}
use msgpack.Encoder.Number.{
  bytes16, bytes32, bytes64, write4, write8, encode_uint, encode_int, encode_int8, encode_int16,
  encode_int32, encode_int64, encode_int8_cond, encode_int16_cond, encode_int32_cond,
  encode_int64_cond, encode_uint8, encode_uint16, encode_uint32, encode_uint64, encode_uint8_cond,
  encode_uint16_cond, encode_uint32_cond, encode_uint64_cond,
}
use msgpack.Encoder.Value.{
  Width, word, bits8, bits16, bits32, bits64, FitsInt, FitsUint, encode_int_value,
  encode_uint_value,
}
use msgpack.Encoder.Float.{encode_float32, encode_float64}
use msgpack.Encoder.Text.{encode_bool}
use msgpack.Reflect.{Object}
use msgpack.RoundTrip.Runs.{Reads-code, Reads-pure}
use msgpack.RoundTrip.Word.{Reads-uint32, Reads-uint64}
use msgpack.RoundTrip.Integer.{
  uint_form, int_form, Writes-encode_uint, Writes-encode_int, Reads-uint_form, Reads-int_form,
}
use msgpack.RoundTrip.Kinds.{
  IsInt64-of_fits, wrap16_lt, wrap32_lt, wrap64_lt, fits8, fits16, fits32, fits64, Reads-int8,
  Reads-int16, Reads-int32, Reads-int64, Reads-typed_uint8, Reads-typed_uint16, Reads-typed_uint32,
  Reads-typed_uint64,
}
use msgpack.RoundTrip.Dynamic.Yields.{Yields-of_Reads}
use msgpack.RoundTrip.Dynamic.Leaves.{IsDirect}
use msgpack.RoundTrip.Reflect.Transfers.{NotNil, Transfers, Transfers-one, Transfers-either}

NotNil-uint_form : (n : ℕ) → NotNil (uint_form n)
unfolding uint_form
NotNil-uint_form n =
    if_cases NotNil (leb n 127) (λ t. ground (arith, t))
      λ _.
        if_cases NotNil (leb n 255) (λ _. refl)
          λ _.
            if_cases NotNil (leb n 65535) (λ _. refl)
              λ _. if_cases NotNil (leb n 4294967295) (λ _. refl) (λ _. refl)

NotNil-int_form : (z : ℤ) → NotNil (int_form z)
unfolding int_form
NotNil-int_form (pos n) = NotNil-uint_form n
NotNil-int_form (negsuc m) =
    if_cases NotNil (leb m 31) (λ t. ground (arith, t))
      λ _.
        if_cases NotNil (leb m 127) (λ _. refl)
          λ _.
            if_cases NotNil (leb m 32767) (λ _. refl)
              λ _. if_cases NotNil (leb m 2147483647) (λ _. refl) (λ _. refl)

module _ (cpu : Platform) (flags k : ℕ) where
  pub Transfers-int :
      (w : Width) (z : ℤ)
      → FitsInt w z
      → Transfers flags k (encode_int_value w z) (decode_int64 cpu) z true
  unfolding encode_int_value encode_int8 encode_int8_cond encode_int16_cond encode_int32_cond
      encode_int64_cond
  Transfers-int word z h =
      let fits = IsInt64-of_fits word z h in
      Transfers-one flags k (decode_int64 cpu) z (encode_int z) (int_form z)
        (Writes-encode_int z fits) (Reads-int_form cpu z fits) (NotNil-int_form z)
  Transfers-int bits8 z h =
      let fits = IsInt64-of_fits bits8 z h in
      Transfers-either flags k (decode_int64 cpu) z (encode_int z) (encode_int8 z) (int_form z)
        (int8_code ∷ wrap 8 z ∷ []) (Writes-encode_int z fits) (λ _. refl)
        (Reads-int_form cpu z fits) (Reads-int8 cpu z (fits8 z h)) (NotNil-int_form z) refl
  Transfers-int bits16 z h =
      let fits = IsInt64-of_fits bits16 z h in
      Transfers-either flags k (decode_int64 cpu) z (encode_int z) (encode_int16 z) (int_form z)
        (int16_code ∷ bytes16 (wrap 16 z)) (Writes-encode_int z fits) (λ _. refl)
        (Reads-int_form cpu z fits) (Reads-int16 cpu z (wrap16_lt z) (fits16 z h))
        (NotNil-int_form z) refl
  Transfers-int bits32 z h =
      let fits = IsInt64-of_fits bits32 z h in
      Transfers-either flags k (decode_int64 cpu) z (encode_int z) (encode_int32 z) (int_form z)
        (int32_code ∷ bytes32 (wrap 32 z)) (Writes-encode_int z fits) (λ _. refl)
        (Reads-int_form cpu z fits) (Reads-int32 cpu z (wrap32_lt z) (fits32 z h))
        (NotNil-int_form z) refl
  Transfers-int bits64 z h =
      let fits = IsInt64-of_fits bits64 z h in
      Transfers-either flags k (decode_int64 cpu) z (encode_int z) (encode_int64 z) (int_form z)
        (int64_code ∷ bytes64 (wrap 64 z)) (Writes-encode_int z fits) (λ _. refl)
        (Reads-int_form cpu z fits) (Reads-int64 cpu z (wrap64_lt z) (fits64 z h))
        (NotNil-int_form z) refl

  pub Transfers-uint :
      (w : Width) (n : ℕ)
      → FitsUint w n
      → Transfers flags k (encode_uint_value w n) (decode_uint64 cpu) n true
  unfolding encode_uint_value encode_uint8 encode_uint16 encode_uint32 encode_uint64
      encode_uint8_cond encode_uint16_cond encode_uint32_cond encode_uint64_cond
  Transfers-uint word n h =
      Transfers-one flags k (decode_uint64 cpu) n (encode_uint n) (uint_form n)
        (Writes-encode_uint n h) (Reads-uint_form cpu n h) (NotNil-uint_form n)
  Transfers-uint bits8 n h =
      let fits : n < 2 ^ 64 = omega (arith, h) in
      Transfers-either flags k (decode_uint64 cpu) n (encode_uint n) (encode_uint8 n) (uint_form n)
        (uint8_code ∷ n ∷ []) (Writes-encode_uint n fits) (λ _. refl) (Reads-uint_form cpu n fits)
        (Reads-typed_uint8 cpu n) (NotNil-uint_form n) refl
  Transfers-uint bits16 n h =
      let fits : n < 2 ^ 64 = omega (arith, h) in
      Transfers-either flags k (decode_uint64 cpu) n (encode_uint n) (encode_uint16 n) (uint_form n)
        (uint16_code ∷ bytes16 n) (Writes-encode_uint n fits) (λ _. refl)
        (Reads-uint_form cpu n fits) (Reads-typed_uint16 cpu n h) (NotNil-uint_form n) refl
  Transfers-uint bits32 n h =
      let fits : n < 2 ^ 64 = omega (arith, h) in
      Transfers-either flags k (decode_uint64 cpu) n (encode_uint n) (encode_uint32 n) (uint_form n)
        (uint32_code ∷ bytes32 n) (Writes-encode_uint n fits) (λ _. refl)
        (Reads-uint_form cpu n fits) (Reads-typed_uint32 cpu n h) (NotNil-uint_form n) refl
  Transfers-uint bits64 n h =
      Transfers-either flags k (decode_uint64 cpu) n (encode_uint n) (encode_uint64 n) (uint_form n)
        (uint64_code ∷ bytes64 n) (Writes-encode_uint n h) (λ _. refl) (Reads-uint_form cpu n h)
        (Reads-typed_uint64 cpu n h) (NotNil-uint_form n) refl

  pub Transfers-float32 :
      (n : ℕ)
      → IsDirect flags
      → n < 2 ^ 32
      → Transfers flags k (encode_float32 cpu n) (decode_float32 cpu) n true
  unfolding encode_float32 write4 write decode_float32 float32_bits
  Transfers-float32 n p h = record {
    form = float_code ∷ bytes32 n;
    emits = λ s hf _. rw (hf, p.no_compact) refl;
    yields =
        Yields-of_Reads k (decode_float32 cpu) (float_code ∷ bytes32 n) n
          (Reads-code (float32_bits cpu) float_code (bytes32 n) n (Reads-uint32 n h));
    not_nil = λ _. refl;
    not_empty = omega arith;
  }

  pub Transfers-float64 :
      (n : ℕ)
      → IsDirect flags
      → n < 2 ^ 64
      → Transfers flags k (encode_float64 cpu n) (decode_float64 cpu) n true
  unfolding encode_float64 write8 write decode_float64 float64_bits
  Transfers-float64 n p h = record {
    form = double_code ∷ bytes64 n;
    emits = λ s hf _. rw (hf, p.no_compact) refl;
    yields =
        Yields-of_Reads k (decode_float64 cpu) (double_code ∷ bytes64 n) n
          (Reads-code (float64_bits cpu) double_code (bytes64 n) n (Reads-uint64 n h));
    not_nil = λ _. refl;
    not_empty = omega arith;
  }

pub Transfers-bool : (flags k : ℕ) (b : Bool) → Transfers flags k (encode_bool b) decode_bool b true
unfolding encode_bool write_code write decode_bool bool
Transfers-bool flags k true =
    Transfers-one flags k decode_bool true (encode_bool true) (true_code ∷ []) (λ _. refl)
      (Reads-code bool true_code [] true (Reads-pure true)) refl
Transfers-bool flags k false =
    Transfers-one flags k decode_bool false (encode_bool false) (false_code ∷ []) (λ _. refl)
      (Reads-code bool false_code [] false (Reads-pure false)) refl

-- A value that fits its kind is stored as it is.
pub set_int_lem : (w : Width) (z : ℤ) → FitsInt w z → set_int w z ≡ Object.int z
unfolding set_int
set_int_lem word z h = ap Object.int (fits64 z (fits_word z h))
  where
    fits_word : (z : ℤ) → FitsInt word z → FitsInt bits64 z
    fits_word (pos n) h = h
    fits_word (negsuc n) h = h
set_int_lem bits8 z h = ap Object.int (fits8 z h)
set_int_lem bits16 z h = ap Object.int (fits16 z h)
set_int_lem bits32 z h = ap Object.int (fits32 z h)
set_int_lem bits64 z h = ap Object.int (fits64 z h)

pub set_uint_lem : (w : Width) (n : ℕ) → FitsUint w n → set_uint w n ≡ Object.uint n
unfolding set_uint
set_uint_lem word n h = ap Object.uint (omega (arith, h))
set_uint_lem bits8 n h = ap Object.uint (omega (arith, h))
set_uint_lem bits16 n h = ap Object.uint (omega (arith, h))
set_uint_lem bits32 n h = ap Object.uint (omega (arith, h))
set_uint_lem bits64 n h = ap Object.uint (omega (arith, h))
