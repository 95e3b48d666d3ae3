-- ===== src/Decoder/Number.antt =====
-- pkg/msgpack/decode_number.go: any wire number read as a Go integer.
use msgpack.Prelude.{ℕ, ◌^◌, ◌%◌, ◌||◌, ◌&&◌, not, [], ◌∷◌, ltb, ◌==◌, if◌then◌else◌}
use msgpack.Prelude.Int.{ℤ, pos, signed, wrap}
use msgpack.Outcome.{Error, switch, ◌>>=◌, pure, fail}
use msgpack.Wire.Code.{
  nil_code, is_fixed_num, uint8_code, uint16_code, uint32_code, uint64_code, int8_code, int16_code,
  int32_code, int64_code, float_code, double_code,
}
use msgpack.Float.{
  Float, not_finite, finite, float64_from_bits, float32_from_bits, magnitude, is_integral, Platform,
  to_uint64, to_int64,
}
use msgpack.Decoder.{Decoding}
use msgpack.Decoder.Read.{read_code}
use msgpack.Decoder.Word.{uint8, int8, uint16, int16, uint32, int32, uint64}

-- `d.float64(c)` where c is Float or Double.
unfoldable pub float64 : ℕ → Decoding Float
float64 c =
    if c == float_code
    then (do n ← uint32; pure (float32_from_bits n))
    else (do n ← uint64; pure (float64_from_bits n))

module _ (cpu : Platform) where
  unfoldable pub uint64_of_float : ℕ → Float → Decoding ℕ
  unfolding magnitude is_integral to_uint64
  uint64_of_float c not_finite = fail (Error.not_a_uint64 c)
  uint64_of_float c (finite neg m e) =
      if not (is_integral m e) || neg && not (m == 0) || ltb (2 ^ 64) (magnitude m e)
      then fail (Error.not_a_uint64 c)
      else pure (to_uint64 cpu (magnitude m e))

  unfoldable pub int64_of_float : ℕ → Float → Decoding ℤ
  unfolding magnitude is_integral to_int64
  int64_of_float c not_finite = fail (Error.not_an_int64 c)
  int64_of_float c (finite neg m e) =
      if not (is_integral m e) || ltb (2 ^ 63) (magnitude m e)
      then fail (Error.not_an_int64 c)
      else pure (to_int64 cpu neg (magnitude m e))

  -- The method `uint`, after the leading byte.
  unfoldable pub uint : ℕ → Decoding ℕ
  uint c =
      if c == nil_code
      then pure 0
      else if is_fixed_num c
      then pure (wrap 64 (signed 7 c))
      else switch c
          ((uint8_code ∷ [], (do n ← uint8; pure n))
            ∷ (int8_code ∷ [], (do n ← int8; pure (wrap 64 n)))
            ∷ (uint16_code ∷ [], (do n ← uint16; pure n))
            ∷ (int16_code ∷ [], (do n ← int16; pure (wrap 64 n)))
            ∷ (uint32_code ∷ [], (do n ← uint32; pure n))
            ∷ (int32_code ∷ [], (do n ← int32; pure (wrap 64 n)))
            ∷ (uint64_code ∷ int64_code ∷ [], uint64)
            ∷ (float_code ∷ double_code ∷ [], (do f ← float64 c; uint64_of_float c f))
            ∷ [])
          (fail (Error.invalid_code c))

  unfoldable pub decode_uint64 : Decoding ℕ
  decode_uint64 = do c ← read_code; uint c

  -- The method `int`, after the leading byte.
  unfoldable pub int : ℕ → Decoding ℤ
  int c =
      if c == nil_code
      then pure (pos 0)
      else if is_fixed_num c
      then pure (signed 7 c)
      else switch c
          ((uint8_code ∷ [], (do n ← uint8; pure (pos n)))
            ∷ (int8_code ∷ [], (do n ← uint8; pure (signed 7 n)))
            ∷ (uint16_code ∷ [], (do n ← uint16; pure (pos n)))
            ∷ (int16_code ∷ [], (do n ← uint16; pure (signed 15 n)))
            ∷ (uint32_code ∷ [], (do n ← uint32; pure (pos n)))
            ∷ (int32_code ∷ [], (do n ← uint32; pure (signed 31 n)))
            ∷ (uint64_code ∷ int64_code ∷ [], (do n ← uint64; pure (signed 63 n)))
            ∷ (float_code ∷ double_code ∷ [], (do f ← float64 c; int64_of_float c f))
            ∷ [])
          (fail (Error.invalid_code c))

  unfoldable pub decode_int64 : Decoding ℤ
  decode_int64 = do c ← read_code; int c

  -- The narrow decoders keep the low bits of the 64-bit number.
  unfoldable pub decode_uint8 : Decoding ℕ
  decode_uint8 = do n ← decode_uint64; pure (n % 2 ^ 8)

  unfoldable pub decode_uint16 : Decoding ℕ
  decode_uint16 = do n ← decode_uint64; pure (n % 2 ^ 16)

  unfoldable pub decode_uint32 : Decoding ℕ
  decode_uint32 = do n ← decode_uint64; pure (n % 2 ^ 32)

  unfoldable pub decode_uint : Decoding ℕ
  decode_uint = do n ← decode_uint64; pure n

  unfoldable pub decode_int8 : Decoding ℤ
  decode_int8 = do n ← decode_int64; pure (signed 7 (wrap 8 n))

  unfoldable pub decode_int16 : Decoding ℤ
  decode_int16 = do n ← decode_int64; pure (signed 15 (wrap 16 n))

  unfoldable pub decode_int32 : Decoding ℤ
  decode_int32 = do n ← decode_int64; pure (signed 31 (wrap 32 n))

  unfoldable pub decode_int : Decoding ℤ
  decode_int = do n ← decode_int64; pure n
