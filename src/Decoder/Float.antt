-- ===== src/Decoder/Float.antt =====
-- pkg/msgpack/decode_number.go: floats, as their bits. A number of another type is rounded.
use msgpack.Prelude.{ℕ, ◌==◌, if◌then◌else◌}
use msgpack.Outcome.{Error, Outcome, ok, err, stuck, ◌>>=◌, pure}
use msgpack.Wire.Code.{float_code, double_code}
use msgpack.Float.{Platform, widen, float32_of_int, float64_of_int}
use msgpack.Decoder.{Decoder, Decoding}
use msgpack.Decoder.Read.{read_code}
use msgpack.Decoder.Word.{uint32, uint64}
use msgpack.Decoder.Number.{int}

-- Every error of `int` is replaced by one that shows the code.
abbrev pub or_invalid : {A : Type 0} → ℕ → Outcome Decoder A → Outcome Decoder A
or_invalid c (ok a d) = ok a d
or_invalid c (err e d) = err (Error.invalid_code c) d
or_invalid c stuck = stuck

module _ (cpu : Platform) where
  -- The method `float32`, after the leading byte.
  unfoldable pub float32_bits : ℕ → Decoding ℕ
  float32_bits c =
      if c == float_code
      then uint32
      else (do n ← (λ d. or_invalid c (int cpu c d)); pure (float32_of_int n))

  unfoldable pub decode_float32 : Decoding ℕ
  decode_float32 = do c ← read_code; float32_bits c

  -- The method `float64`, after the leading byte.
  unfoldable pub float64_bits : ℕ → Decoding ℕ
  unfolding float32_bits
  float64_bits c =
      if c == float_code
      then (do n ← float32_bits c; pure (widen n))
      else if c == double_code
      then uint64
      else (do n ← (λ d. or_invalid c (int cpu c d)); pure (float64_of_int n))

  unfoldable pub decode_float64 : Decoding ℕ
  decode_float64 = do c ← read_code; float64_bits c
