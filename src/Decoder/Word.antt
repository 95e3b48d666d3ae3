-- ===== src/Decoder/Word.antt =====
-- pkg/msgpack/decode_number.go: big-endian words of 8 to 64 bits.
use msgpack.Prelude.{ℕ, ◌*◌, ◌^◌, ◌%◌, bit_or, get_or}
use msgpack.Prelude.Int.{ℤ, signed}
use msgpack.Outcome.{◌>>=◌, pure}
use msgpack.Decoder.{Decoding, Bytes}
use msgpack.Decoder.Read.{read_code, read_n}

-- `uintw(b[i]) << k`
abbrev lane : ℕ → Bytes → ℕ → ℕ → ℕ
lane w b i k = get_or b i 0 * 2 ^ k % 2 ^ w

unfoldable pub uint8 : Decoding ℕ
uint8 = do c ← read_code; pure c

unfoldable pub int8 : Decoding ℤ
int8 = do n ← uint8; pure (signed 7 n)

unfoldable pub uint16 : Decoding ℕ
uint16 = do b ← read_n 2; pure (bit_or (lane 16 b 0 8) (get_or b 1 0))

unfoldable pub int16 : Decoding ℤ
int16 = do n ← uint16; pure (signed 15 n)

abbrev pub word32 : Bytes → ℕ
word32 b = bit_or (bit_or (bit_or (lane 32 b 0 24) (lane 32 b 1 16)) (lane 32 b 2 8)) (get_or b 3 0)

unfoldable pub uint32 : Decoding ℕ
uint32 = do b ← read_n 4; pure (word32 b)

unfoldable pub int32 : Decoding ℤ
int32 = do n ← uint32; pure (signed 31 n)

abbrev pub word64 : Bytes → ℕ
word64 b =
    let hi =
      bit_or (bit_or (bit_or (lane 64 b 0 56) (lane 64 b 1 48)) (lane 64 b 2 40))
        (lane 64 b 3 32) in
    bit_or (bit_or (bit_or (bit_or hi (lane 64 b 4 24)) (lane 64 b 5 16)) (lane 64 b 6 8))
      (get_or b 7 0)

unfoldable pub uint64 : Decoding ℕ
uint64 = do b ← read_n 8; pure (word64 b)

unfoldable pub int64 : Decoding ℤ
int64 = do n ← uint64; pure (signed 63 n)
