-- ===== src/RoundTrip/Word.antt =====
-- Big-endian words: what the encoder's lanes hold, the decoder's shifts and `|` put together.
use msgpack.Prelude.{ℕ, ◌+◌, ◌*◌, ◌^◌, ◌<◌, ◌/◌, ◌%◌, ◌≡◌, ◌∙◌, ◌∷◌, [], bit_or, arith}
use msgpack.Bits.{bit_or_multiple}
use msgpack.Decoder.Word.{uint8, uint16, uint32, uint64, word32, word64}
use msgpack.Encoder.Number.{bytes16, bytes32, bytes64}
use msgpack.RoundTrip.Runs.{Reads, Reads-read_code, Reads-read_n}

-- The sum of two lanes, the higher one shifted by at least `k`.
join : (k q a b n : ℕ) → a ≡ q * 2 ^ k → b < 2 ^ k → a + b ≡ n → bit_or a b ≡ n
join k q a b n ha hb e = bit_or_multiple k q a b ha hb ∙ e

word16_bytes :
    (n : ℕ) → n < 2 ^ 16 → bit_or (n / 2 ^ 8 % 256 * 2 ^ 8 % 2 ^ 16) (n / 2 ^ 0 % 256) ≡ n
word16_bytes n h = join 8 (n / 2 ^ 8) _ _ _ (omega arith) (omega arith) (omega arith)

-- The bits of `n` from `k` upwards.
abbrev upper : ℕ → ℕ → ℕ
upper n k = n / 2 ^ k * 2 ^ k

lane16_of_32 :
    (n : ℕ) → n < 2 ^ 32 → bit_or (upper n 24) (n / 2 ^ 16 % 256 * 2 ^ 16 % 2 ^ 32) ≡ upper n 16
lane16_of_32 n h = join 24 (n / 2 ^ 24) _ _ _ (omega arith) (omega arith) (omega arith)

lane8_of_32 :
    (n : ℕ) → n < 2 ^ 32 → bit_or (upper n 16) (n / 2 ^ 8 % 256 * 2 ^ 8 % 2 ^ 32) ≡ upper n 8
lane8_of_32 n h = join 16 (n / 2 ^ 16) _ _ _ (omega arith) (omega arith) (omega arith)

lane48_of_64 :
    (n : ℕ) → n < 2 ^ 64 → bit_or (upper n 56) (n / 2 ^ 48 % 256 * 2 ^ 48 % 2 ^ 64) ≡ upper n 48
lane48_of_64 n h = join 56 (n / 2 ^ 56) _ _ _ (omega arith) (omega arith) (omega arith)

lane40_of_64 :
    (n : ℕ) → n < 2 ^ 64 → bit_or (upper n 48) (n / 2 ^ 40 % 256 * 2 ^ 40 % 2 ^ 64) ≡ upper n 40
lane40_of_64 n h = join 48 (n / 2 ^ 48) _ _ _ (omega arith) (omega arith) (omega arith)

lane32_of_64 :
    (n : ℕ) → n < 2 ^ 64 → bit_or (upper n 40) (n / 2 ^ 32 % 256 * 2 ^ 32 % 2 ^ 64) ≡ upper n 32
lane32_of_64 n h = join 40 (n / 2 ^ 40) _ _ _ (omega arith) (omega arith) (omega arith)

lane24_of_64 :
    (n : ℕ) → n < 2 ^ 64 → bit_or (upper n 32) (n / 2 ^ 24 % 256 * 2 ^ 24 % 2 ^ 64) ≡ upper n 24
lane24_of_64 n h = join 32 (n / 2 ^ 32) _ _ _ (omega arith) (omega arith) (omega arith)

lane16_of_64 :
    (n : ℕ) → n < 2 ^ 64 → bit_or (upper n 24) (n / 2 ^ 16 % 256 * 2 ^ 16 % 2 ^ 64) ≡ upper n 16
lane16_of_64 n h = join 24 (n / 2 ^ 24) _ _ _ (omega arith) (omega arith) (omega arith)

lane8_of_64 :
    (n : ℕ) → n < 2 ^ 64 → bit_or (upper n 16) (n / 2 ^ 8 % 256 * 2 ^ 8 % 2 ^ 64) ≡ upper n 8
lane8_of_64 n h = join 16 (n / 2 ^ 16) _ _ _ (omega arith) (omega arith) (omega arith)

lane0 : (n : ℕ) → bit_or (upper n 8) (n / 2 ^ 0 % 256) ≡ n
lane0 n = join 8 (n / 2 ^ 8) _ _ _ (omega arith) (omega arith) (omega arith)

top32 : (n : ℕ) → n < 2 ^ 32 → n / 2 ^ 24 % 256 * 2 ^ 24 % 2 ^ 32 ≡ upper n 24
top32 n h = omega arith

pub word32_bytes : (n : ℕ) → n < 2 ^ 32 → word32 (bytes32 n) ≡ n
word32_bytes n h = rw (top32 n h, lane16_of_32 n h, lane8_of_32 n h) (lane0 n)

top64 : (n : ℕ) → n < 2 ^ 64 → n / 2 ^ 56 % 256 * 2 ^ 56 % 2 ^ 64 ≡ upper n 56
top64 n h = omega arith

pub word64_bytes : (n : ℕ) → n < 2 ^ 64 → word64 (bytes64 n) ≡ n
word64_bytes n h =
    rw
      (
        top64 n h,
        lane48_of_64 n h,
        lane40_of_64 n h,
        lane32_of_64 n h,
        lane24_of_64 n h,
        lane16_of_64 n h,
        lane8_of_64 n h,
      )
      (lane0 n)

pub Reads-uint8 : (n : ℕ) → Reads uint8 (n ∷ []) n
unfolding uint8
Reads-uint8 n d a = rw (Reads-read_code n d a)

pub Reads-uint16 : (n : ℕ) → n < 2 ^ 16 → Reads uint16 (bytes16 n) n
unfolding uint16
Reads-uint16 n h d a = rw (Reads-read_n (bytes16 n) d a, word16_bytes n h)

pub Reads-uint32 : (n : ℕ) → n < 2 ^ 32 → Reads uint32 (bytes32 n) n
unfolding uint32
Reads-uint32 n h d a = rw (Reads-read_n (bytes32 n) d a, word32_bytes n h)

pub Reads-uint64 : (n : ℕ) → n < 2 ^ 64 → Reads uint64 (bytes64 n) n
unfolding uint64
Reads-uint64 n h d a = rw (Reads-read_n (bytes64 n) d a, word64_bytes n h)
