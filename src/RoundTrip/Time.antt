-- ===== src/RoundTrip/Time.antt =====
-- A time is read back from the extension that the encoder writes for it.
use msgpack.Prelude.{
  ℕ, ◌+◌, ◌*◌, ◌/◌, ◌%◌, ◌^◌, ◌<◌, ◌≡◌, ◌∙◌, refl, sym, ap, ◌++◌, true, ◌==◌, arith, length,
  if_cases, bit_and, bit_or,
}
use mathlib.Core.Path.{subst}
use msgpack.Prelude.Int.{ℤ, pos, negsuc, wrap, signed, IsInt64, signed-wrap}
use msgpack.Bits.{bit_or_shifted}
use msgpack.Bits.Masks.{bit_and_low, bit_and_high}
use msgpack.Outcome.{ok, switch}
use msgpack.Decoder.{Decoder, Bytes}
use msgpack.Decoder.Word.{word32}
use msgpack.Decoder.Time.{time_of_bytes}
use msgpack.Encoder.Number.{bytes32, bytes64}
use msgpack.Encoder.Time.{packed, packed_bytes, time_bytes}
use msgpack.RoundTrip.Word.{word32_bytes, word64_bytes}
use msgpack.Time.{Time, time_unix}

no_carry :
    (z : ℤ) (n : ℕ)
    → IsInt64 z
    → n < 1_000_000_000
    → (wrap 64 z + wrap 64 (pos (n / 1_000_000_000))) % 2 ^ 64 ≡ wrap 64 z
no_carry (pos m) n h small = omega arith
no_carry (negsuc m) n h small = omega arith

wrap_bound : (z : ℤ) → wrap 64 z < 2 ^ 64
wrap_bound (pos m) = omega arith
wrap_bound (negsuc m) = omega arith

halves : (w : ℕ) → w / 2 ^ 32 * 2 ^ 32 + w % 2 ^ 32 ≡ w
halves w = omega arith

-- time.Unix on less than a second of nanoseconds.
time_unix_small :
    (z : ℤ) (n : ℕ)
    → IsInt64 z
    → n < 1_000_000_000
    → time_unix z (pos n) ≡ record { unix = z; nanosecond = n }
time_unix_small z n h small =
    ap (λ t. record { unix = signed 63 t; nanosecond = n % 1_000_000_000 }) (no_carry z n h small)
    ∙ ap (λ t. record { unix = t; nanosecond = n % 1_000_000_000 }) (signed-wrap z h)
    ∙ ap (λ t. record { unix = z; nanosecond = t }) (omega arith)

packed_lem : (n s : ℕ) → n < 2 ^ 30 → s < 2 ^ 34 → packed n s ≡ n * 2 ^ 34 + s
packed_lem n s hn hs = ap (λ t. bit_or t s) (omega (arith, hn)) ∙ bit_or_shifted 34 n s hs

-- The test of the upper half of a word.
low_word : (w : ℕ) → w < 2 ^ 64 → bit_and w 0xffff_ffff_0000_0000 == 0 ≡ true → w < 2 ^ 32
low_word w h e = ground (
  arith,
  bit_and_high 32 0xffff_ffff (w / 2 ^ 32) (w % 2 ^ 32) (omega arith),
  bit_and_low 32 0xffff_ffff 0 (w / 2 ^ 32) refl (omega arith),
  ap (λ t. bit_and t 0xffff_ffff_0000_0000) (halves w),
)

-- What a body says, whatever the decoder.
abbrev pub Says : Time → Bytes → Type 0
Says tm b = (d : Decoder) → time_of_bytes b d ≡ ok tm d

says4 : (n : ℕ) → n < 2 ^ 32 → Says (record { unix = pos n; nanosecond = 0 }) (bytes32 n)
unfolding switch
says4 n h d =
    ap (λ t. ok (time_unix (pos t) (pos 0)) d) (word32_bytes n h)
    ∙ ap (λ t. ok t d) (time_unix_small (pos n) 0 (omega arith) (omega arith))

says8 :
    (n s : ℕ)
    → n < 1_000_000_000
    → s < 2 ^ 34
    → Says (record { unix = pos s; nanosecond = n }) (bytes64 (n * 2 ^ 34 + s))
unfolding switch
says8 n s hn hs d =
    ap (λ t. ok (time_unix (pos (bit_and t 0x3_ffff_ffff)) (pos (t / 2 ^ 34))) d)
      (word64_bytes (n * 2 ^ 34 + s) (omega arith))
    ∙ ap (λ t. ok (time_unix (pos t) (pos ((n * 2 ^ 34 + s) / 2 ^ 34))) d)
        (bit_and_low 34 0x3_ffff_ffff n s refl hs)
    ∙ ap (λ t. ok (time_unix (pos s) (pos t)) d) (omega (arith, hs))
    ∙ ap (λ t. ok t d) (time_unix_small (pos s) n (omega arith) hn)

says12 :
    (n : ℕ) (z : ℤ)
    → n < 1_000_000_000
    → IsInt64 z
    → Says (record { unix = z; nanosecond = n }) (bytes32 n ++ bytes64 (wrap 64 z))
unfolding switch
says12 n z hn hz d =
    ap (λ t. ok (time_unix (signed 63 t) (pos (word32 (bytes32 n)))) d)
      (word64_bytes (wrap 64 z) (wrap_bound z))
    ∙ ap (λ t. ok (time_unix t (pos (word32 (bytes32 n)))) d) (signed-wrap z hz)
    ∙ ap (λ t. ok (time_unix z (pos t)) d) (word32_bytes n (omega arith))
    ∙ ap (λ t. ok t d) (time_unix_small z n hz hn)

pub data Carried (tm : Time) (b : Bytes) : Type 0 where
  four : length b ≡ 4 → Says tm b → Carried tm b
  eight : length b ≡ 8 → Says tm b → Carried tm b
  twelve : length b ≡ 12 → Says tm b → Carried tm b

module _ (n : ℕ) (small : n < 1_000_000_000) where
  four_case :
      (m : ℕ)
      → m < 2 ^ 34
      → n * 2 ^ 34 + m < 2 ^ 32
      → Carried (record { unix = pos m; nanosecond = n }) (bytes32 ((n * 2 ^ 34 + m) % 2 ^ 32))
  four_case m h w =
      subst
        (λ t.
          Carried (record { unix = pos m; nanosecond = t }) (bytes32 ((n * 2 ^ 34 + m) % 2 ^ 32)))
        (omega (arith, w))
        (subst (λ t. Carried (record { unix = pos m; nanosecond = 0 }) (bytes32 t))
          (omega (arith, w)) (four refl (says4 m (omega (arith, w)))))

  Carried-packed :
      (m : ℕ)
      → m < 2 ^ 34
      → Carried (record { unix = pos m; nanosecond = n }) (packed_bytes (packed n m))
  Carried-packed m h =
      subst (λ t. Carried (record { unix = pos m; nanosecond = n }) (packed_bytes t))
        (sym (packed_lem n m (omega arith) h))
        (if_cases (Carried (record { unix = pos m; nanosecond = n }))
          (bit_and (n * 2 ^ 34 + m) 0xffff_ffff_0000_0000 == 0)
          (λ t. four_case m h (low_word (n * 2 ^ 34 + m) (omega arith) t))
          (λ _. eight refl (says8 n m small h)))

  Carried-long :
      (z : ℤ)
      → IsInt64 z
      → Carried (record { unix = z; nanosecond = n }) (bytes32 (n % 2 ^ 32) ++ bytes64 (wrap 64 z))
  Carried-long z h =
      subst (λ t. Carried (record { unix = z; nanosecond = n }) (bytes32 t ++ bytes64 (wrap 64 z)))
        (omega arith) (twelve refl (says12 n z small h))

  Carried-short :
      (z : ℤ)
      → IsInt64 z
      → wrap 64 z / 2 ^ 34 == 0 ≡ true
      → Carried (record { unix = z; nanosecond = n }) (packed_bytes (packed n (wrap 64 z)))
  Carried-short (pos m) h t =
      subst (λ s. Carried (record { unix = pos m; nanosecond = n }) (packed_bytes (packed n s)))
        (omega arith) (Carried-packed m (ground arith))
  Carried-short (negsuc m) h t = absurd (ground arith)

  pub Carried-time_bytes :
      (z : ℤ)
      → IsInt64 z
      → Carried
          (record { unix = z; nanosecond = n })
          (time_bytes (record { unix = z; nanosecond = n }))
  unfolding time_bytes
  Carried-time_bytes z h =
      if_cases (Carried (record { unix = z; nanosecond = n })) (wrap 64 z / 2 ^ 34 == 0)
        (Carried-short z h) (λ _. Carried-long z h)
