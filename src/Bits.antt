-- ===== src/Bits.antt =====
-- Masks, shifts and `|` of disjoint fields, as the codec uses them on bytes and words.
pub mod Masks
use Prim.Native.Nat.{max, digits, bit_or-bitwise}
use native.Mathlib.Nat.{pow-suc}
use msgpack.Prelude.{
  ℕ, zero, suc, ◌+◌, ◌*◌, ◌/◌, ◌%◌, ◌^◌, ◌≤◌, ◌<◌, bit_and, bit_or, ◌≡◌, refl, ap, arith, Bool,
  true, ◌&&◌, ◌==◌,
}

-- A statement about a small number, checked at every value.
holds_below : ℕ → (ℕ → Bool) → Bool
holds_below zero p = true
holds_below (suc n) p = p n && holds_below n p

equal_below : (f g : ℕ → ℕ) (n x : ℕ) → holds_below n (λ y. f y == g y) ≡ true → x < n → f x ≡ g x
unfolding holds_below
equal_below f g zero x table h = absurd (omega arith)
equal_below f g (suc n) x table h = ground (arith, equal_below f g n x)

pub bit_and_31 : (c : ℕ) → c < 256 → bit_and c 0x1f ≡ c % 32
unfolding holds_below
bit_and_31 c = equal_below (λ y. bit_and y 0x1f) (λ y. y % 32) 256 c refl

pub bit_and_15 : (c : ℕ) → c < 256 → bit_and c 0x0f ≡ c % 16
unfolding holds_below
bit_and_15 c = equal_below (λ y. bit_and y 0x0f) (λ y. y % 16) 256 c refl

pub bit_or_160 : (l : ℕ) → l < 32 → bit_or 0xa0 l ≡ 160 + l
unfolding holds_below
bit_or_160 l = equal_below (λ y. bit_or 0xa0 y) (λ y. 160 + y) 32 l refl

pub bit_or_144 : (l : ℕ) → l < 16 → bit_or 0x90 l ≡ 144 + l
unfolding holds_below
bit_or_144 l = equal_below (λ y. bit_or 0x90 y) (λ y. 144 + y) 16 l refl

pub bit_or_128 : (l : ℕ) → l < 16 → bit_or 0x80 l ≡ 128 + l
unfolding holds_below
bit_or_128 l = equal_below (λ y. bit_or 0x80 y) (λ y. 128 + y) 16 l refl

-- The native `bit_or` stands for a recursion on the binary digits with fuel `a`; any larger fuel
-- gives the same digits.
or_with : ℕ → ℕ → ℕ → ℕ
or_with fuel a b = digits (λ y. y) max fuel a b

or_with_enough : (f g a b : ℕ) → a ≤ f → a ≤ g → or_with f a b ≡ or_with g a b
unfolding or_with
or_with_enough f zero zero b hf hg = spare f
  where
    spare : (f : ℕ) → or_with f 0 b ≡ or_with 0 0 b
    spare zero = refl
    spare (suc f) = refl
or_with_enough zero (suc g) zero b hf hg = refl
or_with_enough (suc f) (suc g) zero b hf hg = refl
or_with_enough f zero (suc a) b hf hg = absurd (omega arith)
or_with_enough zero (suc g) (suc a) b hf hg = absurd (omega arith)
or_with_enough (suc f) (suc g) (suc a) b hf hg =
    omega (arith, or_with_enough f g (suc a / 2) (b / 2) (omega arith) (omega arith))

-- One binary digit at a time.
bit_or_digit : (a b : ℕ) → bit_or a b ≡ bit_or (a / 2) (b / 2) * 2 + max (a % 2) (b % 2)
unfolding or_with
bit_or_digit zero b = omega (arith, bit_or-bitwise 0 b, bit_or-bitwise 0 (b / 2))
bit_or_digit (suc a) b = omega (
  arith,
  bit_or-bitwise (suc a) b,
  bit_or-bitwise (suc a / 2) (b / 2),
  or_with_enough a (suc a / 2) (suc a / 2) (b / 2) (omega arith) (omega arith),
)

zero_bits : (fuel a : ℕ) → a ≤ fuel → bit_or a 0 ≡ a
zero_bits fuel zero h = refl
zero_bits zero (suc a) h = absurd (omega arith)
zero_bits (suc fuel) (suc a) h =
    omega (arith, bit_or_digit (suc a) 0, zero_bits fuel (suc a / 2) (omega arith))

-- `q << k | r` is a sum when `r` has at most `k` bits.
pub bit_or_shifted : (k q r : ℕ) → r < 2 ^ k → bit_or (q * 2 ^ k) r ≡ q * 2 ^ k + r
bit_or_shifted zero q r h = ground (arith, zero_bits q q (omega arith))
bit_or_shifted (suc k) q r h = ground (
  arith,
  pow-suc 2 k,
  ap (λ (t : ℕ). q * t) (pow-suc 2 k),
  bit_or_digit (q * 2 ^ suc k) r,
  bit_or_shifted k q (r / 2) (omega arith),
)

-- The same, for any number that is a multiple of `2 ^ k`.
pub bit_or_multiple : (k q x r : ℕ) → x ≡ q * 2 ^ k → r < 2 ^ k → bit_or x r ≡ x + r
bit_or_multiple k q x r e h = rw e (bit_or_shifted k q r h)
