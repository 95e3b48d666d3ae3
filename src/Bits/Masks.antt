-- ===== src/Bits/Masks.antt =====
-- `&` with a mask of low or of high bits.
use Prim.Native.Nat.{min, digits, bit_and-bitwise}
use native.Mathlib.Nat.{pow-suc}
use msgpack.Prelude.{ℕ, zero, suc, ◌+◌, ◌*◌, ◌/◌, ◌%◌, ◌^◌, ◌≤◌, ◌<◌, bit_and, ◌≡◌, refl, ap, arith}

-- The native `bit_and` stands for a recursion on the binary digits with fuel `a`; any larger fuel
-- gives the same digits.
and_with : ℕ → ℕ → ℕ → ℕ
and_with fuel a b = digits (λ y. 0) min fuel a b

and_with_enough : (f g a b : ℕ) → a ≤ f → a ≤ g → and_with f a b ≡ and_with g a b
unfolding and_with
and_with_enough zero zero zero b hf hg = refl
and_with_enough zero (suc g) zero b hf hg = refl
and_with_enough (suc f) zero zero b hf hg = refl
and_with_enough (suc f) (suc g) zero b hf hg = refl
and_with_enough zero g (suc a) b hf hg = absurd (omega arith)
and_with_enough (suc f) zero (suc a) b hf hg = absurd (omega arith)
and_with_enough (suc f) (suc g) (suc a) b hf hg =
    omega (arith, and_with_enough f g (suc a / 2) (b / 2) (omega arith) (omega arith))

-- One binary digit at a time.
bit_and_digit : (a b : ℕ) → bit_and a b ≡ bit_and (a / 2) (b / 2) * 2 + min (a % 2) (b % 2)
unfolding and_with
bit_and_digit zero b = omega (arith, bit_and-bitwise 0 b, bit_and-bitwise 0 (b / 2))
bit_and_digit (suc a) b = omega (
  arith,
  bit_and-bitwise (suc a) b,
  bit_and-bitwise (suc a / 2) (b / 2),
  and_with_enough a (suc a / 2) (suc a / 2) (b / 2) (omega arith) (omega arith),
)

bit_and_zero : (fuel a : ℕ) → a ≤ fuel → bit_and a 0 ≡ 0
bit_and_zero fuel zero h = refl
bit_and_zero zero (suc a) h = absurd (omega arith)
bit_and_zero (suc fuel) (suc a) h =
    omega (arith, bit_and_digit (suc a) 0, bit_and_zero fuel (suc a / 2) (omega arith))

-- The mask of the `k` lowest bits is 2^k - 1.
pub bit_and_low : (k m q r : ℕ) → m + 1 ≡ 2 ^ k → r < 2 ^ k → bit_and (q * 2 ^ k + r) m ≡ r
bit_and_low zero m q r e h = ground (arith, bit_and_zero (q * 1 + r) (q * 1 + r) (omega arith))
bit_and_low (suc k) m q r e h = ground (
  arith,
  pow-suc 2 k,
  ap (λ (t : ℕ). q * t) (pow-suc 2 k),
  bit_and_digit (q * 2 ^ suc k + r) m,
  bit_and_low k (m / 2) q (r / 2) (omega (arith, pow-suc 2 k, e)) (omega (arith, pow-suc 2 k, h)),
)

-- A mask with no bit below `k` looks at the bits from `k` upwards.
pub bit_and_high :
    (k m q r : ℕ) → r < 2 ^ k → bit_and (q * 2 ^ k + r) (m * 2 ^ k) ≡ bit_and q m * 2 ^ k
bit_and_high zero m q r h = ground arith
bit_and_high (suc k) m q r h = ground (
  arith,
  pow-suc 2 k,
  ap (λ (t : ℕ). q * t) (pow-suc 2 k),
  ap (λ (t : ℕ). m * t) (pow-suc 2 k),
  ap (λ (t : ℕ). bit_and q m * t) (pow-suc 2 k),
  bit_and_digit (q * 2 ^ suc k + r) (m * 2 ^ suc k),
  bit_and_high k m q (r / 2) (omega (arith, pow-suc 2 k, h)),
)
