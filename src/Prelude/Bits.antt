-- ===== src/Prelude/Bits.antt =====
-- Bitwise operations on variables: the equation for the lowest digit, and what follows from it.
use Prim.Native.Nat.{
  ℕ, zero, suc, ◌+◌, ◌-◌, ◌*◌, ◌/◌, ◌%◌, ◌^◌, ◌≤◌, ◌<◌, min, max, bit_and, bit_or, digits, bitwise,
  bit_and-bitwise, bit_or-bitwise,
}
use mathlib.Core.Path.{◌≡◌, refl, ap, sym, ◌∙◌}
use native.Mathlib.Nat.{pow-suc, one-le-pow, zero-add, suc-add, mod-eq_of_lt, div-add-mod, mod-lt}
use native.Mathlib.Decide.{ℕ_discrete}
use native.Mathlib.Omega.{arith}

module _ {ℓ} (P : ℕ → Type ℓ) (base : P 0) (double : (n : ℕ) → 0 < n → P (n / 2) → P n) where
  halve_below : (k n : ℕ) → n ≤ k → P n
  halve_below k zero le = base
  halve_below zero (suc n) le = absurd (omega arith)
  halve_below (suc k) (suc n) le =
      double (suc n) (omega arith) (halve_below k (suc n / 2) (omega arith))

  -- What holds of 0, and of each number that it holds of half of, holds of all.
  by_halves : (n : ℕ) → P n
  by_halves n = halve_below n n (omega arith)

-- A digit recursion `f` with `z` for what is left when the first number is used up.
module _ (z : ℕ → ℕ) (f : ℕ → ℕ → ℕ) where
  used_up : (n b : ℕ) → digits z f n 0 b ≡ z b
  used_up zero b = refl
  used_up (suc n) b = refl

  -- More rounds than the first number has digits do not matter.
  deeper : (n m a b : ℕ) → a ≤ n → n ≤ m → digits z f m a b ≡ digits z f n a b
  deeper n m zero b le more = used_up m b ∙ sym (used_up n b)
  deeper zero m (suc a) b le more = absurd (omega arith)
  deeper (suc n) zero (suc a) b le more = absurd (omega arith)
  deeper (suc n) (suc m) (suc a) b le more =
      ap (λ rest. rest * 2 + f (suc a % 2) (b % 2))
        (deeper n m (suc a / 2) (b / 2) (omega arith) (omega arith))

  -- The equation for the lowest digit, if `z` satisfies it.
  lowest :
      ((b : ℕ) → z b ≡ z (b / 2) * 2 + f 0 (b % 2))
      → (a b : ℕ) → bitwise z f a b ≡ bitwise z f (a / 2) (b / 2) * 2 + f (a % 2) (b % 2)
  lowest hz zero b = hz b
  lowest hz (suc a) b =
      ap (λ rest. rest * 2 + f (suc a % 2) (b % 2))
        (deeper (suc a / 2) a (suc a / 2) (b / 2) (omega arith) (omega arith))

pub bit_and_step : (a b : ℕ) → bit_and a b ≡ bit_and (a / 2) (b / 2) * 2 + min (a % 2) (b % 2)
bit_and_step a b = simp bit_and-bitwise (lowest (λ y. 0) min (λ y. omega arith) a b)

pub bit_or_step : (a b : ℕ) → bit_or a b ≡ bit_or (a / 2) (b / 2) * 2 + max (a % 2) (b % 2)
bit_or_step a b = simp bit_or-bitwise (lowest (λ y. y) max (λ y. omega arith) a b)

bit_and-zero : (a : ℕ) → bit_and a 0 ≡ 0
bit_and-zero =
    by_halves (λ a. bit_and a 0 ≡ 0) refl (λ n pos half. omega (arith, bit_and_step n 0, half))

bit_or-zero : (a : ℕ) → bit_or a 0 ≡ a
bit_or-zero =
    by_halves (λ a. bit_or a 0 ≡ a) refl (λ n pos half. omega (arith, bit_or_step n 0, half))

pub bit_or-zero_left : (a : ℕ) → bit_or 0 a ≡ a
bit_or-zero_left =
    by_halves (λ a. bit_or 0 a ≡ a) refl (λ n pos half. omega (arith, bit_or_step 0 n, half))

pub bit_and_self : (a : ℕ) → bit_and a a ≡ a
bit_and_self =
    by_halves (λ a. bit_and a a ≡ a) refl (λ n pos half. omega (arith, bit_and_step n n, half))

-- A factor moves into the next power.
next_power : (k t : ℕ) → 2 ^ suc k * t ≡ 2 * (2 ^ k * t)
next_power k t = omega (arith, ap (λ (p : ℕ). p * t) (pow-suc 2 k))

low_part : (k t r a : ℕ) → a ≡ 2 ^ k * t + r → r < 2 ^ k → bit_and a (2 ^ k - 1) ≡ r
low_part zero t r a split small = omega (arith, bit_and-zero a)
low_part (suc k) t r a split small =
    let half : bit_and (a / 2) (2 ^ k - 1) ≡ r / 2 =
      low_part k t (r / 2) (a / 2) (omega (arith, next_power k t)) (omega (arith, pow-suc 2 k)) in
    let shorter : (2 ^ suc k - 1) / 2 ≡ 2 ^ k - 1 = omega (arith, pow-suc 2 k) in
    let digit : (2 ^ suc k - 1) % 2 ≡ 1 = omega (arith, pow-suc 2 k, one-le-pow k 2) in
    let whole : bit_and a (2 ^ suc k - 1) ≡ bit_and (a / 2) (2 ^ k - 1) * 2 + min (a % 2) 1 =
      bit_and_step a (2 ^ suc k - 1)
      ∙ ap (λ m. bit_and (a / 2) m * 2 + min (a % 2) ((2 ^ suc k - 1) % 2)) shorter
      ∙ ap (λ d. bit_and (a / 2) (2 ^ k - 1) * 2 + min (a % 2) d) digit in
    omega (arith, next_power k t)

-- The mask of the lowest `k` bits takes the remainder.
pub bit_and_mask : (k a : ℕ) → bit_and a (2 ^ k - 1) ≡ a % 2 ^ k
bit_and_mask k a =
    low_part k (a / 2 ^ k) (a % 2 ^ k) a (sym (div-add-mod a (2 ^ k)))
      (mod-lt a (one-le-pow k 2 (omega arith)))

-- The same with the factor on the left.
scaled : (q k : ℕ) → q * 2 ^ suc k ≡ 2 * (q * 2 ^ k)
scaled q k = omega (arith, next_power k q)

pub pow-add : (a b : ℕ) → 2 ^ (a + b) ≡ 2 ^ a * 2 ^ b
pow-add zero b = ground (arith, zero-add b)
pow-add (suc a) b =
    simp suc-add (grind (arith, pow-suc 2 (a + b), pow-suc 2 a, pow-add a b, scaled (2 ^ b) a))

-- The mask of the `w` bits above the lowest `k` keeps those.
pub bit_and_high :
    (k w q r : ℕ)
    → r < 2 ^ k
    → q < 2 ^ w
    → bit_and (q * 2 ^ k + r) (2 ^ w * 2 ^ k - 2 ^ k) ≡ q * 2 ^ k
bit_and_high zero w q r hr hq = ground (arith, bit_and_mask w q, mod-eq_of_lt hq)
bit_and_high (suc k) w q r hr hq = ground (
  arith,
  bit_and_step (q * 2 ^ suc k + r) (2 ^ w * 2 ^ suc k - 2 ^ suc k),
  scaled q k,
  scaled (2 ^ w) k,
  pow-suc 2 k,
  bit_and_high k w q (r / 2) (omega (arith, pow-suc 2 k)) hq,
)

-- `n & (n - 1)` at an even and at an odd number.
bit_and-pred_even : (m : ℕ) → 0 < m → bit_and (2 * m) (2 * m - 1) ≡ 2 * bit_and m (m - 1)
bit_and-pred_even m pos = ground (arith, bit_and_step (2 * m) (2 * m - 1))

bit_and-pred_odd : (m : ℕ) → bit_and (2 * m + 1) (2 * m) ≡ 2 * m
bit_and-pred_odd m = ground (arith, bit_and_step (2 * m + 1) (2 * m), bit_and_self m)

-- `n & (n - 1)` is 0 only at a power of two.
pub pow_of_bit_and-pred : (n : ℕ) → 0 < n → bit_and n (n - 1) ≡ 0 → (k : ℕ) × (n ≡ 2 ^ k)
pow_of_bit_and-pred =
    by_halves (λ n. 0 < n → bit_and n (n - 1) ≡ 0 → (k : ℕ) × (n ≡ 2 ^ k))
      (λ pos e. absurd (omega arith))
      (λ n some_left half pos e. elim (ℕ_discrete (n % 2) 0) [
        | yes even ↦
            let twice : n ≡ 2 * (n / 2) = omega arith in
            let left : 0 < n / 2 = omega arith in
            let (k, p) = half left (ground (arith, bit_and-pred_even (n / 2) left)) in
            (suc k, omega (arith, pow-suc 2 k))
        | no odd ↦ (0, ground (arith, bit_and-pred_odd (n / 2)))
      ])

-- A flag word with its lowest bit set, and the tests of its two lowest bits.
pub bit_or-one : (a : ℕ) → bit_or a 1 ≡ a / 2 * 2 + 1
bit_or-one a = ground (arith, bit_or_step a 1, bit_or-zero (a / 2))

pub bit_and-one : (a : ℕ) → bit_and a 1 ≡ a % 2
bit_and-one a = ground (arith, bit_and_step a 1, bit_and-zero (a / 2))

pub bit_and_two : (a : ℕ) → bit_and a 2 ≡ a / 2 % 2 * 2
bit_and_two a = ground (arith, bit_and_step a 2, bit_and-one (a / 2))
