-- ===== src/Layout/Align.antt =====
-- Powers of two and rounding, as arithmetic: isPow2, isAligned, alignUp.
use native.Mathlib.Nat.{
  one-le-pow, pow-le-pow_right, mod_self, mul-mod_left, mod-lt, div-add-mod', div-lt_iff_lt-mul,
  div-eq_of_lt,
}
use vautlage.Prelude.{
  ℕ, ◌+◌, ◌-◌, ◌*◌, ◌/◌, ◌%◌, ◌^◌, ◌≤◌, ◌<◌, ◌≡◌, ◌↔◌, true, ap, ◌∙◌, arith, and_not,
}
use vautlage.Prelude.Bits.{bit_and_mask, bit_and_high, pow-add, pow_of_bit_and-pred}
use vautlage.Layout.{is_pow2, is_aligned, align_up}

-- For a 64-bit word, isPow2 answers true exactly at the powers of two.
pub is_pow2_iff : (n : ℕ) → n < 2 ^ 64 → (is_pow2 n ≡ true) ↔ ((k : ℕ) × (n ≡ 2 ^ k))
unfolding is_pow2
is_pow2_iff n small = (there, back)
  where
    there : is_pow2 n ≡ true → (k : ℕ) × (n ≡ 2 ^ k)
    there h = pow_of_bit_and-pred n (ground arith) (ground arith)

    back : (k : ℕ) × (n ≡ 2 ^ k) → is_pow2 n ≡ true
    back (k, e) = ground (arith, one-le-pow k 2, bit_and_mask k n, mod_self n)

-- isAligned tests the remainder by a power of two.
pub is_aligned_iff :
    (addr k : ℕ) → 2 ^ k < 2 ^ 64 → (is_aligned addr (2 ^ k) ≡ true) ↔ (addr % 2 ^ k ≡ 0)
unfolding is_aligned
is_aligned_iff addr k small = ground (arith, one-le-pow k 2, bit_and_mask k addr)

two-pow-64 : (k : ℕ) → k ≤ 64 → 2 ^ 64 ≡ 2 ^ (64 - k) * 2 ^ k
two-pow-64 k hk =
    let e : 64 ≡ 64 - k + k = omega arith in ap {A = ℕ} {B = ℕ} (λ t. 2 ^ t) e ∙ pow-add (64 - k) k

pub two-pow_pos : (k : ℕ) → 0 < 2 ^ k
two-pow_pos k = one-le-pow k 2 (omega arith)

-- x &^ (2 ^ k - 1) drops the remainder by 2 ^ k.
and_not_mask : (x k : ℕ) → x < 2 ^ 64 → k ≤ 64 → and_not x (2 ^ k - 1) ≡ x / 2 ^ k * 2 ^ k
and_not_mask x k small hk =
    let top : x / 2 ^ k < 2 ^ (64 - k) =
      (div-lt_iff_lt-mul (two-pow_pos k)).1 (omega (arith, two-pow-64 k hk)) in
    let low : x % 2 ^ k < 2 ^ k = mod-lt x (two-pow_pos k) in
    ground (
      arith,
      two-pow-64 k hk,
      two-pow_pos k,
      div-add-mod' x (2 ^ k),
      bit_and_high k (64 - k) (x / 2 ^ k) (x % 2 ^ k) low top,
    )

align_up_div :
    (n k : ℕ) → k < 64 → n + 2 ^ k ≤ 2 ^ 64 → align_up n (2 ^ k) ≡ (n + 2 ^ k - 1) / 2 ^ k * 2 ^ k
unfolding align_up
align_up_div n k hk fits = ground (arith, two-pow_pos k, and_not_mask (n + 2 ^ k - 1) k)

-- Below the last multiple of `align`, alignUp is the least multiple of it that is not below `n`.
pub align_up_lem :
    (n k : ℕ)
    → k < 64
    → n + 2 ^ k ≤ 2 ^ 64
    → (align_up n (2 ^ k) % 2 ^ k ≡ 0) × (n ≤ align_up n (2 ^ k)) × (align_up n (2 ^ k) < n + 2 ^ k)
align_up_lem n k hk fits = rw (align_up_div n k hk fits) (
  mul-mod_left ((n + 2 ^ k - 1) / 2 ^ k) (2 ^ k),
  ground (arith, div-add-mod' (n + 2 ^ k - 1) (2 ^ k), mod-lt (n + 2 ^ k - 1) (two-pow_pos k)),
  ground (arith, div-add-mod' (n + 2 ^ k - 1) (2 ^ k), mod-lt (n + 2 ^ k - 1) (two-pow_pos k)),
)

-- Above it the sum wraps, and alignUp answers 0.
pub align_up_overflow :
    (n k : ℕ) → k < 64 → n < 2 ^ 64 → 2 ^ 64 < n + 2 ^ k → align_up n (2 ^ k) ≡ 0
unfolding align_up
align_up_overflow n k hk small over =
    let e : 2 ^ k ≤ 2 ^ 63 = pow-le-pow_right (omega arith) {j = 63} (omega arith) in
    let q : (n + 2 ^ k - 1 - 2 ^ 64) / 2 ^ k ≡ 0 = div-eq_of_lt (omega arith) in
    ground (arith, two-pow_pos k, and_not_mask (n + 2 ^ k - 1 - 2 ^ 64) k)
