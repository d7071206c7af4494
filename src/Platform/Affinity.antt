-- ===== src/Platform/Affinity.antt =====
-- arena_linux.go: the CPU set that sysPinThreadToCore hands to the kernel.
use native.Mathlib.Nat.{
  div_self, one-le-pow, div-eq_of_lt, pow-le-pow_right, pow-suc, mul-div_left, zero-div,
}
use native.Mathlib.Decide.{dec_lt, ℕ_discrete}
use vautlage.Prelude.{
  ℕ, suc, ◌≤◌, ◌+◌, ◌-◌, ◌*◌, ◌/◌, ◌%◌, ◌^◌, ◌<◌, ◌≡◌, ◌↔◌, ap, ◌∙◌, arith, update_self, update_ne,
  bit_or,
}
use vautlage.Prelude.Bits.{pow-add, bit_or-zero_left}
use vautlage.Platform.Linux.{cpu_set}

-- A power of two has one binary digit.
digit_iff : (c b : ℕ) → (2 ^ c / 2 ^ b % 2 ≡ 1) ↔ (c ≡ b)
digit_iff c b = elim (ℕ_discrete c b) [
  | yes e ↦
      let one : 2 ^ c / 2 ^ b ≡ 1 = rw e (div_self (one-le-pow b 2 (omega arith))) in
      (λ h. e, λ h. omega arith)
  | no ne ↦ elim (dec_lt c b) [
    | yes lt ↦
        let more : 2 ^ suc c ≤ 2 ^ b = pow-le-pow_right (omega arith) (omega arith) in
        let row = pow-suc 2 c in
        let pos : 0 < 2 ^ c = one-le-pow c 2 (omega arith) in
        let none_left : 2 ^ c / 2 ^ b ≡ 0 = div-eq_of_lt (omega arith) in
        (λ h. absurd (omega arith), λ h. absurd (ne h))
    | no ge ↦
        let n = c - suc b in
        let parts : c ≡ suc n + b = omega arith in
        let whole : 2 ^ c ≡ 2 ^ suc n * 2 ^ b =
          ap {A = ℕ} {B = ℕ} (λ k. 2 ^ k) parts ∙ pow-add (suc n) b in
        let q : 2 ^ c / 2 ^ b ≡ 2 ^ suc n =
          ap (λ x. x / 2 ^ b) whole ∙ mul-div_left (2 ^ suc n) (one-le-pow b 2 (omega arith)) in
        let row = pow-suc 2 n in (λ h. absurd (omega arith), λ h. absurd (ne h))
  ]
]

-- The set has bit `b` of word `k` set exactly for the core 64 * k + b, so it names one core and no
-- other.
pub cpu_set_lem : (core k b : ℕ) → b < 64 → (cpu_set core k / 2 ^ b % 2 ≡ 1) ↔ (core ≡ 64 * k + b)
unfolding cpu_set
cpu_set_lem core k b lt = elim (ℕ_discrete k (core / 64)) [
  | yes e ↦
      let word : cpu_set core k ≡ 2 ^ (core % 64) = rw e (
        update_self (λ j. 0) (core / 64) (bit_or 0 (2 ^ (core % 64)))
        ∙ bit_or-zero_left (2 ^ (core % 64))) in
      let (there, back) = digit_iff (core % 64) b in
      rw word (λ h. omega (arith, there h), λ h. back (omega arith))
  | no ne ↦
      let word : cpu_set core k ≡ 0 =
        update_ne (λ j. 0) (core / 64) k (bit_or 0 (2 ^ (core % 64))) ne in
      let nothing = zero-div (2 ^ b) in
      rw word (λ h. absurd (omega arith), λ h. absurd (omega arith))
]
