-- ===== src/Ctl/Keys.antt =====
-- The keys of the load generator are distinct.
use native.Mathlib.Nat.{suc-mul, mul-le-mul_right}
use native.Mathlib.Decide.{dec_lt}
use vautlage.Prelude.{ap, ℕ, ◌+◌, ◌*◌, ◌^◌, ◌<◌, ◌≡◌, arith}
use vautlage.Ctl.{key_of}

-- Two records of the load have the same key only if they are the same record of the same producer,
-- as long as the keys are short of 2 ^ 64.
pub key_of_injective :
    (records p q i j : ℕ)
    → i < records
    → j < records
    → p * records + i + 1 < 2 ^ 64
    → q * records + j + 1 < 2 ^ 64
    → key_of records p i ≡ key_of records q j
    → (p ≡ q) × (i ≡ j)
unfolding key_of
key_of_injective records p q i j lt lt' small small' e =
    let same : p * records + i ≡ q * records + j = omega arith in
    elim (dec_lt p q) [
      | yes less ↦ absurd (omega (arith, suc-mul p records, mul-le-mul_right records less))
      | no ge ↦ elim (dec_lt q p) [
        | yes more ↦ absurd (omega (arith, suc-mul q records, mul-le-mul_right records more))
        | no le ↦
            let eq : p ≡ q = omega arith in (eq, omega (arith, ap (λ (x : ℕ). x * records) eq))
      ]
    ]
