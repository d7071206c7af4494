-- ===== src/Ring/Valid.antt =====
-- The protocol of the ring as an invariant on the sequence words, between the calls of any number
-- of producers and consumers.
use native.Mathlib.Nat.{div-add-mod, mul-le-mul_left, mul-suc}
use native.Mathlib.Decide.{dec_lt}
use vautlage.Prelude.{ℕ, ◌+◌, ◌-◌, ◌*◌, ◌/◌, ◌%◌, ◌^◌, ◌≤◌, ◌<◌, ◌≡◌, ◌≢◌, ◌⊎◌, sym, ap, arith}
use vautlage.Prelude.Bits.{bit_and_mask}
use vautlage.Ring.{Ring, index, cell}

-- The sequence word that serves position `p`.
abbrev pub seq_at : Ring → ℕ → ℕ
seq_at r p = (r.cells (p % r.capacity)).seq

-- A cell is next due at position `p`. It is free for the producer of `p`; or it holds the published
-- record of `p - capacity`; or the producer of `p - capacity` is still writing.
abbrev pub SlotOk : Ring → ℕ → Type 0
SlotOk r p =
    ((seq_at r p ≡ p) × (p < r.head + r.capacity))
    ⊎ ((seq_at r p + r.capacity ≡ p + 1) × (r.capacity ≤ p))
    ⊎ ((seq_at r p + r.capacity ≡ p) × (r.commit + r.capacity ≤ p))

pub record IsValid (r : Ring) : Type 0 where
  pub shift : ℕ
  pub size : r.capacity ≡ 2 ^ shift
  pub many : 2 ≤ r.capacity
  pub bound : r.capacity ≤ 2 ^ 63
  pub masked : r.mask ≡ r.capacity - 1
  pub head_le : r.head ≤ r.commit
  pub commit_le : r.commit ≤ r.tail
  pub room : r.tail ≤ r.head + r.capacity
  pub fresh : r.tail + r.capacity < 2 ^ 64
  pub slots : (p : ℕ) → r.tail ≤ p → p < r.tail + r.capacity → SlotOk r p

-- Position `p` has been claimed, and its producer has not published yet.
pub record Claimed (r : Ring) (p : ℕ) : Type 0 where
  pub given : p < r.tail
  pub recent : r.tail ≤ p + r.capacity
  pub turn : seq_at r p ≡ p

-- Position `p` has been dequeued, and its consumer has not released it yet.
pub record Taken (r : Ring) (p : ℕ) : Type 0 where
  pub given : p < r.head
  pub recent : r.tail ≤ p + r.capacity
  pub turn : seq_at r p ≡ p + 1

-- The mask is a remainder.
pub index_eq : {r : Ring} → IsValid r → (p : ℕ) → index r p ≡ p % r.capacity
index_eq {r} v p = ground (arith, bit_and_mask v.shift p, v.size, v.masked)

pub cell_eq : {r : Ring} → IsValid r → (p : ℕ) → cell r p ≡ r.cells (p % r.capacity)
unfolding cell
cell_eq {r} v p = ap r.cells (index_eq v p)

-- Equal remainders and quotients in order: the numbers are a whole `c` apart.
mod-eq_far : (c p q : ℕ) → p % c ≡ q % c → p / c < q / c → p + c ≤ q
mod-eq_far c p q e lt =
    omega (arith, div-add-mod p c, div-add-mod q c, mul-le-mul_left c lt, mul-suc c (p / c))

-- Of the positions of one lap no two share a cell.
pub lap_injective : (c t p q : ℕ) → t ≤ p → p < t + c → t ≤ q → q < t + c → p % c ≡ q % c → p ≡ q
lap_injective c t p q a b a' b' e = elim (dec_lt (p / c) (q / c)) [
  | yes lt ↦ absurd (omega (arith, mod-eq_far c p q e lt))
  | no nlt ↦ elim (dec_lt (q / c) (p / c)) [
    | yes gt ↦ absurd (omega (arith, mod-eq_far c q p (sym e) gt))
    | no ngt ↦
        let same : p / c ≡ q / c = omega arith in
        omega (arith, div-add-mod p c, div-add-mod q c, ap (λ (t : ℕ). c * t) same)
  ]
]

-- Neighbouring positions do not share a cell.
pub mod-suc-ne : (c p : ℕ) → 2 ≤ c → (p + 1) % c ≢ p % c
mod-suc-ne c p h e = absurd (
    omega (
      arith,
      lap_injective c p (p + 1) p (omega arith) (omega arith) (omega arith) (omega arith) e,
    ))
