-- ===== src/Ring/Claim.antt =====
-- claim: which position it hands out, when it reports saturation, and what it keeps.
use native.Mathlib.Nat.{add-mod_right, sub-add_cancel}
use mathlib.Core.Path.{subst}
use native.Mathlib.Decide.{ℕ_discrete}
use vautlage.Prelude.{
  ℕ, suc, ◌+◌, ◌-◌, ◌^◌, ◌≤◌, ◌<◌, ◌≡◌, ◌≢◌, ◌⊎◌, inl, inr, ap, none, some, arith,
}
use vautlage.Ring.{Ring, claim}
use vautlage.Ring.Valid.{IsValid, SlotOk, Claimed, Taken, seq_at, index_eq}

-- The ring after a claim.
abbrev pub claimed : Ring → Ring
claimed r = record r { tail = r.tail + 1 }

pub claim_free :
    (fuel : ℕ) {r : Ring}
    → IsValid r
    → r.tail + 1 + r.capacity < 2 ^ 64
    → seq_at r r.tail ≡ r.tail
    → claim (suc fuel) r ≡ some (some r.tail, claimed r)
unfolding claim
claim_free fuel {r} v small free = ground (arith, index_eq v r.tail, v.fresh)

pub claim_full :
    (fuel : ℕ) {r : Ring}
    → IsValid r
    → seq_at r r.tail ≢ r.tail
    → claim (suc fuel) r ≡ some (none, r)
unfolding claim
claim_full fuel {r} v busy =
    ground (arith, index_eq v r.tail, v.fresh, v.many, v.bound, v.slots r.tail)

-- The next position of the cell that serves `p`.
lap : (r : Ring) (p : ℕ) → seq_at r (p + r.capacity) ≡ seq_at r p
lap r p = ap (λ i. (r.cells i).seq) (add-mod_right p r.capacity)

pub claimed-IsValid :
    {r : Ring}
    → IsValid r
    → r.tail + 1 + r.capacity < 2 ^ 64
    → seq_at r r.tail ≡ r.tail
    → IsValid (claimed r)
claimed-IsValid {r} v small free = record {
  shift = v.shift;
  size = v.size;
  many = v.many;
  bound = v.bound;
  masked = v.masked;
  head_le = v.head_le;
  commit_le = omega (arith, v.commit_le);
  room = omega (
    arith,
    v.slots r.tail (omega arith) (omega (arith, v.many)),
    v.many,
    v.room,
    v.commit_le,
    v.head_le,
  );
  fresh = small;
  slots = slots;
}
  where
    slots : (p : ℕ) → r.tail + 1 ≤ p → p < r.tail + 1 + r.capacity → SlotOk (claimed r) p
    slots p lo hi = elim (ℕ_discrete p (r.tail + r.capacity)) [
      | yes e ↦ rw e (inr (inr (omega (arith, lap r r.tail), omega (arith, v.commit_le))))
      | no ne ↦ v.slots p (omega arith) (omega arith)
    ]

pub claimed-Claimed : {r : Ring} → IsValid r → seq_at r r.tail ≡ r.tail → Claimed (claimed r) r.tail
claimed-Claimed v free = record { given = omega arith; recent = omega (arith, v.many); turn = free }

-- The cell that is due is held by nobody, so the window moves past no held position.
due-lt :
    {r : Ring} {q : ℕ}
    → IsValid r
    → seq_at r r.tail ≡ r.tail
    → r.tail ≤ q + r.capacity
    → (seq_at r q ≡ q) ⊎ (seq_at r q ≡ q + 1)
    → r.tail + 1 ≤ q + r.capacity
due-lt {r} {q} v free recent held = elim (ℕ_discrete r.tail (q + r.capacity)) [
  | yes e ↦ absurd (omega (arith, ap (λ (t : ℕ). seq_at r t) e, lap r q, v.many))
  | no ne ↦ omega arith
]

-- What other producers and consumers hold stays theirs.
pub claimed-frame :
    {r : Ring} {q : ℕ}
    → IsValid r
    → seq_at r r.tail ≡ r.tail
    → (Claimed r q → Claimed (claimed r) q) × (Taken r q → Taken (claimed r) q)
claimed-frame v free = (
  λ c. record {
    given = omega (arith, c.given);
    recent = due-lt v free c.recent (inl c.turn);
    turn = c.turn;
  },
  λ c. record { given = c.given; recent = due-lt v free c.recent (inr c.turn); turn = c.turn },
)

-- A claim on a valid ring, its counters short of wrapping, ends in its first round. Either it hands
-- out the tail, a position that nobody held, to this producer, and the ring stays valid; or it
-- reports saturation and changes nothing, and then the record one lap back is still being written,
-- waiting or being read.
pub claim_lem :
    (fuel : ℕ) {r : Ring}
    → IsValid r
    → r.tail + 1 + r.capacity < 2 ^ 64
    → ((claim (suc fuel) r ≡ some (some r.tail, claimed r))
        × IsValid (claimed r)
        × Claimed (claimed r) r.tail
        × (seq_at r r.tail ≡ r.tail))
      ⊎ ((claim (suc fuel) r ≡ some (none, r))
          × (r.capacity ≤ r.tail)
          × ((seq_at r (r.tail - r.capacity) ≡ r.tail - r.capacity)
              ⊎ (seq_at r (r.tail - r.capacity) ≡ r.tail - r.capacity + 1)))
claim_lem fuel {r} v small = elim (ℕ_discrete (seq_at r r.tail) r.tail) [
  | yes free ↦
      inl (claim_free fuel v small free, claimed-IsValid v small free, claimed-Claimed v free, free)
  | no busy ↦
      let slot : SlotOk r r.tail = v.slots r.tail (omega arith) (omega (arith, v.many)) in
      let back : r.capacity ≤ r.tail = omega (arith, v.many) in
      let same : seq_at r r.tail ≡ seq_at r (r.tail - r.capacity) =
        subst (λ t. seq_at r t ≡ seq_at r (r.tail - r.capacity)) (sub-add_cancel back)
          (lap r (r.tail - r.capacity)) in
      inr (claim_full fuel v busy, back, omega arith)
]
