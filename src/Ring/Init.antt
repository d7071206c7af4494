-- ===== src/Ring/Init.antt =====
-- initRing: what it accepts, and the ring that it leaves.
use native.Mathlib.Nat.{mod-eq_of_lt, pow-le-pow_right}
use native.Mathlib.Decide.{ℕ_discrete}
use vautlage.Prelude.{
  ℕ, zero, suc, ◌+◌, ◌-◌, ◌%◌, ◌^◌, ◌≤◌, ◌<◌, ◌≡◌, ◌⊎◌, inl, inr, [], refl, ap, arith, ◌∙◌, sym,
  true, false, Bool-cases, update, update_self, update_ne,
}
use vautlage.Errors.{ok, err, config}
use vautlage.Layout.{is_pow2, is_aligned, cell_stride_for}
use vautlage.Layout.Align.{is_pow2_iff, is_aligned_iff, two-pow_pos}
use vautlage.Ring.{Ring, Cell, prime, prime_cell, init_ring}
use vautlage.Ring.Valid.{IsValid, seq_at}
use vautlage.Ring.Models.{Models}

-- The loop writes each cell of its range once, and no other.
prime_out :
    (epoch n i : ℕ) (cells : ℕ → Cell) (j : ℕ)
    → (j < i) ⊎ (i + n ≤ j)
    → prime epoch n i cells j ≡ cells j
unfolding prime
prime_out epoch zero i cells j h = refl
prime_out epoch (suc n) i cells j h =
    prime_out epoch n (suc i) (update cells i (prime_cell epoch i (cells i))) j (omega arith)
    ∙ update_ne cells i j (prime_cell epoch i (cells i)) (λ e. omega arith)

prime_in :
    (epoch n i : ℕ) (cells : ℕ → Cell) (j : ℕ)
    → i ≤ j
    → j < i + n
    → prime epoch n i cells j ≡ prime_cell epoch j (cells j)
unfolding prime
prime_in epoch zero i cells j lo hi = absurd (omega arith)
prime_in epoch (suc n) i cells j lo hi =
    let first : ℕ → Cell = update cells i (prime_cell epoch i (cells i)) in
    elim (ℕ_discrete j i) [
      | yes e ↦ rw e (
          prime_out epoch n (suc i) first i (inl (omega arith))
          ∙ update_self cells i (prime_cell epoch i (cells i)))
      | no ne ↦
          prime_in epoch n (suc i) first j (omega arith) (omega arith)
          ∙ ap (prime_cell epoch j) (update_ne cells i j (prime_cell epoch i (cells i)) ne)
    ]

-- The ring that initRing leaves.
abbrev fresh_ring : Ring → ℕ → ℕ → ℕ → ℕ → Ring
fresh_ring r base cells payload_cap epoch = record {
  cells = prime epoch cells 0 r.cells;
  base = base;
  stride = cell_stride_for payload_cap;
  capacity = cells;
  mask = cells - 1;
  payload_cap = payload_cap;
  epoch = epoch;
  tail = 0;
  commit = 0;
  head = 0;
}

init_ring_ok :
    (r : Ring) (base cells payload_cap epoch : ℕ)
    → is_pow2 cells ≡ true
    → is_aligned base 64 ≡ true
    → 0 < cells
    → init_ring r base cells payload_cap epoch ≡ ok (fresh_ring r base cells payload_cap epoch)
unfolding init_ring
init_ring_ok r base cells payload_cap epoch p a pos = ground arith

init_ring_err :
    (r : Ring) (base cells payload_cap epoch : ℕ)
    → (is_pow2 cells ≡ false) ⊎ (is_aligned base 64 ≡ false)
    → init_ring r base cells payload_cap epoch ≡ err config
unfolding init_ring
init_ring_err r base cells payload_cap epoch h = ground arith

abbrev pub Accepts : ℕ → ℕ → Type 0
Accepts base cells = ((k : ℕ) × (cells ≡ 2 ^ k)) × (base % 64 ≡ 0)

-- initRing accepts exactly a power of two of cells on a cache-line boundary; otherwise it reports a
-- configuration error.
pub init_ring_lem :
    (r : Ring) (base cells payload_cap epoch : ℕ)
    → cells < 2 ^ 64
    → (Accepts base cells × ((s : Ring) × (init_ring r base cells payload_cap epoch ≡ ok s)))
      ⊎ ((¬ Accepts base cells) × (init_ring r base cells payload_cap epoch ≡ err config))
init_ring_lem r base cells payload_cap epoch small = elim (Bool-cases (is_pow2 cells)) [
  | inr p ↦ inr (
    λ a. let e : false ≡ true = sym p ∙ (is_pow2_iff cells small).1 a.0 in cc,
    init_ring_err r base cells payload_cap epoch (inl p),
  )
  | inl p ↦ elim (Bool-cases (is_aligned base 64)) [
    | inr q ↦ inr (
      λ a. let e : false ≡ true = sym q ∙ (is_aligned_iff base 6 (omega arith)).1 a.1 in cc,
      init_ring_err r base cells payload_cap epoch (inr q),
    )
    | inl q ↦
        let (k, e) = (is_pow2_iff cells small).0 p in
        inl (
          ((k, e), (is_aligned_iff base 6 (omega arith)).0 q),
          (
            fresh_ring r base cells payload_cap epoch,
            init_ring_ok r base cells payload_cap epoch p q (omega (arith, e, two-pow_pos k)),
          ),
        )
  ]
]

fresh_ring-IsValid :
    (r : Ring) (base k payload_cap epoch : ℕ)
    → 1 ≤ k
    → k ≤ 62
    → IsValid (fresh_ring r base (2 ^ k) payload_cap epoch)
unfolding prime_cell
fresh_ring-IsValid r base k payload_cap epoch lo hi = record {
  shift = k;
  size = refl;
  many = many;
  bound = omega (arith, few);
  masked = refl;
  head_le = omega arith;
  commit_le = omega arith;
  room = omega arith;
  fresh = omega (arith, few);
  slots = λ p h q. inl (turn p h q, omega arith);
}
  where
    many : 2 ≤ 2 ^ k
    many = pow-le-pow_right (omega arith) {i = 1} {j = k} lo

    turn :
        (p : ℕ) → 0 ≤ p → p < 0 + 2 ^ k → seq_at (fresh_ring r base (2 ^ k) payload_cap epoch) p ≡ p
    turn p h q =
        let e : p % 2 ^ k ≡ p = mod-eq_of_lt (omega arith) in
        ap (λ i. (prime epoch (2 ^ k) 0 r.cells i).seq) e
        ∙ ap {A = Cell} (λ c. c.seq) (prime_in epoch (2 ^ k) 0 r.cells p h q)

    few : 2 ^ k ≤ 2 ^ 62
    few = pow-le-pow_right (omega arith) {i = k} {j = 62} hi

-- A new ring of at least two cells, and of at most 2 ^ 62, models the empty queue.
pub init_ring-Models :
    (r : Ring) (base k payload_cap epoch : ℕ)
    → 1 ≤ k
    → k ≤ 62
    → base % 64 ≡ 0
    → (s : Ring) × (init_ring r base (2 ^ k) payload_cap epoch ≡ ok s)
      × Models s (record { items = []; count = 0 })
      × (s.capacity ≡ 2 ^ k)
      × (s.epoch ≡ epoch)
init_ring-Models r base k payload_cap epoch lo hi line =
    let valid : IsValid (fresh_ring r base (2 ^ k) payload_cap epoch) =
      fresh_ring-IsValid r base k payload_cap epoch lo hi in
    (
      fresh_ring r base (2 ^ k) payload_cap epoch,
      init_ring_ok r base (2 ^ k) payload_cap epoch
          ((is_pow2_iff (2 ^ k) (omega (arith, valid.fresh))).1 (k, refl))
          ((is_aligned_iff base 6 (omega arith)).1 line) (two-pow_pos k),
      record {
        valid = valid;
        settled = refl;
        returned = λ p h q. omega (arith, valid.slots p h (omega arith), valid.many);
        items = refl;
        count = refl;
      },
      refl,
      refl,
    )
