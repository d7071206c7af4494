-- ===== src/Ring/Publish.antt =====
-- publish and advanceCommit: a published record is announced, and the commit index covers exactly
-- the contiguous published prefix.
use native.Mathlib.Nat.{add-mod_right}
use native.Mathlib.Decide.{ℕ_discrete}
use vautlage.Prelude.{
  ℕ, zero, suc, ◌+◌, ◌%◌, ◌^◌, ◌≤◌, ◌<◌, ◌≡◌, ◌≢◌, ◌⊎◌, inl, inr, refl, ap, some, arith, ◌∙◌, sym,
  List, length,
}
use vautlage.Ring.{Ring, Cell, Header, write_cell, fill, advance_commit, publish}
use vautlage.Ring.Valid.{IsValid, SlotOk, Claimed, seq_at, index_eq, lap_injective}

-- The sequence words after a write of the cell that serves `pos`.
pub seq_at-write_self :
    {r : Ring} → IsValid r → (pos : ℕ) (c : Cell) → seq_at (write_cell r pos c) pos ≡ c.seq
unfolding write_cell
seq_at-write_self {r} v pos c = ground (arith, index_eq v pos)

pub seq_at-write_ne :
    {r : Ring}
    → IsValid r
    → (pos q : ℕ) (c : Cell) → q % r.capacity ≢ pos % r.capacity
    → seq_at (write_cell r pos c) q ≡ seq_at r q
unfolding write_cell
seq_at-write_ne {r} v pos q c ne = ground (arith, index_eq v pos)

-- A position of the window other than the one that is due in the written cell.
pub window_ne :
    (r : Ring) (pos q : ℕ)
    → r.tail ≤ pos + r.capacity
    → pos < r.tail
    → r.tail ≤ q
    → q < r.tail + r.capacity
    → q ≢ pos + r.capacity
    → q % r.capacity ≢ pos % r.capacity
window_ne r pos q a b c d ne e = ne (
    lap_injective r.capacity r.tail q (pos + r.capacity) c d a (omega arith)
      (e ∙ sym (add-mod_right pos r.capacity)))

-- A write of a cell in flight keeps the ring valid if it leaves a proper state behind.
pub write-IsValid :
    {r : Ring}
    → IsValid r
    → (pos : ℕ) (c : Cell) → pos < r.tail
    → r.tail ≤ pos + r.capacity
    → (c.seq ≡ pos + 1) ⊎ ((c.seq ≡ pos + r.capacity) × (pos < r.head))
    → IsValid (write_cell r pos c)
unfolding write_cell
write-IsValid {r} v pos c given recent state = record {
  shift = v.shift;
  size = v.size;
  many = v.many;
  bound = v.bound;
  masked = v.masked;
  head_le = v.head_le;
  commit_le = v.commit_le;
  room = v.room;
  fresh = v.fresh;
  slots = slots;
}
  where
    slots : (p : ℕ) → r.tail ≤ p → p < r.tail + r.capacity → SlotOk (write_cell r pos c) p
    slots p lo hi = elim (ℕ_discrete p (pos + r.capacity)) [
      | yes e ↦ rw e (ground (arith, index_eq v pos, add-mod_right pos r.capacity))
      | no ne ↦
          ground (arith, index_eq v pos, v.slots p lo hi, window_ne r pos p recent given lo hi ne)
    ]

-- The ring with its commit index at `n`.
abbrev pub at_commit : Ring → ℕ → Ring
at_commit r n = record r { commit = n }

-- Where advanceCommit stops.
pub record Advanced (r : Ring) (n : ℕ) : Type 0 where
  pub forward : r.commit ≤ n
  pub within : n ≤ r.tail
  pub valid : IsValid (at_commit r n)
  pub written : (p : ℕ) → r.commit ≤ p → p < n → seq_at r p ≡ p + 1
  pub stop : (n ≡ r.tail) ⊎ (seq_at r n ≢ n + 1)

pub step-IsValid :
    {r : Ring}
    → IsValid r
    → r.commit < r.tail
    → seq_at r r.commit ≡ r.commit + 1
    → IsValid (at_commit r (r.commit + 1))
step-IsValid {r} v lt done = record {
  shift = v.shift;
  size = v.size;
  many = v.many;
  bound = v.bound;
  masked = v.masked;
  head_le = omega (arith, v.head_le);
  commit_le = omega arith;
  room = v.room;
  fresh = v.fresh;
  slots = slots;
}
  where
    slots : (p : ℕ) → r.tail ≤ p → p < r.tail + r.capacity → SlotOk (at_commit r (r.commit + 1)) p
    slots p lo hi = elim (ℕ_discrete p (r.commit + r.capacity)) [
      | yes e ↦ rw e (
          inr (
            inl (
              omega (arith, ap (λ i. (r.cells i).seq) (add-mod_right r.commit r.capacity)),
              omega arith,
            )))
      | no ne ↦ omega (arith, v.slots p lo hi)
    ]

advance_commit_stop :
    (fuel : ℕ) {r : Ring}
    → IsValid r
    → (r.commit ≡ r.tail) ⊎ (seq_at r r.commit ≢ r.commit + 1)
    → advance_commit (suc fuel) r ≡ some r
unfolding advance_commit
advance_commit_stop fuel {r} v h = ground (arith, index_eq v r.commit, v.fresh, v.commit_le, v.many)

advance_commit_next :
    (fuel : ℕ) {r : Ring}
    → IsValid r
    → r.commit ≢ r.tail
    → seq_at r r.commit ≡ r.commit + 1
    → advance_commit (suc fuel) r ≡ advance_commit fuel (at_commit r (r.commit + 1))
unfolding advance_commit
advance_commit_next fuel {r} v ne done =
    ground (arith, index_eq v r.commit, v.fresh, v.commit_le, v.many)

-- advanceCommit ends on a valid ring, whatever other producers have published out of order, in one
-- round more than it has positions to cover: it moves the commit index over exactly the contiguous
-- published positions and stops at the tail or at the first position still being written.
pub advance_commit_lem :
    (fuel : ℕ) {r : Ring}
    → IsValid r
    → r.tail < r.commit + fuel
    → (n : ℕ) × (advance_commit fuel r ≡ some (at_commit r n)) × Advanced r n
advance_commit_lem zero v enough = absurd (omega (arith, v.commit_le))
advance_commit_lem (suc fuel) {r} v enough = elim (ℕ_discrete r.commit r.tail) [
  | yes e ↦ (r.commit, advance_commit_stop fuel v (inl e), here (inl e))
  | no ne ↦ elim (ℕ_discrete (seq_at r r.commit) (r.commit + 1)) [
    | no gap ↦ (r.commit, advance_commit_stop fuel v (inr gap), here (inr gap))
    | yes done ↦
        let (n, run, a) =
          advance_commit_lem fuel (step-IsValid v (omega (arith, v.commit_le)) done)
            (omega arith) in
        (n, advance_commit_next fuel v ne done ∙ run, later n done a)
  ]
]
  where
    here : (r.commit ≡ r.tail) ⊎ (seq_at r r.commit ≢ r.commit + 1) → Advanced r r.commit
    here stop = record {
      forward = omega arith;
      within = v.commit_le;
      valid = v;
      written = λ p lo hi. absurd (omega arith);
      stop = stop;
    }

    later :
        (n : ℕ)
        → seq_at r r.commit ≡ r.commit + 1
        → Advanced (at_commit r (r.commit + 1)) n
        → Advanced r n
    later n done a = record {
      forward = omega (arith, a.forward);
      within = a.within;
      valid = a.valid;
      written = λ p lo hi. elim (ℕ_discrete p r.commit) [
        | yes e ↦ rw e done
        | no ne ↦ a.written p (omega arith) hi
      ];
      stop = a.stop;
    }

-- The ring with the record of `pos` written into its cell, before the commit index moves.
abbrev pub stored : Ring → ℕ → Header → List ℕ → Ring
stored r pos h payload = write_cell r pos (fill r pos h payload).1

pub fill-seq :
    (r : Ring) (pos : ℕ) (h : Header) (payload : List ℕ)
    → pos + 1 < 2 ^ 64
    → (fill r pos h payload).1.seq ≡ pos + 1
unfolding fill
fill-seq r pos h payload small = omega arith

pub stored-IsValid :
    {r : Ring}
    → IsValid r
    → {pos : ℕ} → Claimed r pos
    → (h : Header) (payload : List ℕ) → IsValid (stored r pos h payload)
stored-IsValid {r} v {pos} c h payload =
    write-IsValid v pos (fill r pos h payload).1 c.given c.recent
      (inl (fill-seq r pos h payload (omega (arith, v.fresh, c.given, v.many))))

fill-length :
    (r : Ring) (pos : ℕ) (h : Header) (payload : List ℕ) → (fill r pos h payload).0 ≡ length payload
unfolding fill
fill-length r pos h payload = ground arith

-- publish is the write of the cell, then advanceCommit.
pub publish_run :
    (fuel : ℕ) (r : Ring) (pos : ℕ) (h : Header) (payload : List ℕ) {r' : Ring}
    → advance_commit fuel (stored r pos h payload) ≡ some r'
    → publish fuel r pos h payload ≡ some (length payload, r')
unfolding publish
publish_run fuel r pos h payload e = ground (arith, e, fill-length r pos h payload)

write-tail : (r : Ring) (pos : ℕ) (c : Cell) → (write_cell r pos c).tail ≡ r.tail
unfolding write_cell
write-tail r pos c = refl

write-commit : (r : Ring) (pos : ℕ) (c : Cell) → (write_cell r pos c).commit ≡ r.commit
unfolding write_cell
write-commit r pos c = refl

-- The producer that holds `pos` publishes: the call ends on a valid ring and returns the number of
-- payload bytes, the position is published, and the commit index covers exactly the contiguous
-- published prefix of the ring after the write.
pub publish_lem :
    (fuel : ℕ) {r : Ring}
    → IsValid r
    → {pos : ℕ} → Claimed r pos
    → (h : Header) (payload : List ℕ) → r.tail < r.commit + fuel
    → let w = stored r pos h payload in
      (n : ℕ) × (publish fuel r pos h payload ≡ some (length payload, at_commit w n))
      × Advanced w n
      × (seq_at w pos ≡ pos + 1)
publish_lem fuel {r} v {pos} c h payload enough =
    let w : Cell = (fill r pos h payload).1 in
    let (n, run, a) =
      advance_commit_lem fuel (stored-IsValid v c h payload)
        (omega (arith, write-tail r pos w, write-commit r pos w)) in
    (
      n,
      publish_run fuel r pos h payload run,
      a,
      seq_at-write_self v pos w
          ∙ fill-seq r pos h payload (omega (arith, v.fresh, c.given, v.many)),
    )
