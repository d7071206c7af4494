-- ===== src/Ring/Threads/Slots.antt =====
-- Which positions share a cell, and a cell after it is written.
use native.Mathlib.Nat.{add-mod_right}
use native.Mathlib.Decide.{ℕ_discrete}
use vautlage.Prelude.{ℕ, ◌+◌, ◌%◌, ◌≤◌, ◌<◌, ◌≡◌, ◌≢◌, sym, ap, ◌∙◌, arith}
use vautlage.Ring.{Ring, Cell, write_cell}
use vautlage.Ring.Valid.{IsValid, seq_at, index_eq, lap_injective}
use vautlage.Ring.Publish.{seq_at-write_self, seq_at-write_ne}
use vautlage.Ring.Threads.Defs.{slot_of}

-- Of the positions that can be held no two share a cell.
pub in_window :
    (r : Ring) (p q : ℕ)
    → p < r.tail
    → r.tail ≤ p + r.capacity
    → q < r.tail
    → r.tail ≤ q + r.capacity
    → p % r.capacity ≡ q % r.capacity
    → p ≡ q
in_window r p q a b a' b' e = omega (
  arith,
  lap_injective r.capacity r.tail (p + r.capacity) (q + r.capacity) b (omega arith) b' (omega arith)
      (add-mod_right p r.capacity ∙ e ∙ sym (add-mod_right q r.capacity)),
)

pub slot-write_self :
    {r : Ring} → IsValid r → (pos : ℕ) (c : Cell) → slot_of (write_cell r pos c) pos ≡ c
unfolding write_cell
slot-write_self {r} v pos c = ground (arith, index_eq v pos)

pub slot-write_ne :
    {r : Ring}
    → IsValid r
    → (pos q : ℕ) (c : Cell) → q % r.capacity ≢ pos % r.capacity
    → slot_of (write_cell r pos c) q ≡ slot_of r q
unfolding write_cell
slot-write_ne {r} v pos q c ne = ground (arith, index_eq v pos)

-- A write that leaves the word as it was.
pub same-IsValid :
    {r : Ring}
    → IsValid r
    → (pos : ℕ) (c : Cell) → c.seq ≡ seq_at r pos
    → IsValid (write_cell r pos c)
unfolding write_cell
same-IsValid {r} v pos c same = record {
  shift = v.shift;
  size = v.size;
  many = v.many;
  bound = v.bound;
  masked = v.masked;
  head_le = v.head_le;
  commit_le = v.commit_le;
  room = v.room;
  fresh = v.fresh;
  slots = λ p lo hi. omega (arith, v.slots p lo hi, seqs p);
}
  where
    seqs : (q : ℕ) → seq_at (write_cell r pos c) q ≡ seq_at r q
    seqs q = elim (ℕ_discrete (q % r.capacity) (pos % r.capacity)) [
      | yes e ↦
          ap (λ n. ((write_cell r pos c).cells n).seq) e
          ∙ seq_at-write_self v pos c
          ∙ same
          ∙ ap (λ n. (r.cells n).seq) (sym e)
      | no ne ↦ seq_at-write_ne v pos q c ne
    ]
