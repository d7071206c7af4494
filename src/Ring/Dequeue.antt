-- ===== src/Ring/Dequeue.antt =====
-- dequeue and release: a consumer takes the oldest committed record, and gives the cell back.
use native.Mathlib.Nat.{add-mod_right}
use native.Mathlib.Decide.{dec_lt}
use vautlage.Prelude.{ℕ, suc, ◌+◌, ◌%◌, ◌≤◌, ◌<◌, ◌≡◌, ◌≢◌, ◌⊎◌, inl, inr, ap, none, some, arith}
use vautlage.Record.{Record}
use vautlage.Ring.{Ring, read_cell, dequeue, release}
use vautlage.Ring.Valid.{IsValid, Taken, seq_at, index_eq}
use vautlage.Ring.Publish.{write-IsValid}

abbrev pub taken : Ring → Ring
taken r = record r { head = r.head + 1 }

-- Below the commit index and not yet dequeued: published.
pub committed-turn :
    {r : Ring} → IsValid r → (p : ℕ) → r.head ≤ p → p < r.commit → seq_at r p ≡ p + 1
committed-turn {r} v p lo hi = omega (
  arith,
  v.slots (p + r.capacity) (omega (arith, v.room)) (omega (arith, v.commit_le)),
  ap (λ i. (r.cells i).seq) (add-mod_right p r.capacity),
)

pub taken-IsValid : {r : Ring} → IsValid r → r.head < r.commit → IsValid (taken r)
taken-IsValid {r} v lt = record {
  shift = v.shift;
  size = v.size;
  many = v.many;
  bound = v.bound;
  masked = v.masked;
  head_le = omega arith;
  commit_le = v.commit_le;
  room = omega (arith, v.room);
  fresh = v.fresh;
  slots = λ p lo hi. omega (arith, v.slots p lo hi);
}

-- On a valid ring dequeue ends in its first round, and never takes the branch for a broken
-- invariant. If a committed record is left, it reads the record at the head for this consumer alone
-- and keeps the ring valid; otherwise it changes nothing.
pub dequeue_lem :
    (fuel : ℕ) {r : Ring}
    → IsValid r
    → (rec : Record)
    → ((r.head < r.commit)
        × (dequeue (suc fuel) r rec ≡ some (some r.head, read_cell r r.head rec, taken r))
        × IsValid (taken r)
        × Taken (taken r) r.head)
      ⊎ ((r.head ≡ r.commit) × (dequeue (suc fuel) r rec ≡ some (none, rec, r)))
unfolding dequeue
dequeue_lem fuel {r} v rec = elim (dec_lt r.head r.commit) [
  | yes lt ↦ inl (
    lt,
    ground (arith, index_eq v r.head, v.fresh, v.commit_le, committed-turn v r.head),
    taken-IsValid v lt,
    record {
      given = omega arith;
      recent = v.room;
      turn = committed-turn v r.head (omega arith) lt;
    },
  )
  | no nlt ↦ inr (omega (arith, v.head_le), ground (arith, v.head_le))
]

-- The consumer that holds `pos` releases it: the ring stays valid, and the cell is free for the
-- producer one lap on.
pub release_lem :
    {r : Ring}
    → IsValid r
    → {pos : ℕ} → Taken r pos
    → IsValid (release r pos) × (seq_at (release r pos) (pos + r.capacity) ≡ pos + r.capacity)
unfolding release
release_lem {r} v {pos} t = (
  write-IsValid v pos _ (omega (arith, t.given, v.head_le, v.commit_le)) t.recent
      (inr (ground (arith, v.fresh, t.given, v.head_le, v.commit_le), t.given)),
  ground (
    arith,
    index_eq v pos,
    add-mod_right pos r.capacity,
    v.fresh,
    t.given,
    v.head_le,
    v.commit_le,
  ),
)

pub seq_at-release_ne :
    {r : Ring}
    → IsValid r
    → (pos q : ℕ) → q % r.capacity ≢ pos % r.capacity
    → seq_at (release r pos) q ≡ seq_at r q
unfolding release
seq_at-release_ne {r} v pos q ne = ground (arith, index_eq v pos)
