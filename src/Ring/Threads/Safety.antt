-- ===== src/Ring/Threads/Safety.antt =====
-- ring.go under any number of threads: cells are exclusive, records are delivered whole, the branch
-- for a broken invariant is never taken, and reports of saturation are true.
use mathlib.Core.Path.{subst}
use vautlage.Prelude.{ℕ, ◌+◌, ◌-◌, ◌^◌, ◌≤◌, ◌<◌, ◌≡◌, ◌≢◌, ◌⊎◌, some, ap, arith}
use vautlage.Atomics.{load}
use vautlage.Record.{Record}
use vautlage.Ring.{Ring, Cell, index, cell}
use vautlage.Ring.Valid.{seq_at, cell_eq}
use vautlage.Ring.Threads.{claim_seq, holding, broken, dif}
use vautlage.Ring.Threads.System.{System, Reach}
use vautlage.Ring.Threads.Defs.{held, Own}
use vautlage.Ring.Threads.Reached.{IsNew, Reached, Reach-Reached}
use vautlage.Ring.Threads.Facts.{published_at, cells_apart, holding_whole, due-Needed}

-- From a new ring, in fewer than 2 ^ 63 steps less its capacity, whatever the order of the threads'
-- accesses: two threads never hold positions in the same cell, be they producers that have claimed
-- and not announced, or consumers that have dequeued and not released.
pub exclusive_cells :
    {r : Ring} {n : ℕ} {s : System}
    → IsNew r
    → n + r.capacity < 2 ^ 63
    → Reach r n s
    → (i j : ℕ) {p q : ℕ} → i ≢ j
    → held (s.pc i) ≡ some p
    → held (s.pc j) ≡ some q
    → index s.mem.ring p ≢ index s.mem.ring q
exclusive_cells new small reach = cells_apart (Reach-Reached new small reach)

-- From a new ring, in fewer than 2 ^ 63 steps less its capacity, whatever the order of the threads'
-- accesses: no thread ever takes the branch of dequeue that is called structurally unreachable.
pub never_broken :
    {r : Ring} {n : ℕ} {s : System}
    → IsNew r
    → n + r.capacity < 2 ^ 63
    → Reach r n s
    → (i pos : ℕ) → s.pc i ≢ broken pos
never_broken {s} new small reach i pos e =
    let k = Reach-Reached new small reach in subst (Own s.mem.ring) e (k.inv.own i)

-- From a new ring, in fewer than 2 ^ 63 steps less its capacity, whatever the order of the threads'
-- accesses: between its dequeue and its release, a consumer's record is exactly the record that was
-- published at its position, header and payload, in the caller's record with its shard kept.
pub whole_record :
    {r : Ring} {n : ℕ} {s : System}
    → IsNew r
    → n + r.capacity < 2 ^ 63
    → Reach r n s
    → (i : ℕ) {pos : ℕ} {rec : Record} → s.pc i ≡ holding pos rec
    → rec ≡ record (published_at s.mem pos) { shard = rec.shard }
whole_record {s} new small reach i e =
    let k = Reach-Reached new small reach in
    holding_whole k (subst (Own s.mem.ring) e (k.inv.own i))

full-due :
    {r : Ring} {n : ℕ} {s : System} {pos : ℕ}
    → Reached r n s
    → n + r.capacity < 2 ^ 63
    → Own s.mem.ring (claim_seq pos)
    → 2 ^ 63 ≤ dif s.mem.ring pos
    → (pos ≡ s.mem.ring.tail) × (seq_at s.mem.ring pos ≢ pos)
unfolding load
full-due {s} {pos} k small o far =
    let word : (cell s.mem.ring pos).seq ≡ seq_at s.mem.ring pos =
      ap {A = Cell} (λ c. c.seq) (cell_eq k.inv.valid pos) in
    (omega (arith, word, k.inv.low pos, k.few, k.same), λ e. omega (arith, word, k.few, k.same))

-- From a new ring, in fewer than 2 ^ 63 steps less its capacity, whatever the order of the threads'
-- accesses: when a claim is about to report saturation, its view of the tail is not stale, and the
-- position one lap back is still held by a thread, or its record still waits to be dequeued.
pub true_saturation :
    {r : Ring} {n : ℕ} {s : System}
    → IsNew r
    → (small : n + r.capacity < 2 ^ 63) → (reach : Reach r n s) → (i : ℕ) {pos : ℕ}
    → s.pc i ≡ claim_seq pos
    → 2 ^ 63 ≤ dif s.mem.ring pos
    → let ring = s.mem.ring in
      (pos ≡ ring.tail)
      × (ring.capacity ≤ pos)
      × (((j : ℕ) × (held (s.pc j) ≡ some (pos - ring.capacity)))
          ⊎ ((ring.head ≤ pos - ring.capacity)
              × (seq_at ring (pos - ring.capacity) ≡ pos - ring.capacity + 1)))
true_saturation {s} new small reach i {pos} e far =
    let k = Reach-Reached new small reach in
    let (at_tail, busy) = full-due k small (subst (Own s.mem.ring) e (k.inv.own i)) far in
    let (le, needed) = due-Needed k pos (omega arith) (omega (arith, k.inv.valid.many)) busy in
    (at_tail, le, needed)
