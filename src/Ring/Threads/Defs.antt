-- ===== src/Ring/Threads/Defs.antt =====
-- The invariant of the threads: what each thread's locals say of the ring, who holds which position,
-- and that the published cells hold what was published.
use vautlage.Prelude.{ℕ, ◌+◌, ◌%◌, ◌≤◌, ◌<◌, ◌≡◌, ◌⊎◌, Option, none, some, List, add64}
use vautlage.Record.{Record}
use vautlage.Ring.{Ring, Cell, Header, index}
use vautlage.Ring.Valid.{IsValid, Claimed, Taken, seq_at}
use vautlage.Ring.Threads.{
  Pc, claim_seq, claim_cas, claim_won, publishing, advancing, advance_tail, advance_seq,
  advance_cas, dequeue_commit, dequeue_cas, dequeue_seq, reading, holding, broken, Seen, Mem,
}
use vautlage.Ring.Threads.Stores.{puts, gets, unread}

-- The position that a thread has claimed and not announced, or has taken and not released.
abbrev pub held : Pc → Option ℕ
held (claim_won pos) = some pos
held (publishing pos h payload k) = some pos
held (dequeue_seq rec pos) = some pos
held (reading pos s k) = some pos
held (holding pos rec) = some pos
held _ = none

-- A held position is being written by its producer or read by its consumer.
abbrev pub InFlight : Ring → ℕ → Type 0
InFlight r q = Claimed r q ⊎ Taken r q

-- The cell that serves `pos`.
abbrev pub slot_of : Ring → ℕ → Cell
slot_of r pos = r.cells (pos % r.capacity)

-- `k` stores of publish are done.
abbrev pub Stored : Ring → ℕ → Header → List ℕ → ℕ → Type 0
Stored r pos h payload k = (c : Cell) × (slot_of r pos ≡ puts k r.epoch h payload c)

-- `k` loads of dequeue are done.
abbrev pub Loaded : Ring → ℕ → Seen → ℕ → Type 0
Loaded r pos s k = (rec : Record) × (s ≡ gets k (index r pos) (slot_of r pos) (unread rec))

abbrev pub Read : Ring → ℕ → Record → Type 0
Read r pos rec = (old : Record) × (rec ≡ (gets 8 (index r pos) (slot_of r pos) (unread old)).rec)

abbrev pub Own : Ring → Pc → Type 0
Own r (claim_seq pos) = (pos ≡ r.tail) ⊎ ((pos < r.tail) × (pos ≤ seq_at r pos))
Own r (claim_cas pos) = (pos < r.tail) ⊎ ((pos ≡ r.tail) × (seq_at r pos ≡ pos))
Own r (claim_won pos) = Claimed r pos
Own r (publishing pos h payload k) = Claimed r pos × Stored r pos h payload k
Own r (advance_tail c) = c ≤ r.commit
Own r (advance_seq c) = (c ≤ r.commit) × (c < r.tail)
Own r (advance_cas c) = (c < r.commit) ⊎ ((c ≡ r.commit) × (c < r.tail) × (seq_at r c ≡ c + 1))
Own r (dequeue_commit rec pos) = pos ≤ r.head
Own r (dequeue_cas rec pos) = (pos < r.head) ⊎ ((pos ≡ r.head) × (pos < r.commit))
Own r (dequeue_seq rec pos) = Taken r pos
Own r (reading pos s k) = Taken r pos × Loaded r pos s k
Own r (holding pos rec) = Taken r pos × Read r pos rec
Own r (broken pos) = ⊥
Own r _ = Unit

-- A thread that moves the commit index on if position `c` is the next and has been published.
abbrev pub Helps : ℕ → Pc → Type 0
Helps c advancing = Unit
Helps c (advance_tail d) = d ≡ c
Helps c (advance_seq d) = d ≡ c
Helps c (advance_cas d) = d ≡ c
Helps c _ = ⊥

abbrev pub Helper : Ring → (ℕ → Pc) → Type 0
Helper r pc = (j : ℕ) × Helps r.commit (pc j)

-- The record of `p` is in its cell, whole.
abbrev pub Written : Mem → ℕ → Type 0
Written m p =
    (c : Cell) × (slot_of m.ring p
      ≡ record (puts 8 m.ring.epoch (m.log p).0 (m.log p).1 c) { seq = add64 p 1 })

pub record Inv (m : Mem) (pc : ℕ → Pc) : Type 0 where
  pub valid : IsValid m.ring
  pub low : (p : ℕ) → seq_at m.ring p < m.ring.tail + m.ring.capacity
  pub own : (i : ℕ) → Own m.ring (pc i)
  pub unique : (i j p : ℕ) → held (pc i) ≡ some p → held (pc j) ≡ some p → i ≡ j
  pub covered : (p : ℕ) → InFlight m.ring p → (j : ℕ) × (held (pc j) ≡ some p)
  pub content :
      (p : ℕ)
      → p < m.ring.tail
      → m.ring.tail ≤ p + m.ring.capacity
      → seq_at m.ring p ≡ p + 1
      → Written m p
  pub helped :
      m.ring.commit < m.ring.tail
      → seq_at m.ring m.ring.commit ≡ m.ring.commit + 1
      → Helper m.ring pc
