-- ===== src/Ring/Threads/Quiescence.antt =====
-- ring.go under any number of threads: what they leave behind when they stop.
use native.Mathlib.Decide.{dec_lt, ℕ_discrete}
use mathlib.Core.Path.{subst}
use vautlage.Prelude.{
  ℕ, zero, suc, ◌+◌, ◌-◌, ◌^◌, ◌≤◌, ◌<◌, ◌≡◌, ◌≢◌, ◌⊎◌, inl, inr, none, some, refl, sym, ap, ◌∙◌,
  arith, List, [], ◌∷◌,
}
use vautlage.Record.{Record, blank}
use vautlage.Ring.{Ring, index}
use vautlage.Ring.Valid.{seq_at, cell_eq}
use vautlage.Ring.Entries.{entry, entries}
use vautlage.Ring.Dequeue.{committed-turn}
use vautlage.Ring.Models.{Models}
use vautlage.Ring.Threads.{Pc, idle, Mem}
use vautlage.Ring.Threads.System.{System, Reach}
use vautlage.Ring.Threads.Stores.{unread, gets, gets-read_cell}
use vautlage.Ring.Threads.Defs.{held, Helps}
use vautlage.Ring.Threads.Reached.{IsNew, Reached, Reach-Reached}
use vautlage.Ring.Threads.Facts.{published_at, Written-read, due-Needed, next_commit}

-- The thread is not inside advanceCommit.
abbrev pub IsOutside : Pc → Type 0
IsOutside p = (c : ℕ) → Helps c p → ⊥

-- From a new ring, in fewer than 2 ^ 63 steps less its capacity, whatever the order of the threads'
-- accesses: while no thread is inside advanceCommit, the commit index stands at the tail, or at a
-- position that a producer still holds and has not announced.
pub commit_not_behind :
    {r : Ring} {n : ℕ} {s : System}
    → IsNew r
    → n + r.capacity < 2 ^ 63
    → Reach r n s
    → ((i : ℕ) → IsOutside (s.pc i))
    → let ring = s.mem.ring in
      (ring.commit ≡ ring.tail)
      ⊎ ((j : ℕ) × (held (s.pc j) ≡ some ring.commit) × (seq_at ring ring.commit ≡ ring.commit))
commit_not_behind {s} new small reach outside =
    let k = Reach-Reached new small reach in
    elim (dec_lt s.mem.ring.commit s.mem.ring.tail) [
      | no ge ↦ inl (omega (arith, k.inv.valid.commit_le))
      | yes lt ↦ elim (next_commit k lt) [
        | inl writing ↦ inr writing
        | inr (j, helps) ↦ absurd (outside j s.mem.ring.commit helps)
      ]
    ]

-- The records that were published from position `p` on.
abbrev pub logged : Mem → ℕ → ℕ → List Record
logged m p zero = []
logged m p (suc n) = published_at m p ∷ logged m (suc p) n

logged-entries :
    (m : Mem) (p n : ℕ)
    → ((q : ℕ) → p ≤ q → q < p + n → published_at m q ≡ entry m.ring q)
    → logged m p n ≡ entries m.ring p n
logged-entries m p zero h = refl
logged-entries m p (suc n) h = rw (h p (omega arith) (omega arith)) (
    ap (◌∷◌ (entry m.ring p))
      (logged-entries m (suc p) n (λ q lo hi. h q (omega arith) (omega arith))))

module _ {r : Ring} {n : ℕ} {s : System} (k : Reached r n s) where
  open k use {inv}

  abbrev ring : Ring
  ring = s.mem.ring

  committed-entry : (q : ℕ) → ring.head ≤ q → q < ring.commit → published_at s.mem q ≡ entry ring q
  committed-entry q lo hi =
      let written =
        inv.content q (omega (arith, inv.valid.commit_le)) (omega (arith, inv.valid.room))
          (committed-turn inv.valid q lo hi) in
      sym (
        sym (gets-read_cell ring q blank)
        ∙ ap (λ c. (gets 8 (index ring q) c (unread blank)).rec) (cell_eq inv.valid q)
        ∙ Written-read k written blank)

  module _ (quiet : (i : ℕ) → s.pc i ≡ idle) where
    nobody : (j q : ℕ) → held (s.pc j) ≢ some q
    nobody j q e = let e' : none ≡ some q = sym (ap held (quiet j)) ∙ e in cc

    settled : ring.commit ≡ ring.tail
    settled = elim (dec_lt ring.commit ring.tail) [
      | no ge ↦ omega (arith, inv.valid.commit_le)
      | yes lt ↦ elim (next_commit k lt) [
        | inl (j, e, _) ↦ absurd (nobody j ring.commit e)
        | inr (j, helps) ↦ absurd (subst (Helps ring.commit) (quiet j) helps)
      ]
    ]

    returned : (p : ℕ) → ring.tail ≤ p → p < ring.head + ring.capacity → seq_at ring p ≡ p
    returned p lo hi = elim (ℕ_discrete (seq_at ring p) p) [
      | yes free ↦ free
      | no busy ↦
          let (le, needed) =
            due-Needed k p lo (omega (arith, inv.valid.head_le, inv.valid.commit_le)) busy in
          elim needed [
            | inl (j, e) ↦ absurd (nobody j (p - ring.capacity) e)
            | inr (waits, _) ↦ absurd (omega arith)
          ]
    ]

    pub idle-Models :
        Models ring
          (record { items = logged s.mem ring.head (ring.tail - ring.head); count = ring.tail })
    idle-Models = record {
      valid = inv.valid;
      settled = settled;
      returned = returned;
      items =
          logged-entries s.mem ring.head (ring.tail - ring.head)
            (λ q lo hi. committed-entry q lo (omega (arith, settled)));
      count = refl;
    }

-- From a new ring, in fewer than 2 ^ 63 steps less its capacity, whatever the order of the threads'
-- accesses: when every thread has returned, the ring models the queue of the records published from
-- its head to its tail, in order: nothing is left to commit, and every other cell is free.
pub quiescent-Models :
    {r : Ring} {n : ℕ} {s : System}
    → IsNew r
    → n + r.capacity < 2 ^ 63
    → Reach r n s
    → ((i : ℕ) → s.pc i ≡ idle)
    → let ring = s.mem.ring in
      Models ring
        (record { items = logged s.mem ring.head (ring.tail - ring.head); count = ring.tail })
quiescent-Models new small reach quiet = idle-Models (Reach-Reached new small reach) quiet
