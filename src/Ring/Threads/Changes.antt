-- ===== src/Ring/Threads/Changes.antt =====
-- The four ways in which a thread changes the ring, and what they leave to the other threads.
use native.Mathlib.Decide.{ℕ_discrete}
use mathlib.Core.Path.{subst}
use mathlib.Core.Option.{some_inj}
use vautlage.Prelude.{ℕ, ◌+◌, ◌^◌, ◌≤◌, ◌<◌, ◌≡◌, ◌≢◌, inl, inr, some, refl, ap, arith}
use vautlage.Ring.{Ring}
use vautlage.Ring.Valid.{IsValid, seq_at}
use vautlage.Ring.Claim.{claimed, claimed-IsValid, claimed-frame}
use vautlage.Ring.Publish.{at_commit, step-IsValid}
use vautlage.Ring.Dequeue.{taken, taken-IsValid}
use vautlage.Ring.Threads.{
  Pc, idle, claiming, claim_seq, claim_cas, claim_won, publishing, advancing, advance_tail,
  advance_seq, advance_cas, dequeuing, dequeue_commit, dequeue_cas, dequeue_seq, reading, holding,
  broken, Mem,
}
use vautlage.Ring.Threads.Defs.{InFlight, held, Own, Written, Inv}
use vautlage.Ring.Threads.Frame.{Keeps, Rely, Own-moved}

pub held-InFlight : {r : Ring} {q : ℕ} (p : Pc) → Own r p → held p ≡ some q → InFlight r q
held-InFlight {r} (claim_won pos) o e = subst (InFlight r) (some_inj.0 e) (inl o)
held-InFlight {r} (publishing pos h payload k) o e = subst (InFlight r) (some_inj.0 e) (inl o.0)
held-InFlight {r} (dequeue_seq rec pos) o e = subst (InFlight r) (some_inj.0 e) (inr o)
held-InFlight {r} (reading pos s k) o e = subst (InFlight r) (some_inj.0 e) (inr o.0)
held-InFlight {r} (holding pos rec) o e = subst (InFlight r) (some_inj.0 e) (inr o.0)
held-InFlight (broken pos) o e = absurd o
held-InFlight (claim_seq pos) o e = cc
held-InFlight (claim_cas pos) o e = cc
held-InFlight (advance_tail c) o e = cc
held-InFlight (advance_seq c) o e = cc
held-InFlight (advance_cas c) o e = cc
held-InFlight (dequeue_commit rec pos) o e = cc
held-InFlight (dequeue_cas rec pos) o e = cc
held-InFlight idle o e = cc
held-InFlight claiming o e = cc
held-InFlight advancing o e = cc
held-InFlight (dequeuing rec) o e = cc

-- What the invariant says of the ring and of the threads but `i`, after a change to `m'`.
pub record Effect (m : Mem) (pc : ℕ → Pc) (i : ℕ) (m' : Mem) : Type 0 where
  pub valid : IsValid m'.ring
  pub low : (p : ℕ) → seq_at m'.ring p < m'.ring.tail + m'.ring.capacity
  pub others : (j : ℕ) → j ≢ i → Own m'.ring (pc j)
  pub content :
      (p : ℕ)
      → p < m'.ring.tail
      → m'.ring.tail ≤ p + m'.ring.capacity
      → seq_at m'.ring p ≡ p + 1
      → Written m' p

-- No other thread has the commit index to move for a reason that was not there before.
abbrev pub Quiet : Ring → Ring → Type 0
Quiet r s =
    s.commit < s.tail
    → seq_at s s.commit ≡ s.commit + 1
    → (s.commit ≡ r.commit) × (r.commit < r.tail) × (seq_at r r.commit ≡ r.commit + 1)

module _ {m : Mem} {pc : ℕ → Pc} (inv : Inv m pc) (i : ℕ) where
  abbrev r : Ring
  r = m.ring

  pub claimed-Effect :
      r.tail + 1 + r.capacity < 2 ^ 64
      → seq_at r r.tail ≡ r.tail
      → Effect m pc i (record m { ring = claimed r }) × Quiet r (claimed r)
  claimed-Effect small free = (
    record {
      valid = claimed-IsValid inv.valid small free;
      low = λ p. omega (arith, inv.low p);
      others = λ j ne. Own-moved (pc j) rely (λ q e. keep q) (inv.own j);
      content = λ p lt recent done. elim (ℕ_discrete p r.tail) [
        | yes e ↦ absurd (omega (arith, ap (seq_at r) e))
        | no ne ↦ inv.content p (omega arith) (omega arith) done
      ];
    },
    λ lt done. elim (ℕ_discrete r.commit r.tail) [
      | yes e ↦ absurd (omega (arith, ap (seq_at r) e))
      | no ne ↦ (refl, omega arith, done)
    ],
  )
    where
      keep : (q : ℕ) → Keeps r (claimed r) q
      keep q = let (a, b) = claimed-frame {r = r} {q = q} inv.valid free in (a, b, refl)

      rely : Rely r (claimed r)
      rely = record {
        tail_le = omega arith;
        commit_le = omega arith;
        head_le = omega arith;
        grown = λ p. omega arith;
        passed = λ lt. free;
        due = λ e. e;
        ready = λ lt e. e;
      }

  pub commit-Effect :
      r.commit < r.tail
      → seq_at r r.commit ≡ r.commit + 1
      → Effect m pc i (record m { ring = at_commit r (r.commit + 1) })
  commit-Effect lt done = record {
    valid = step-IsValid inv.valid lt done;
    low = inv.low;
    others = λ j ne. Own-moved (pc j) rely (λ q e. keep q) (inv.own j);
    content = inv.content;
  }
    where
      keep : (q : ℕ) → Keeps r (at_commit r (r.commit + 1)) q
      keep q = (
        λ c. record { given = c.given; recent = c.recent; turn = c.turn },
        λ c. record { given = c.given; recent = c.recent; turn = c.turn },
        refl,
      )

      rely : Rely r (at_commit r (r.commit + 1))
      rely = record {
        tail_le = omega arith;
        commit_le = omega arith;
        head_le = omega arith;
        grown = λ p. omega arith;
        passed = λ less. absurd (omega arith);
        due = λ e. e;
        ready = λ less e. e;
      }

  pub taken-Effect :
      r.head < r.commit → Effect m pc i (record m { ring = taken r }) × Quiet r (taken r)
  taken-Effect lt = (
    record {
      valid = taken-IsValid inv.valid lt;
      low = inv.low;
      others = λ j ne. Own-moved (pc j) rely (λ q e. keep q) (inv.own j);
      content = inv.content;
    },
    λ less done. (refl, less, done),
  )
    where
      keep : (q : ℕ) → Keeps r (taken r) q
      keep q = (
        λ c. record { given = c.given; recent = c.recent; turn = c.turn },
        λ c. record { given = omega (arith, c.given); recent = c.recent; turn = c.turn },
        refl,
      )

      rely : Rely r (taken r)
      rely = record {
        tail_le = omega arith;
        commit_le = omega arith;
        head_le = omega arith;
        grown = λ p. omega arith;
        passed = λ less. absurd (omega arith);
        due = λ e. e;
        ready = λ less e. e;
      }
