-- ===== src/Ring/Threads/Frame.antt =====
-- What a thread may rely on while another thread moves: its locals stay true of the ring.
use vautlage.Prelude.{ℕ, ◌+◌, ◌≤◌, ◌<◌, ◌≡◌, inl, inr, some, refl, sym, ap, ◌∙◌, arith}
use vautlage.Ring.{Ring, Cell, index}
use vautlage.Ring.Valid.{Claimed, Taken, seq_at}
use vautlage.Ring.Threads.{
  Pc, idle, claiming, claim_seq, claim_cas, claim_won, publishing, advancing, advance_tail,
  advance_seq, advance_cas, dequeuing, dequeue_commit, dequeue_cas, dequeue_seq, reading, holding,
  broken,
}
use vautlage.Ring.Threads.Stores.{gets, unread}
use vautlage.Ring.Threads.Defs.{held, slot_of, Own}

-- The ring with other cells and cursors.
abbrev pub moved : Ring → (ℕ → Cell) → ℕ → ℕ → ℕ → Ring
moved r cells tail commit head = record r {
  cells = cells;
  tail = tail;
  commit = commit;
  head = head;
}

-- A position that somebody holds stays held, and its cell as it is.
abbrev pub Keeps : Ring → Ring → ℕ → Type 0
Keeps r s q = (Claimed r q → Claimed s q) × (Taken r q → Taken s q) × (slot_of s q ≡ slot_of r q)

-- Cursors and sequence words only grow. The tail passes a position when its cell is free; the words
-- of the cell that is due and of a published cell at the commit index wait for those cursors.
pub record Rely (r s : Ring) : Type 0 where
  pub tail_le : r.tail ≤ s.tail
  pub commit_le : r.commit ≤ s.commit
  pub head_le : r.head ≤ s.head
  pub grown : (p : ℕ) → seq_at r p ≤ seq_at s p
  pub passed : r.tail < s.tail → seq_at r r.tail ≡ r.tail
  pub due : seq_at r r.tail ≡ r.tail → seq_at s r.tail ≡ r.tail
  pub ready :
      r.commit < r.tail → seq_at r r.commit ≡ r.commit + 1 → seq_at s r.commit ≡ r.commit + 1

module _ {r : Ring} {cells : ℕ → Cell} {tail commit head : ℕ} where
  pub Own-moved :
      (p : Pc)
      → Rely r (moved r cells tail commit head)
      → ((q : ℕ) → held p ≡ some q → Keeps r (moved r cells tail commit head) q)
      → Own r p
      → Own (moved r cells tail commit head) p
  Own-moved (claim_seq pos) f keep (inl e) =
      omega (arith, e, f.tail_le, f.passed, f.grown pos, ap (seq_at r) e)
  Own-moved (claim_seq pos) f keep (inr (a, b)) =
      inr (omega (arith, f.tail_le), omega (arith, f.grown pos))
  Own-moved (claim_cas pos) f keep (inl lt) = inl (omega (arith, f.tail_le))
  Own-moved (claim_cas pos) f keep (inr (e, free)) = omega (
    arith,
    f.tail_le,
    f.due (sym (ap (seq_at r) e) ∙ free ∙ e),
    ap (seq_at (moved r cells tail commit head)) e,
  )
  Own-moved (claim_won pos) f keep o = (keep pos refl).0 o
  Own-moved (publishing pos h payload k) f keep (claim, (c, e)) =
      let (a, b, same) = keep pos refl in (a claim, (c, same ∙ e))
  Own-moved (advance_tail c) f keep o = omega (arith, f.commit_le)
  Own-moved (advance_seq c) f keep (a, b) = (omega (arith, f.commit_le), omega (arith, f.tail_le))
  Own-moved (advance_cas c) f keep (inl lt) = inl (omega (arith, f.commit_le))
  Own-moved (advance_cas c) f keep (inr (e, lt, done)) = omega (
    arith,
    f.commit_le,
    f.tail_le,
    f.ready (omega arith) (sym (ap (seq_at r) e) ∙ done ∙ ap (λ (n : ℕ). n + 1) e),
    ap (seq_at (moved r cells tail commit head)) e,
  )
  Own-moved (dequeue_commit rec pos) f keep o = omega (arith, f.head_le)
  Own-moved (dequeue_cas rec pos) f keep o = ground (arith, f.head_le, f.commit_le)
  Own-moved (dequeue_seq rec pos) f keep o = (keep pos refl).1 o
  Own-moved (reading pos s k) f keep (t, (rec, e)) =
      let (a, b, same) = keep pos refl in
      (b t, (rec, e ∙ ap (λ c. gets k (index r pos) c (unread rec)) (sym same)))
  Own-moved (holding pos rec) f keep (t, (old, e)) =
      let (a, b, same) = keep pos refl in
      (b t, (old, e ∙ ap (λ c. (gets 8 (index r pos) c (unread old)).rec) (sym same)))
  Own-moved (broken pos) f keep o = o
  Own-moved idle f keep o = tt
  Own-moved claiming f keep o = tt
  Own-moved advancing f keep o = tt
  Own-moved (dequeuing rec) f keep o = tt
