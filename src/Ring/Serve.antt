-- ===== src/Ring/Serve.antt =====
-- A consumer of a ring that models a queue is served the oldest record.
use native.Mathlib.Decide.{ℕ_discrete}
use vautlage.Prelude.{
  ℕ, suc, ◌+◌, ◌-◌, ◌≤◌, ◌<◌, ◌≡◌, inl, inr, List, [], ◌∷◌, none, some, ap, arith, ◌∙◌, sym, ◌⊎◌,
}
use vautlage.Record.{Record}
use vautlage.Ring.{Ring, dequeue, release, write_cell}
use vautlage.Ring.Valid.{IsValid, Taken, seq_at, lap_injective}
use vautlage.Ring.Dequeue.{taken, dequeue_lem, release_lem, seq_at-release_ne}
use vautlage.Ring.Entries.{entry, entries, entries-congr, entry-release}
use vautlage.Ring.Models.{Models, entry-taken, read_cell-entry}
use vautlage.Ring.Fifo.{Fifo}

-- What dequeue and then release do to the queue.
abbrev pub Serves : ℕ → Ring → Fifo → Record → Type 0
Serves fuel r q rec =
    ((q.items ≡ []) × (dequeue (suc fuel) r rec ≡ some (none, rec, r)))
    ⊎ ((x : Record) × (xs : List Record) × (q.items ≡ x ∷ xs)
        × (dequeue (suc fuel) r rec ≡ some (some r.head, record x { shard = rec.shard }, taken r))
        × Models (release (taken r) r.head) (record { items = xs; count = q.count }))

module _ {r : Ring} {q : Fifo} (m : Models r q) where
  open m use {valid, settled, returned, items, count}

  serve_first :
      r.head < r.commit
      → IsValid (taken r)
      → Taken (taken r) r.head
      → Models
          (release (taken r) r.head)
          (record { items = entries r (suc r.head) (r.tail - suc r.head); count = q.count })
  unfolding release write_cell
  serve_first lt tv tk = record {
    valid = (release_lem tv tk).0;
    settled = settled;
    returned = given_back;
    items = rest;
    count = count;
  }
    where
      given_back :
          (p : ℕ)
          → r.tail ≤ p
          → p < r.head + 1 + r.capacity
          → seq_at (release (taken r) r.head) p ≡ p
      given_back p lo hi = elim (ℕ_discrete p (r.head + r.capacity)) [
        | yes e ↦ rw e (release_lem tv tk).1
        | no ne ↦
            seq_at-release_ne tv r.head p (λ e. omega (
              arith,
              settled,
              lap_injective r.capacity r.head p r.head (omega (arith, settled)) (omega arith)
                  (omega arith) (omega (arith, valid.many)) e,
            ))
            ∙ returned p lo (omega arith)
      ]

      rest :
          entries r (suc r.head) (r.tail - suc r.head)
          ≡ entries (release (taken r) r.head) (r.head + 1) (r.tail - (r.head + 1))
      rest =
          let next : suc r.head ≡ r.head + 1 = omega arith in
          ap (λ p. entries r p (r.tail - p)) next
          ∙ entries-congr r (release (taken r) r.head) (r.head + 1) (r.tail - (r.head + 1))
              (λ p lo hi. sym (entry-release (taken r) r.head p ∙ entry-taken r p))

  pub serve_lem : (fuel : ℕ) (rec : Record) → Serves fuel r q rec
  serve_lem fuel rec = elim (dequeue_lem fuel valid rec) [
    | inr (e, run) ↦
        let none_left : r.tail - r.head ≡ 0 = omega (arith, settled) in
        inl (items ∙ ap (entries r r.head) none_left, run)
    | inl (lt, run, tv, tk) ↦
        let some_left : r.tail - r.head ≡ suc (r.tail - suc r.head) = omega (arith, settled) in
        inr (
          entry r r.head,
          entries r (suc r.head) (r.tail - suc r.head),
          items ∙ ap (entries r r.head) some_left,
          run ∙ rw (read_cell-entry r r.head rec),
          serve_first lt tv tk,
        )
  ]
