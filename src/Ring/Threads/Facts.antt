-- ===== src/Ring/Threads/Facts.antt =====
-- What the invariant says of the positions in flight and of the published cells.
use native.Mathlib.Nat.{sub-add_cancel, add-mod_right}
use native.Mathlib.Decide.{dec_lt}
use mathlib.Core.Path.{subst}
use vautlage.Prelude.{ℕ, ◌+◌, ◌-◌, ◌≤◌, ◌<◌, ◌≡◌, ◌≢◌, ◌⊎◌, inl, inr, some, sym, ap, ◌∙◌, arith}
use vautlage.Record.{Record}
use vautlage.Ring.{Ring, index}
use vautlage.Ring.Fifo.{delivery}
use vautlage.Ring.Valid.{Taken, seq_at, index_eq}
use vautlage.Ring.Threads.{holding, Mem}
use vautlage.Ring.Threads.System.{System}
use vautlage.Ring.Threads.Stores.{gets, unread, gets-puts}
use vautlage.Ring.Threads.Defs.{InFlight, Helps, held, Own, Written, slot_of}
use vautlage.Ring.Threads.Changes.{held-InFlight}
use vautlage.Ring.Threads.Slots.{in_window}
use vautlage.Ring.Threads.Reached.{Reached}

-- The record that was published at position `p`.
abbrev pub published_at : Mem → ℕ → Record
published_at m p = delivery m.ring.capacity m.ring.epoch p (m.log p).0 (m.log p).1

module _ {r : Ring} {n : ℕ} {s : System} (k : Reached r n s) where
  open k use {inv}

  abbrev ring : Ring
  ring = s.mem.ring

  window : {q : ℕ} → InFlight ring q → (q < ring.tail) × (ring.tail ≤ q + ring.capacity)
  window (inl d) = (d.given, d.recent)
  window (inr d) = (omega (arith, d.given, inv.valid.head_le, inv.valid.commit_le), d.recent)

  pub cells_apart :
      (i j : ℕ) {p q : ℕ}
      → i ≢ j
      → held (s.pc i) ≡ some p
      → held (s.pc j) ≡ some q
      → index ring p ≢ index ring q
  cells_apart i j {p} {q} ne hp hq e =
      let (lt, recent) = window (held-InFlight (s.pc i) (inv.own i) hp) in
      let (lt', recent') = window (held-InFlight (s.pc j) (inv.own j) hq) in
      let same : p ≡ q =
        in_window ring p q lt recent lt' recent'
          (sym (index_eq inv.valid p) ∙ e ∙ index_eq inv.valid q) in
      ne (inv.unique i j q (hp ∙ ap some same) hq)

  -- Loads from a published cell return what was published.
  pub Written-read :
      {p : ℕ}
      → Written s.mem p
      → (old : Record)
      → (gets 8 (index ring p) (slot_of ring p) (unread old)).rec
        ≡ record (published_at s.mem p) { shard = old.shard }
  Written-read {p} (c, e) old =
      ap (λ x. (gets 8 (index ring p) x (unread old)).rec) e
      ∙ gets-puts ring.capacity ring.epoch (index ring p) p _ (s.mem.log p).0 (s.mem.log p).1 c old
          (index_eq inv.valid p)

  pub Taken-Written : {p : ℕ} → Taken ring p → Written s.mem p
  Taken-Written {p} d = let (lt, recent) = window (inr d) in inv.content p lt recent d.turn

  pub holding_whole :
      {pos : ℕ} {rec : Record}
      → Own ring (holding pos rec)
      → rec ≡ record (published_at s.mem pos) { shard = rec.shard }
  holding_whole {pos} {rec} (t, (old, e)) =
      let whole : rec ≡ record (published_at s.mem pos) { shard = old.shard } =
        e ∙ Written-read (Taken-Written t) old in
      whole
      ∙ ap (λ sh. record (published_at s.mem pos) { shard = sh })
          (sym (ap {A = Record} (λ x. x.shard) whole))

  -- The position one lap back from the cell that is due.
  back : {p : ℕ} → ring.capacity ≤ p → seq_at ring p ≡ seq_at ring (p - ring.capacity)
  back {p} le =
      subst (λ t. seq_at ring t ≡ seq_at ring (p - ring.capacity)) (sub-add_cancel le)
        (ap (λ x. (ring.cells x).seq) (add-mod_right (p - ring.capacity) ring.capacity))

  -- Who still needs the cell that the producer of `p` waits for.
  abbrev pub Needed : ℕ → Type 0
  Needed q = ((j : ℕ) × (held (s.pc j) ≡ some q)) ⊎ ((ring.head ≤ q) × (seq_at ring q ≡ q + 1))

  pub due-Needed :
      (p : ℕ)
      → ring.tail ≤ p
      → p < ring.tail + ring.capacity
      → seq_at ring p ≢ p
      → (ring.capacity ≤ p) × Needed (p - ring.capacity)
  due-Needed p lo hi busy = elim (inv.valid.slots p lo hi) [
    | inl (free, _) ↦ absurd (busy free)
    | inr (inl (done, le)) ↦ elim (dec_lt (p - ring.capacity) ring.head) [
      | yes lt ↦ (
        le,
        inl (
            inv.covered (p - ring.capacity)
              (inr (record { given = lt; recent = omega arith; turn = omega (arith, back le) }))),
      )
      | no ge ↦ (le, inr (omega arith, omega (arith, back le)))
    ]
    | inr (inr (writing, le)) ↦
        let back_le : ring.capacity ≤ p = omega arith in
        (
          back_le,
          inl (
              inv.covered (p - ring.capacity) (
                inl (record {
                  given = omega arith;
                  recent = omega arith;
                  turn = omega (arith, back back_le);
                }))),
        )
  ]

  -- Unless everything is committed, the next position is still being written, or a thread helps.
  pub next_commit :
      ring.commit < ring.tail
      → ((j : ℕ) × (held (s.pc j) ≡ some ring.commit) × (seq_at ring ring.commit ≡ ring.commit))
        ⊎ ((j : ℕ) × Helps ring.commit (s.pc j))
  next_commit lt =
      elim (inv.valid.slots (ring.commit + ring.capacity)
        (omega (arith, inv.valid.room, inv.valid.head_le)) (omega arith)) [
          | inl (_, beyond) ↦ absurd (omega (arith, inv.valid.head_le))
          | inr (inl (done, _)) ↦ inr (inv.helped lt (omega (arith, lap)))
          | inr (inr (writing, _)) ↦
              let turn : seq_at ring ring.commit ≡ ring.commit = omega (arith, lap) in
              let (j, e) = inv.covered ring.commit (
                inl (record {
                  given = lt;
                  recent = omega (arith, inv.valid.room, inv.valid.head_le);
                  turn = turn;
                })) in
              inl (j, e, turn)
        ]
    where
      lap : seq_at ring (ring.commit + ring.capacity) ≡ seq_at ring ring.commit
      lap = ap (λ x. (ring.cells x).seq) (add-mod_right ring.commit ring.capacity)
