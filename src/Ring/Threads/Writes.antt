-- ===== src/Ring/Threads/Writes.antt =====
-- A thread writes the cell of the position that it holds.
use native.Mathlib.Decide.{ℕ_discrete}
use mathlib.Core.Path.{subst}
use vautlage.Prelude.{
  ℕ, add64, ◌+◌, ◌%◌, ◌≤◌, ◌<◌, ◌≡◌, ◌≢◌, ◌⊎◌, inl, inr, some, refl, sym, ap, ◌∙◌, arith, List,
}
use vautlage.Ring.{Ring, Cell, Header, write_cell}
use vautlage.Ring.Valid.{IsValid, seq_at, mod-suc-ne}
use vautlage.Ring.Publish.{seq_at-write_self, seq_at-write_ne}
use vautlage.Ring.Threads.Slots.{in_window, slot-write_ne}
use vautlage.Ring.Threads.{Pc, Mem}
use vautlage.Ring.Threads.Stores.{puts}
use vautlage.Ring.Threads.Defs.{InFlight, held, Written, Inv}
use vautlage.Ring.Threads.Frame.{Keeps, Rely, Own-moved}
use vautlage.Ring.Threads.Changes.{held-InFlight, Effect, Quiet}

-- The written cell keeps the ring valid, and its word grows within the bound of all words.
pub record HeldStore (r : Ring) (pos : ℕ) (c : Cell) : Type 0 where
  pub flying : InFlight r pos
  pub valid : IsValid (write_cell r pos c)
  pub grows : seq_at r pos ≤ c.seq
  pub bounded : c.seq < r.tail + r.capacity

module _ {m : Mem} {pc : ℕ → Pc} (inv : Inv m pc) (i : ℕ) (pos : ℕ) (c : Cell) where
  abbrev r : Ring
  r = m.ring

  abbrev w : Ring
  w = write_cell m.ring pos c

  abbrev Seqs : ℕ → Type 0
  Seqs q = (q % r.capacity ≡ pos % r.capacity) × (seq_at w q ≡ c.seq) × (seq_at r q ≡ seq_at r pos)

  seqs : (q : ℕ) → Seqs q ⊎ ((q % r.capacity ≢ pos % r.capacity) × (seq_at w q ≡ seq_at r q))
  unfolding write_cell
  seqs q = elim (ℕ_discrete (q % r.capacity) (pos % r.capacity)) [
    | yes e ↦ inl (
      e,
      ap (λ n. (w.cells n).seq) e ∙ seq_at-write_self inv.valid pos c,
      ap (λ n. (r.cells n).seq) e,
    )
    | no ne ↦ inr (ne, seq_at-write_ne inv.valid pos q c ne)
  ]

  -- Another position in the same cell is the written one, if it can be held.
  same_pos :
      HeldStore r pos c
      → (q : ℕ) → q < r.tail
      → r.tail ≤ q + r.capacity
      → q % r.capacity ≡ pos % r.capacity
      → q ≡ pos
  same_pos f q a b e = let (given, recent) = window f.flying in in_window r q pos a b given recent e
    where
      window : InFlight r pos → (pos < r.tail) × (r.tail ≤ pos + r.capacity)
      window (inl d) = (d.given, d.recent)
      window (inr d) = (omega (arith, d.given, inv.valid.head_le, inv.valid.commit_le), d.recent)

  other_cell :
      HeldStore r pos c
      → (q : ℕ) → q < r.tail
      → r.tail ≤ q + r.capacity
      → q ≢ pos
      → q % r.capacity ≢ pos % r.capacity
  other_cell f q a b ne e = ne (same_pos f q a b e)

  keep : HeldStore r pos c → (q : ℕ) → InFlight r q → q ≢ pos → Keeps r w q
  unfolding write_cell
  keep f q fly ne = (
    λ d. record { given = d.given; recent = d.recent; turn = seq_same ∙ d.turn },
    λ d. record { given = d.given; recent = d.recent; turn = seq_same ∙ d.turn },
    slot-write_ne inv.valid pos q c (apart fly),
  )
    where
      apart : InFlight r q → q % r.capacity ≢ pos % r.capacity
      apart (inl d) = other_cell f q d.given d.recent ne
      apart (inr d) =
          other_cell f q (omega (arith, d.given, inv.valid.head_le, inv.valid.commit_le)) d.recent
            ne

      seq_same : seq_at w q ≡ seq_at r q
      seq_same = seq_at-write_ne inv.valid pos q c (apart fly)

  -- What is in flight after the write was before it, but for the written position.
  pub flight_back : HeldStore r pos c → (q : ℕ) → q ≢ pos → InFlight w q → InFlight r q
  unfolding write_cell
  flight_back f q ne (inl d) = inl (record {
    given = d.given;
    recent = d.recent;
    turn = sym (seq_at-write_ne inv.valid pos q c (other_cell f q d.given d.recent ne)) ∙ d.turn;
  })
  flight_back f q ne (inr d) = inr (record { given = d.given; recent = d.recent; turn = turn })
    where
      below : q < r.tail
      below = omega (arith, d.given, inv.valid.head_le, inv.valid.commit_le)

      turn : seq_at r q ≡ q + 1
      turn = sym (seq_at-write_ne inv.valid pos q c (other_cell f q below d.recent ne)) ∙ d.turn

  -- The word of a cell that is due next, or published at the commit index, is not written.
  not_due : InFlight r pos → Seqs r.tail → seq_at r r.tail ≡ r.tail → ⊥
  not_due (inl d) (e, _, same) free = omega (arith, d.turn, d.given)
  not_due (inr d) (e, _, same) free =
      let next : r.tail ≡ pos + 1 = omega (arith, d.turn) in
      mod-suc-ne r.capacity pos inv.valid.many (ap (λ n. n % r.capacity) (sym next) ∙ e)

  not_ready :
      HeldStore r pos c → Seqs r.commit → r.commit < r.tail → seq_at r r.commit ≡ r.commit + 1 → ⊥
  not_ready f (e, _, same) less done = apart f.flying
    where
      here : r.commit ≡ pos
      here = same_pos f r.commit less (omega (arith, inv.valid.room, inv.valid.head_le)) e

      apart : InFlight r pos → ⊥
      apart (inl d) = omega (arith, d.turn, here)
      apart (inr d) = omega (arith, d.given, inv.valid.head_le, here)

  rely : HeldStore r pos c → Rely r w
  unfolding write_cell
  rely f = record {
    tail_le = omega arith;
    commit_le = omega arith;
    head_le = omega arith;
    grown = λ p. omega (arith, seqs p, f.grows);
    passed = λ less. absurd (omega arith);
    due = λ e. elim (seqs r.tail) [
      | inl s ↦ absurd (not_due f.flying s e)
      | inr (_, same) ↦ same ∙ e
    ];
    ready = λ less e. elim (seqs r.commit) [
      | inl s ↦ absurd (not_ready f s less e)
      | inr (_, same) ↦ same ∙ e
    ];
  }

  -- The write, with what it adds to the log.
  pub write-Effect :
      (log : ℕ → Header × List ℕ)
      → HeldStore r pos c
      → held (pc i) ≡ some pos
      → ((q : ℕ) → q ≢ pos → log q ≡ m.log q)
      → (c.seq ≡ pos + 1 → Written (record { ring = w; log = log }) pos)
      → Effect m pc i (record { ring = w; log = log })
  unfolding write_cell
  write-Effect log f mine logged whole = record {
    valid = f.valid;
    low = λ p. omega (arith, seqs p, f.bounded, inv.low p);
    others = λ j ne.
        Own-moved (pc j) (rely f)
          (λ q e.
            keep f q (held-InFlight (pc j) (inv.own j) e)
              (λ same. ne (inv.unique j i pos (e ∙ ap some same) mine)))
          (inv.own j);
    content = λ p lt recent done. elim (ℕ_discrete p pos) [
      | yes e ↦
          let new : c.seq ≡ pos + 1 =
            sym (seq_at-write_self inv.valid pos c)
            ∙ ap (seq_at w) (sym e)
            ∙ done
            ∙ ap (λ (n : ℕ). n + 1) e in
          subst (Written (record { ring = w; log = log })) (sym e) (whole new)
      | no ne ↦ kept p lt recent done ne
    ];
  }
    where
      kept :
          (p : ℕ)
          → p < r.tail
          → r.tail ≤ p + r.capacity
          → seq_at w p ≡ p + 1
          → p ≢ pos
          → Written (record { ring = w; log = log }) p
      kept p lt recent done ne =
          let apart : p % r.capacity ≢ pos % r.capacity = other_cell f p lt recent ne in
          let (old, e) =
            inv.content p lt recent (sym (seq_at-write_ne inv.valid pos p c apart) ∙ done) in
          let whole_as : Header × List ℕ → Cell =
            λ l. record (puts 8 r.epoch l.0 l.1 old) { seq = add64 p 1 } in
          (old, slot-write_ne inv.valid pos p c apart ∙ e ∙ ap whole_as (sym (logged p ne)))

  -- Unless the position is announced, the write leaves the commit index no more to do.
  pub write-Quiet : HeldStore r pos c → c.seq ≢ pos + 1 → Quiet r w
  unfolding write_cell
  write-Quiet f silent less done = elim (seqs r.commit) [
    | inr (_, same) ↦ (refl, less, sym same ∙ done)
    | inl (e, new, _) ↦
        let here : r.commit ≡ pos =
          same_pos f r.commit less (omega (arith, inv.valid.room, inv.valid.head_le)) e in
        absurd (silent (sym new ∙ done ∙ ap (λ (n : ℕ). n + 1) here))
  ]
