-- ===== src/Ring/Threads/Announced.antt =====
-- publish as the single accesses of one thread: its stores, the announcement, and advanceCommit.
use native.Mathlib.Decide.{ℕ_discrete}
use mathlib.Core.Path.{subst, fun_ext}
use vautlage.Prelude.{
  ℕ, zero, suc, ◌≤◌, ◌≡◌, sym, ap, ◌∙◌, arith, some, List, add64, update, inl, inr, Option-cases,
  carry_some, update_self, update_ne,
}
use vautlage.Atomics.{store}
use vautlage.Ring.{Ring, Cell, Header, index, cell, write_cell, advance_commit, fill, publish}
use vautlage.Ring.Entries.{cell-write_self}
use vautlage.Ring.Threads.{
  idle, claim_won, publishing, advancing, Mem, Move, call_publish, store_field, announce, put_field,
  store_seq,
}
use vautlage.Ring.Threads.Stores.{puts, puts-fill}
use vautlage.Ring.Threads.Alone.{Alone, none_yet, more, ◌▹◌, at_ring, advance_commit-Alone}

-- Two writes of one cell are the second one.
write-write :
    (r : Ring) (pos : ℕ) (c d : Cell) → write_cell (write_cell r pos c) pos d ≡ write_cell r pos d
unfolding write_cell
write-write r pos c d = ap (λ cells. record r { cells = cells }) (fun_ext (λ i. again i))
  where
    again :
        (i : ℕ)
        → update (update r.cells (index r pos) c) (index r pos) d i
          ≡ update r.cells (index r pos) d i
    again i = ground arith

write_same : (r : Ring) (pos : ℕ) → write_cell r pos (cell r pos) ≡ r
unfolding write_cell cell
write_same r pos = ap (λ cells. record r { cells = cells }) (fun_ext (λ i. same i))
  where
    same : (i : ℕ) → update r.cells (index r pos) (r.cells (index r pos)) i ≡ r.cells i
    same i = elim (ℕ_discrete i (index r pos)) [
      | yes e ↦ rw e (update_self r.cells (index r pos) (r.cells (index r pos)))
      | no ne ↦ update_ne r.cells (index r pos) i (r.cells (index r pos)) ne
    ]

module _ (m : Mem) (pos : ℕ) (h : Header) (payload : List ℕ) where
  -- The ring after `k` stores.
  abbrev after : ℕ → Ring
  after k = write_cell m.ring pos (puts k m.ring.epoch h payload (cell m.ring pos))

  next_store :
      (k : ℕ)
      → write_cell (after k) pos (put_field k (after k).epoch h payload (cell (after k) pos))
        ≡ after (suc k)
  unfolding puts write_cell
  next_store k =
      let c = puts k m.ring.epoch h payload (cell m.ring pos) in
      write-write m.ring pos c (put_field k m.ring.epoch h payload (cell (after k) pos))
      ∙ ap (λ x. write_cell m.ring pos (put_field k m.ring.epoch h payload x))
          (cell-write_self m.ring pos c)

  last_store : store_seq (after 8) pos ≡ write_cell m.ring pos (fill m.ring pos h payload).1
  unfolding store
  last_store =
      let c = puts 8 m.ring.epoch h payload (cell m.ring pos) in
      write-write m.ring pos c (record (cell (after 8) pos) { seq = add64 pos 1 })
      ∙ ap (write_cell m.ring pos) (
          ap {A = Cell} {B = Cell} (λ x. record x { seq = add64 pos 1 })
            (cell-write_self m.ring pos c)
          ∙ puts-fill m.ring pos h payload)

  stores :
      (k : ℕ)
      → k ≤ 8
      → Alone m (publishing pos h payload 0) (at_ring m (after k)) (publishing pos h payload k)
  unfolding puts
  stores zero le =
      subst (λ s. Alone m (publishing pos h payload 0) (at_ring m s) (publishing pos h payload 0))
        (sym (write_same m.ring pos)) none_yet
  stores (suc k) le = more (stores k (omega arith)) (
      subst
        (λ s.
          Move (at_ring m (after k)) (publishing pos h payload k) (at_ring m s)
            (publishing pos h payload (suc k)))
        (next_store k) (store_field (omega arith)))

  -- The memory when publish has announced the position.
  abbrev pub announced : Mem
  announced = record {
    ring = write_cell m.ring pos (fill m.ring pos h payload).1;
    log = update m.log pos (h, payload);
  }

  announces : Alone m (claim_won pos) announced advancing
  announces =
      more none_yet (call_publish h payload)
      ▹ more (stores 8 (omega arith)) (
          subst
            (λ s.
              Move (at_ring m (after 8)) (publishing pos h payload 8)
                (record { ring = s; log = update m.log pos (h, payload) }) advancing)
            last_store announce)

  pub publish-Alone :
      (fuel : ℕ) {n : ℕ} {r' : Ring}
      → publish fuel m.ring pos h payload ≡ some (n, r')
      → Alone m (claim_won pos) (at_ring announced r') idle
  unfolding publish
  publish-Alone fuel {n} {r'} e = elim (Option-cases (advance_commit fuel announced.ring)) [
    | inl stuck ↦ absurd (ground arith)
    | inr (s, ends) ↦
        let run : publish fuel m.ring pos h payload ≡ some ((fill m.ring pos h payload).0, s) =
          ground arith in
        announces
        ▹ carry_some (λ _ x. Alone announced advancing (at_ring announced x) idle) (sym run ∙ e)
            (advance_commit-Alone fuel announced ends)
  ]
