-- ===== src/Ring/Threads/Moves.antt =====
-- Every access of every thread keeps the invariant.
use vautlage.Prelude.{ℕ, add64, ◌+◌, ◌^◌, ◌<◌, ◌≡◌, ◌≢◌, inl, refl, ap, ◌∙◌, arith, update}
use vautlage.Atomics.{load}
use vautlage.Ring.{Ring, Cell, index, cell}
use vautlage.Ring.Valid.{Taken, seq_at, cell_eq}
use vautlage.Ring.Threads.{
  Pc, claim_seq, claim_cas, advance_seq, advance_cas, Mem, Move, call_claim, load_tail, is_free,
  is_full, is_stale, win_tail, lose_tail, call_publish, store_field, announce, load_commit,
  none_claimed, some_claimed, unpublished, published, win_commit, lose_commit, call_dequeue,
  load_head, is_empty, is_committed, win_head, lose_head, is_intact, is_broken, load_field,
  return_record, call_release, release_broken, dif, Seen, get_field,
}
use vautlage.Ring.Threads.Stores.{puts, gets, unread}
use vautlage.Ring.Threads.Defs.{slot_of, Own, Inv}
use vautlage.Ring.Threads.Next.{stay}
use vautlage.Ring.Threads.Wins.{tail_won-Inv, commit_won-Inv, head_won-Inv}
use vautlage.Ring.Threads.Cells.{stored-Inv, announced-Inv, released-Inv}

load_lem : (v : ℕ) → load v ≡ v
unfolding load
load_lem v = refl

module _ {m : Mem} {pc : ℕ → Pc} (inv : Inv m pc)
    (small : m.ring.tail + 1 + m.ring.capacity < 2 ^ 63) (i : ℕ) where
  abbrev r : Ring
  r = m.ring

  -- The word that a thread loads from the cell that serves `pos`.
  word : (pos : ℕ) → load (cell r pos).seq ≡ seq_at r pos
  word pos = load_lem (cell r pos).seq ∙ ap {A = Cell} (λ c. c.seq) (cell_eq inv.valid pos)

  free_seen : (pos : ℕ) → dif r pos ≡ 0 → Own r (claim_seq pos) → Own r (claim_cas pos)
  free_seen pos zero_dif o = omega (arith, word pos, inv.low pos)

  below : (c : ℕ) → c < r.tail → add64 c 1 ≡ c + 1
  below c lt = omega arith

  next_is_published :
      (c : ℕ)
      → c ≡ r.commit
      → r.commit < r.tail
      → seq_at r r.commit ≡ r.commit + 1
      → load (cell r c).seq ≡ add64 c 1
  next_is_published c e less done = word c ∙ ap (seq_at r) e ∙ done ∙ omega (arith, below c)

  seen_published :
      (c : ℕ) → load (cell r c).seq ≡ add64 c 1 → Own r (advance_seq c) → Own r (advance_cas c)
  seen_published c e (le, lt) = omega (arith, word c, below c lt)

  -- A taken position is published: the branch that is called unreachable is.
  intact : (pos : ℕ) → load (cell r pos).seq ≢ add64 pos 1 → Taken r pos → ⊥
  intact pos ne t =
      ne (omega (arith, word pos, t.turn, t.given, inv.valid.head_le, inv.valid.commit_le))

  pub Move-Inv :
      {p p' : Pc} {m' : Mem} → Move m p m' p' → pc i ≡ p → Own r p → Inv m' (update pc i p')
  unfolding puts gets
  Move-Inv call_claim here o = stay inv i here _ tt refl (λ _ _ h. absurd h)
  Move-Inv load_tail here o = stay inv i here _ (inl (load_lem r.tail)) refl (λ _ _ h. absurd h)
  Move-Inv (is_free {pos} zero_dif) here o =
      stay inv i here _ (free_seen pos zero_dif o) refl (λ _ _ h. absurd h)
  Move-Inv (is_full far) here o = stay inv i here _ tt refl (λ _ _ h. absurd h)
  Move-Inv (is_stale ne lt) here o = stay inv i here _ tt refl (λ _ _ h. absurd h)
  Move-Inv (win_tail won) here o = tail_won-Inv inv i (omega arith) won here o
  Move-Inv (lose_tail lost) here o = stay inv i here _ tt refl (λ _ _ h. absurd h)
  Move-Inv (call_publish {pos} h payload) here o =
      stay inv i here _ (o, (slot_of r pos, refl)) refl (λ _ _ h. absurd h)
  Move-Inv (store_field lt) here o = stored-Inv inv i here o
  Move-Inv announce here o = announced-Inv inv i (omega (arith, o.0.given)) here o
  Move-Inv load_commit here o =
      stay inv i here _ (omega (arith, load_lem r.commit)) refl (λ _ _ h. load_lem r.commit)
  Move-Inv (none_claimed e) here o =
      stay inv i here _ tt refl (λ less _ h. omega (arith, load_lem r.tail, h, e))
  Move-Inv (some_claimed ne) here o =
      stay inv i here _ (o, omega (arith, load_lem r.tail, inv.valid.commit_le)) refl (λ _ _ h. h)
  Move-Inv (unpublished {c} ne) here o =
      stay inv i here _ tt refl (λ less done h. absurd (ne (next_is_published c h less done)))
  Move-Inv (published {c} e) here o = stay inv i here _ (seen_published c e o) refl (λ _ _ h. h)
  Move-Inv (win_commit won) here o = commit_won-Inv inv i won here o
  Move-Inv (lose_commit lost) here o = stay inv i here _ tt refl (λ _ _ h. tt)
  Move-Inv (call_dequeue rec) here o = stay inv i here _ tt refl (λ _ _ h. absurd h)
  Move-Inv load_head here o =
      stay inv i here _ (omega (arith, load_lem r.head)) refl (λ _ _ h. absurd h)
  Move-Inv (is_empty le) here o = stay inv i here _ tt refl (λ _ _ h. absurd h)
  Move-Inv (is_committed lt) here o =
      stay inv i here _ (omega (arith, load_lem r.commit)) refl (λ _ _ h. absurd h)
  Move-Inv (win_head won) here o = head_won-Inv inv i won here o
  Move-Inv (lose_head lost) here o = stay inv i here _ tt refl (λ _ _ h. absurd h)
  Move-Inv (is_intact {rec} e) here o = stay inv i here _ (o, (rec, refl)) refl (λ _ _ h. absurd h)
  Move-Inv (is_broken {rec} {pos} ne) here o = absurd (intact pos ne o)
  Move-Inv (load_field {pos} {k} {s} lt) here (t, (rec, e)) =
      stay inv i here _
        (
          t,
          (
            rec,
            ap (get_field k (index r pos) (cell r pos)) e
                ∙ ap
                    (λ c.
                      get_field k (index r pos) c
                        (gets k (index r pos) (slot_of r pos) (unread rec)))
                    (cell_eq inv.valid pos),
          ),
        )
        refl (λ _ _ h. absurd h)
  Move-Inv return_record here (t, (rec, e)) =
      stay inv i here _ (t, (rec, ap (λ (s : Seen). s.rec) e)) refl (λ _ _ h. absurd h)
  Move-Inv call_release here o = released-Inv inv i here o
  Move-Inv release_broken here o = absurd o
