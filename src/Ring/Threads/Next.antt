-- ===== src/Ring/Threads/Next.antt =====
-- The invariant after a move, from what the move does to the ring and to its own thread.
use mathlib.Core.Path.{subst}
use vautlage.Prelude.{
  ℕ, ◌+◌, ◌<◌, ◌≡◌, ◌≢◌, ◌⊎◌, inl, inr, some, refl, sym, ap, ◌∙◌, update, update_self, update_all,
}
use vautlage.Ring.Valid.{seq_at}
use vautlage.Ring.Threads.{Pc, Mem}
use vautlage.Ring.Threads.Defs.{InFlight, held, Own, Helps, Helper, Inv}
use vautlage.Ring.Threads.Changes.{Effect, Quiet}

-- What the moved thread holds it held before, or nobody did.
abbrev pub New : (ℕ → Pc) → Pc → Pc → Type 0
New pc p p' = (q : ℕ) → held p' ≡ some q → (held p ≡ some q) ⊎ ((j : ℕ) → held (pc j) ≢ some q)

-- A position in flight is held by the moved thread, or it was in flight before and is not lost.
abbrev pub Back : Mem → Mem → Pc → Pc → Type 0
Back m m' p p' =
    (q : ℕ)
    → InFlight m'.ring q
    → (held p' ≡ some q) ⊎ (InFlight m.ring q × (held p ≡ some q → held p' ≡ some q))

module _ {m : Mem} {pc : ℕ → Pc} (inv : Inv m pc) (i : ℕ) {p : Pc} (here : pc i ≡ p) (p' : Pc) where
  unique_next :
      New pc p p'
      → (a b q : ℕ) → held (update pc i p' a) ≡ some q
      → held (update pc i p' b) ≡ some q
      → a ≡ b
  unique_next new =
      update_all (λ a o. (b q : ℕ) → held o ≡ some q → held (update pc i p' b) ≡ some q → a ≡ b)
        (λ b q e. update_all (λ b o. held o ≡ some q → i ≡ b) (λ _. refl) (λ j ne. mine j q e) b)
        (λ j ne b q e.
          update_all (λ b o. held o ≡ some q → j ≡ b) (λ e'. sym (mine j q e' e))
            (λ k ne' e'. inv.unique j k q e e') b)
    where
      mine : (j q : ℕ) → held p' ≡ some q → held (pc j) ≡ some q → i ≡ j
      mine j q e e' = elim (new q e) [
        | inl old ↦ inv.unique i j q (ap held here ∙ old) e'
        | inr nobody ↦ absurd (nobody j e')
      ]

  covered_next :
      (m' : Mem)
      → Back m m' p p'
      → (q : ℕ) → InFlight m'.ring q
      → (j : ℕ) × (held (update pc i p' j) ≡ some q)
  covered_next m' back q fly = elim (back q fly) [
    | inl mine ↦ (i, ap held (update_self pc i p') ∙ mine)
    | inr (before, go) ↦
        let (j, e) = inv.covered q before in
        (
          j,
          update_all (λ n o. held (pc n) ≡ some q → held o ≡ some q)
              (λ old. go (sym (ap held here) ∙ old)) (λ n ne old. old) j e,
        )
  ]

  pub next :
      {m' : Mem}
      → Effect m pc i m'
      → Own m'.ring p'
      → New pc p p'
      → Back m m' p p'
      → (m'.ring.commit < m'.ring.tail
          → seq_at m'.ring m'.ring.commit ≡ m'.ring.commit + 1
          → Helper m'.ring (update pc i p'))
      → Inv m' (update pc i p')
  next {m'} f o new back helped = record {
    valid = f.valid;
    low = f.low;
    own = update_all (λ j p. Own m'.ring p) o f.others;
    unique = unique_next new;
    covered = covered_next m' back;
    content = f.content;
    helped = helped;
  }

  -- The helper goes on helping, or it was not needed.
  pub pass :
      (m' : Mem)
      → Quiet m.ring m'.ring
      → (m.ring.commit < m.ring.tail
          → seq_at m.ring m.ring.commit ≡ m.ring.commit + 1
          → Helps m.ring.commit p
          → Helps m.ring.commit p')
      → m'.ring.commit < m'.ring.tail
      → seq_at m'.ring m'.ring.commit ≡ m'.ring.commit + 1
      → Helper m'.ring (update pc i p')
  pass m' quiet go less done =
      let (same, less0, done0) = quiet less done in
      let (j, h) = inv.helped less0 done0 in
      (
        j,
        subst (λ c. Helps c (update pc i p' j)) (sym same)
            (update_all (λ n o. Helps m.ring.commit (pc n) → Helps m.ring.commit o)
              (λ hi. go less0 done0 (subst (Helps m.ring.commit) here hi)) (λ n ne hn. hn) j h),
      )

  -- The thread itself helps.
  pub by_me :
      (m' : Mem)
      → Helps m'.ring.commit p'
      → m'.ring.commit < m'.ring.tail
      → seq_at m'.ring m'.ring.commit ≡ m'.ring.commit + 1
      → Helper m'.ring (update pc i p')
  by_me m' h less done = (i, subst (Helps m'.ring.commit) (sym (update_self pc i p')) h)

  -- A move that leaves the memory as it is.
  pub stay :
      Own m.ring p'
      → held p' ≡ held p
      → (m.ring.commit < m.ring.tail
          → seq_at m.ring m.ring.commit ≡ m.ring.commit + 1
          → Helps m.ring.commit p
          → Helps m.ring.commit p')
      → Inv m (update pc i p')
  stay o kept go =
      next same o (λ q e. inl (sym kept ∙ e)) (λ q fly. inr (fly, λ e. kept ∙ e))
        (pass m (λ less done. (refl, less, done)) go)
    where
      same : Effect m pc i m
      same = record {
        valid = inv.valid;
        low = inv.low;
        others = λ j ne. inv.own j;
        content = inv.content;
      }
