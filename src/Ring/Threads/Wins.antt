-- ===== src/Ring/Threads/Wins.antt =====
-- A compare-and-swap that wins: the cursor stood where the thread had seen it.
use native.Mathlib.Decide.{ℕ_discrete}
use mathlib.Core.Path.{subst}
use mathlib.Core.Option.{some_inj}
use vautlage.Prelude.{
  ℕ, add64, ◌+◌, ◌^◌, ◌<◌, ◌≡◌, ◌≢◌, ◌⊎◌, inl, inr, none, some, sym, ap, ◌∙◌, arith, update, true,
}
use vautlage.Atomics.{cas}
use vautlage.Record.{Record}
use vautlage.Ring.{Ring}
use vautlage.Ring.Valid.{Claimed, Taken, seq_at}
use vautlage.Ring.Claim.{claimed, claimed-Claimed}
use vautlage.Ring.Publish.{at_commit}
use vautlage.Ring.Dequeue.{taken, committed-turn}
use vautlage.Ring.Threads.{
  Pc, claim_cas, claim_won, advancing, advance_cas, dequeue_cas, dequeue_seq, Mem, cas_tail,
  cas_commit, cas_head,
}
use vautlage.Ring.Threads.Defs.{InFlight, held, Own, Inv}
use vautlage.Ring.Threads.Changes.{held-InFlight, claimed-Effect, commit-Effect, taken-Effect}
use vautlage.Ring.Threads.Next.{next, pass, by_me}

cas_won : (v old new : ℕ) → (cas v old new).0 ≡ true → (v ≡ old) × ((cas v old new).1 ≡ new)
unfolding cas
cas_won v old new won = ground arith

cas_tail_won :
    (r : Ring) (pos : ℕ)
    → r.tail + 1 < 2 ^ 64
    → (cas_tail r pos).0 ≡ true
    → (r.tail ≡ pos) × ((cas_tail r pos).1 ≡ claimed r)
unfolding cas_tail
cas_tail_won r pos small won =
    let (e, new) = cas_won r.tail pos (add64 pos 1) won in
    (e, ap (λ t. record r { tail = t }) (new ∙ omega arith))

cas_commit_won :
    (r : Ring) (c : ℕ)
    → r.commit + 1 < 2 ^ 64
    → (cas_commit r c).0 ≡ true
    → (r.commit ≡ c) × ((cas_commit r c).1 ≡ at_commit r (r.commit + 1))
unfolding cas_commit
cas_commit_won r c small won =
    let (e, new) = cas_won r.commit c (add64 c 1) won in (e, ap (at_commit r) (new ∙ omega arith))

cas_head_won :
    (r : Ring) (pos : ℕ)
    → r.head + 1 < 2 ^ 64
    → (cas_head r pos).0 ≡ true
    → (r.head ≡ pos) × ((cas_head r pos).1 ≡ taken r)
unfolding cas_head
cas_head_won r pos small won =
    let (e, new) = cas_won r.head pos (add64 pos 1) won in
    (e, ap (λ t. record r { head = t }) (new ∙ omega arith))

module _ {m : Mem} {pc : ℕ → Pc} (inv : Inv m pc) (i : ℕ) where
  abbrev r : Ring
  r = m.ring

  -- A position that nobody holds.
  unheld : (q : ℕ) → (InFlight r q → ⊥) → (j : ℕ) → held (pc j) ≢ some q
  unheld q free j e = free (held-InFlight (pc j) (inv.own j) e)

  -- What nobody held is new to the thread that takes it.
  acquired :
      {got : ℕ}
      → (InFlight r got → ⊥)
      → (q : ℕ) → some got ≡ some q
      → (none ≡ some q) ⊎ ((j : ℕ) → held (pc j) ≢ some q)
  acquired {got} free q e =
      inr (subst (λ n. (j : ℕ) → held (pc j) ≢ some n) (some_inj.0 e) (unheld got free))

  beyond_tail : {pos : ℕ} → r.tail ≡ pos → InFlight r pos → ⊥
  beyond_tail e (inl d) = omega (arith, d.given)
  beyond_tail e (inr d) = omega (arith, d.given, inv.valid.head_le, inv.valid.commit_le)

  at_head : {pos : ℕ} → r.head ≡ pos → pos < r.commit → InFlight r pos → ⊥
  at_head {pos} e lt (inl d) = omega (arith, d.turn, committed-turn inv.valid pos (omega arith) lt)
  at_head e lt (inr d) = omega (arith, d.given)

  tail_back : (q : ℕ) → q ≢ r.tail → InFlight (claimed r) q → InFlight r q
  tail_back q ne (inl d) =
      inl
        (record { given = omega (arith, d.given); recent = omega (arith, d.recent); turn = d.turn })
  tail_back q ne (inr d) =
      inr (record { given = d.given; recent = omega (arith, d.recent); turn = d.turn })

  commit_back : (n q : ℕ) → InFlight (at_commit r n) q → InFlight r q
  commit_back n q (inl d) = inl (record { given = d.given; recent = d.recent; turn = d.turn })
  commit_back n q (inr d) = inr (record { given = d.given; recent = d.recent; turn = d.turn })

  head_back : (q : ℕ) → q ≢ r.head → InFlight (taken r) q → InFlight r q
  head_back q ne (inl d) = inl (record { given = d.given; recent = d.recent; turn = d.turn })
  head_back q ne (inr d) =
      inr (record { given = omega (arith, d.given); recent = d.recent; turn = d.turn })

  pub tail_won-Inv :
      {pos : ℕ}
      → r.tail + 1 + r.capacity < 2 ^ 64
      → (cas_tail r pos).0 ≡ true
      → pc i ≡ claim_cas pos
      → Own r (claim_cas pos)
      → Inv (record m { ring = (cas_tail r pos).1 }) (update pc i (claim_won pos))
  tail_won-Inv {pos} small won here o =
      let (e, ring) = cas_tail_won r pos (omega arith) won in
      let free : seq_at r r.tail ≡ r.tail = omega (arith, ap (seq_at r) e) in
      let (f, quiet) = claimed-Effect inv i small free in
      subst (λ s. Inv (record m { ring = s }) (update pc i (claim_won pos))) (sym ring)
        (next inv i here _ f (subst (Claimed (claimed r)) e (claimed-Claimed inv.valid free))
          (acquired (beyond_tail e))
          (λ q fly. elim (ℕ_discrete q r.tail) [
            | yes same ↦ inl (ap some (sym e ∙ sym same))
            | no ne ↦ inr (tail_back q ne fly, λ eq. cc)
          ])
          (pass inv i here _ (record m { ring = claimed r }) quiet (λ _ _ h. absurd h)))

  pub commit_won-Inv :
      {c : ℕ}
      → (cas_commit r c).0 ≡ true
      → pc i ≡ advance_cas c
      → Own r (advance_cas c)
      → Inv (record m { ring = (cas_commit r c).1 }) (update pc i advancing)
  commit_won-Inv {c} won here o =
      let (e, ring) =
        cas_commit_won r c (omega (arith, inv.valid.commit_le, inv.valid.fresh, inv.valid.many))
          won in
      let f = commit-Effect inv i (omega arith) (omega (arith, ap (seq_at r) e)) in
      subst (λ s. Inv (record m { ring = s }) (update pc i advancing)) (sym ring)
        (next inv i here _ f tt (λ q e. cc)
          (λ q fly. inr (commit_back (r.commit + 1) q fly, λ eq. eq))
          (by_me inv i here _ (record m { ring = at_commit r (r.commit + 1) }) tt))

  pub head_won-Inv :
      {rec : Record} {pos : ℕ}
      → (cas_head r pos).0 ≡ true
      → pc i ≡ dequeue_cas rec pos
      → Own r (dequeue_cas rec pos)
      → Inv (record m { ring = (cas_head r pos).1 }) (update pc i (dequeue_seq rec pos))
  head_won-Inv {rec} {pos} won here o =
      let (e, ring) =
        cas_head_won r pos
          (omega (arith, inv.valid.head_le, inv.valid.commit_le, inv.valid.fresh, inv.valid.many))
          won in
      let lt : r.head < r.commit = omega arith in
      let (f, quiet) = taken-Effect inv i lt in
      let mine : Taken (taken r) r.head = record {
        given = omega arith;
        recent = inv.valid.room;
        turn = committed-turn inv.valid r.head (omega arith) lt;
      } in
      subst (λ s. Inv (record m { ring = s }) (update pc i (dequeue_seq rec pos))) (sym ring)
        (next inv i here _ f (subst (Taken (taken r)) e mine) (acquired (at_head e (omega arith)))
          (λ q fly. elim (ℕ_discrete q r.head) [
            | yes same ↦ inl (ap some (sym e ∙ sym same))
            | no ne ↦ inr (head_back q ne fly, λ eq. cc)
          ])
          (pass inv i here _ (record m { ring = taken r }) quiet (λ _ _ h. absurd h)))
