-- ===== src/Fabric/Work.antt =====
-- fabric.go: the loop of worker. It ends: once ingestion has stopped, a worker hands over what its
-- ring holds and returns.
use Prim.Native.Nat.{min}
use vautlage.Prelude.{
  ℕ, zero, suc, ◌+◌, ◌-◌, ◌≤◌, ◌<◌, ◌≡◌, inl, inr, refl, ap, sym, ◌∙◌, arith, List, [], ◌∷◌, ◌++◌,
  Option, none, some, length, length-append, true, false, ◌≢◌,
}
use mathlib.Core.Path.{subst}
use native.Mathlib.Decide.{dec_lt}
use vautlage.Fabric.Drain.{empty_of_length}
use vautlage.Atomics.{load}
use vautlage.Record.{Record}
use vautlage.Ring.{Ring, pending}
use vautlage.Ring.Entries.{length-entries}
use vautlage.Ring.Fifo.{Fifo}
use vautlage.Ring.Models.{Models}
use vautlage.Fabric.{mark_drained}
use vautlage.Fabric.Consume.{Scene, deliver, drain_batch, batch, worker_round}
use vautlage.Fabric.Handed.{
  tagged, handle_all, Handed, Handed-none, Handed-cons, Handed-append, Handed-mark_drained,
  deliver_lem,
}

module _ {W : Type 0} where
  -- The worker from an idle counter on, for at most so many rounds, once its thread is set up.
  unfoldable pub worker : ℕ → (Record → W → W) → ℕ → ℕ → ℕ → Scene W → Option (Scene W)
  worker fuel h id zero idle s = none
  worker fuel h id (suc rounds) idle s = elim (worker_round fuel h id idle s) [
    | none ↦ none
    | some (none, s') ↦ some s'
    | some (some idle', s') ↦ worker fuel h id rounds idle' s'
  ]

pub Models-pending : {r : Ring} {q : Fifo} → Models r q → pending r ≡ length q.items
unfolding pending load
Models-pending {r} {q} m =
    let sizes : length q.items ≡ r.tail - r.head =
      ap length m.items ∙ length-entries r r.head (r.tail - r.head) in
    let le : r.head ≤ r.tail =
      let a = m.valid.head_le in let b = m.valid.commit_le in omega arith in
    ground arith

module _ {W : Type 0} (h : Record → W → W) (id : ℕ) (fuel : ℕ) where
  -- A run of the inner loop: what it delivered and what it left.
  abbrev Batches : ℕ → ℕ → Scene W → Fifo → Option (ℕ × Scene W) → Type 0
  Batches left n s q end =
      (xs : List Record) × (ys : List Record) × (t : Scene W) × (q.items ≡ xs ++ ys)
      × (end ≡ some (n + length xs, t))
      × (length xs ≡ min left (length q.items))
      × Handed (some h) id s t xs (record { items = ys; count = q.count })

  batch_break :
      (left n : ℕ) (s : Scene W) {t : Scene W}
      → deliver (suc fuel) (some h) id s ≡ some (false, t)
      → batch (suc fuel) h id (suc left) n s ≡ some (n, t)
  unfolding batch
  batch_break left n s {t} e = ground arith

  batch_next :
      (left n : ℕ) (s : Scene W) {t : Scene W}
      → deliver (suc fuel) (some h) id s ≡ some (true, t)
      → batch (suc fuel) h id (suc left) n s ≡ batch (suc fuel) h id left (suc n) t
  unfolding batch
  batch_next left n s {t} e = ground arith

  batch_lem :
      (left n : ℕ) (s : Scene W) {q : Fifo}
      → Models (s.engine.shards id).ring q
      → Batches left n s q (batch (suc fuel) h id left n s)
  unfolding batch
  batch_lem zero n s {q} m = (
    [],
    q.items,
    s,
    refl,
    ap (λ k. some (k, s)) (omega arith),
    omega arith,
    Handed-none (some h) id s m,
  )
  batch_lem (suc left) n s {q} m = elim (deliver_lem (some h) id fuel s m) [
    | inl (empty, (t, run, handed)) ↦
        let none_due : length q.items ≡ 0 = ap length empty in
        (
          [],
          q.items,
          t,
          refl,
          batch_break left n s run ∙ ap (λ k. some (k, t)) (omega arith),
          omega arith,
          handed,
        )
    | inr (x, xs, first, (t, run, handed)) ↦
        let counted : length q.items ≡ suc (length xs) = ap length first in
        let (ys, zs, u, split, end, many, rest) = batch_lem left (suc n) t handed.models in
        (
          x ∷ ys,
          zs,
          u,
          first ∙ ap (◌∷◌ x) split,
          batch_next left n s run ∙ end ∙ ap (λ k. some (k, u)) (omega arith),
          omega arith,
          Handed-cons (some h) id handed rest,
        )
  ]

  round_busy :
      (idle : ℕ) (s : Scene W) {n : ℕ} {t : Scene W}
      → batch (suc fuel) h id drain_batch 0 s ≡ some (n, t)
      → 0 < n
      → worker_round (suc fuel) h id idle s
        ≡ some (some 0, record t { engine = mark_drained t.engine id })
  unfolding worker_round
  round_busy idle s e lt = ground arith

  round_done :
      (idle : ℕ) (s : Scene W) {t : Scene W}
      → batch (suc fuel) h id drain_batch 0 s ≡ some (0, t)
      → t.engine.ctl.running ≡ 0
      → pending (t.engine.shards id).ring ≡ 0
      → worker_round (suc fuel) h id idle s ≡ some (none, t)
  unfolding worker_round load
  round_done idle s e stopped nothing = ground arith

  worker_next :
      (rounds idle : ℕ) (s : Scene W) {k : ℕ} {t : Scene W}
      → worker_round (suc fuel) h id idle s ≡ some (some k, t)
      → worker (suc fuel) h id (suc rounds) idle s ≡ worker (suc fuel) h id rounds k t
  unfolding worker
  worker_next rounds idle s e = ground arith

  worker_stop :
      (rounds idle : ℕ) (s : Scene W) {t : Scene W}
      → worker_round (suc fuel) h id idle s ≡ some (none, t)
      → worker (suc fuel) h id (suc rounds) idle s ≡ some t
  unfolding worker
  worker_stop rounds idle s e = ground arith

  worker-Handed :
      (rounds idle : ℕ) (s : Scene W) {q : Fifo}
      → Models (s.engine.shards id).ring q
      → s.engine.ctl.running ≡ 0
      → length q.items < rounds
      → (t : Scene W) × (worker (suc fuel) h id rounds idle s ≡ some t)
        × Handed (some h) id s t q.items (record { items = []; count = q.count })
  worker-Handed zero idle s m stopped enough = absurd (omega arith)
  worker-Handed (suc rounds) idle s {q} m stopped enough =
      let (xs, ys, t, cut, run, many, handed) = batch_lem drain_batch 0 s m in
      let sizes : length q.items ≡ length xs + length ys = ap length cut ∙ length-append xs ys in
      elim (dec_lt 0 (length q.items)) [
        | yes lt ↦
            let still = Handed-mark_drained (some h) id handed in
            let (u, end, rest) =
              worker-Handed rounds 0 (record t { engine = mark_drained t.engine id }) still.models
                (still.running ∙ stopped) (omega arith) in
            (
              u,
              worker_next rounds idle s (round_busy idle s run (omega arith)) ∙ end,
              subst (λ r. Handed (some h) id s u r (record { items = []; count = q.count }))
                  (sym cut) (Handed-append (some h) id xs ys still rest),
            )
        | no ge ↦
            let none_left : ys ≡ [] = empty_of_length ys (omega arith) in
            let none_due : xs ≡ [] = empty_of_length xs (omega arith) in
            let halt =
              round_done idle s (run ∙ ap (λ k. some (k, t)) (omega arith))
                (handed.running ∙ stopped) (Models-pending handed.models ∙ ap length none_left) in
            (
              t,
              worker_stop rounds idle s halt,
              subst (λ r. Handed (some h) id s t r (record { items = []; count = q.count }))
                  (none_due ∙ sym (empty_of_length q.items (omega arith)))
                  (subst (λ r. Handed (some h) id s t xs (record { items = r; count = q.count }))
                    none_left handed),
            )
      ]

  -- A worker returns once `running` is 0. When its ring holds the queue `q`, it calls the handler on
  -- each record of `q` once, in its order, with the shard's number, leaves nothing pending, and does
  -- not touch the ring of another shard. More rounds than records are enough.
  pub worker_lem :
      (rounds idle : ℕ) (s : Scene W) {q : Fifo}
      → Models (s.engine.shards id).ring q
      → s.engine.ctl.running ≡ 0
      → length q.items < rounds
      → (t : Scene W) × (worker (suc fuel) h id rounds idle s ≡ some t)
        × (t.world ≡ handle_all (some h) (tagged id q.items) s.world)
        × (pending (t.engine.shards id).ring ≡ 0)
        × ((j : ℕ) → j ≢ id → (t.engine.shards j).ring ≡ (s.engine.shards j).ring)
  worker_lem rounds idle s m stopped enough =
      let (t, run, handed) = worker-Handed rounds idle s m stopped enough in
      (t, run, handed.world, Models-pending handed.models, handed.others)
