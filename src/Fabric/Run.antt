-- ===== src/Fabric/Run.antt =====
-- Sessions: the calls of any number of clients and workers, one after the other.
use mathlib.Core.Path.{subst}
use vautlage.Prelude.{
  Option-cases, ℕ, ◌<◌, ◌+◌, ◌%◌, ◌^◌, ◌↔◌, ◌≢◌, ◌≡◌, inl, inr, sym, ◌∙◌, arith, List, [], ◌∷◌,
  Option, none, some, true,
}
use vautlage.Record.{Record}
use vautlage.Fabric.{Vaultage}
use vautlage.Fabric
use vautlage.Gate.{is_closed}
use vautlage.Fabric.Total.{sum_of}
use vautlage.Fabric.Saturation.{hot_of}
use vautlage.Fabric.Tickets.{ingested_of, rejected_of}
use vautlage.Fabric.Session.{IsSound, publish-IsSound}
use vautlage.Fabric.Consume.{Scene, worker_round}
use vautlage.Fabric.Consume
use vautlage.Fabric.Delivery.{Kept, worker_round-Kept, drain-Kept}

-- A call of the engine with its arguments: publish (with the reading of the clock), Drain (with its
-- max), and a round of the worker of shard `id` (with its idle counter).
pub data Call : Type 0 where
  publish : ℕ → ℕ → List ℕ → ℕ → Call
  drain : ℕ → Call
  round : ℕ → ℕ → Call

-- A worker runs for a shard that exists.
abbrev pub Fits : ℕ → Call → Type 0
Fits n (publish wall key payload flags) = Unit
Fits n (drain max) = Unit
Fits n (round id idle) = id < n

abbrev pub AllFit : ℕ → List Call → Type 0
AllFit n [] = Unit
AllFit n (c ∷ cs) = Fits n c × AllFit n cs

module _ {W : Type 0} (fuel : ℕ) (h : Record → W → W) where
  unfoldable pub perform : Call → Scene W → Option (Scene W)
  perform (publish wall key payload flags) s =
      elim (Fabric.publish fuel wall s.engine key payload flags) [
        | none ↦ none
        | some (res, v) ↦ some (record s { engine = v })
      ]
  perform (drain max) s = elim (Consume.drain fuel max (some h) s) [
    | none ↦ none
    | some (n, s') ↦ some s'
  ]
  perform (round id idle) s = elim (worker_round fuel h id idle s) [
    | none ↦ none
    | some (o, s') ↦ some s'
  ]

  unfoldable pub session : List Call → Scene W → Option (Scene W)
  session [] s = some s
  session (c ∷ cs) s = elim (perform c s) [ none ↦ none | some s' ↦ session cs s' ]

  perform-Kept :
      (c : Call) (s : Scene W) {s' : Scene W}
      → IsSound s.engine
      → Fits s.engine.shard_n c
      → perform c s ≡ some s'
      → Kept s.engine s'
  unfolding perform
  perform-Kept (publish wall key payload flags) s {s'} i f e =
      elim (Option-cases (Fabric.publish fuel wall s.engine key payload flags)) [
        | inl lost ↦ absurd (ground arith)
        | inr ((res, v), run) ↦
            let same : record s { engine = v } ≡ s' = ground arith in
            subst (Kept s.engine) same (publish-IsSound fuel wall i key payload flags run)
      ]
  perform-Kept (drain max) s {s'} i f e = elim (Option-cases (Consume.drain fuel max (some h) s)) [
    | inl lost ↦ absurd (ground arith)
    | inr ((n, t), run) ↦
        let same : t ≡ s' = ground arith in
        subst (Kept s.engine) same (drain-Kept fuel max (some h) s i run)
  ]
  perform-Kept (round id idle) s {s'} i f e = elim (Option-cases (worker_round fuel h id idle s)) [
    | inl lost ↦ absurd (ground arith)
    | inr ((o, t), run) ↦
        let same : t ≡ s' = ground arith in
        subst (Kept s.engine) same (worker_round-Kept fuel h id idle s i f run)
  ]

  pub session_next :
      (c : Call) (cs : List Call) (s t : Scene W)
      → perform c s ≡ some t
      → session (c ∷ cs) s ≡ session cs t
  unfolding session
  session_next c cs s t e = ground arith

  session_lost :
      (c : Call) (cs : List Call) (s : Scene W) → perform c s ≡ none → session (c ∷ cs) s ≡ none
  unfolding session
  session_lost c cs s e = ground arith

  session-IsSound :
      (cs : List Call) (s : Scene W) {s' : Scene W}
      → IsSound s.engine
      → AllFit s.engine.shard_n cs
      → session cs s ≡ some s'
      → IsSound s'.engine
  unfolding session
  session-IsSound [] s {s'} i f e =
      let same : s ≡ s' = ground arith in subst (λ (t : Scene W). IsSound t.engine) same i
  session-IsSound (c ∷ cs) s {s'} i (f, fs) e = elim (Option-cases (perform c s)) [
    | inl lost ↦ let stop = sym (session_lost c cs s lost) ∙ e in absurd (ground arith)
    | inr (t, run) ↦
        let (i₁, n₁) = perform-Kept c s i f run in
        session-IsSound cs t i₁ (subst (λ n. AllFit n cs) (sym n₁) fs)
          (sym (session_next c cs s t run) ∙ e)
  ]

  -- In every session of calls of publish and Drain and of rounds of the workers, whose calls return,
  -- on an engine whose valve and books are in order: the counter is the number of hot shards, the gate is
  -- shut exactly while it is not 0, and every ticket issued is a record ingested or a record dropped.
  pub session_lem :
      (cs : List Call) (s : Scene W) {s' : Scene W}
      → IsSound s.engine
      → AllFit s.engine.shard_n cs
      → session cs s ≡ some s'
      → (s'.engine.ctl.saturated ≡ sum_of hot_of s'.engine)
        × ((is_closed s'.engine.valve ≡ true) ↔ (s'.engine.ctl.saturated ≢ 0))
        × (s'.engine.ctl.ticket ≡ (sum_of ingested_of s'.engine + s'.engine.ctl.dropped) % 2 ^ 64)
        × (s'.engine.ctl.dropped ≡ sum_of rejected_of s'.engine % 2 ^ 64)
  unfolding is_closed
  session_lem cs s {s'} i f e =
      let i' : IsSound s'.engine = session-IsSound cs s i f e in
      (
        i'.gated.count,
        ground (arith, i'.gated.gate),
        omega (arith, i'.balance.tickets),
        i'.balance.drops,
      )
