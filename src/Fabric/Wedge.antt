-- ===== src/Fabric/Wedge.antt =====
-- A worker calls markDrained only after a round that consumed something. So a gate that is shut over
-- empty rings stays shut, as long as nobody calls Drain.
use vautlage.Prelude.{
  ℕ, suc, ◌≤◌, ◌≡◌, ◌≢◌, inl, inr, refl, sym, ◌∙◌, arith, List, [], ◌∷◌, some, none, true, false,
  update_all,
}
use vautlage.Atomics.{load}
use vautlage.Record.{Record}
use vautlage.Config.{backoff}
use vautlage.Gate.{is_closed, reject}
use vautlage.Ring
use vautlage.Ring.{Ring}
use vautlage.Fabric.{Vaultage, Shard, put_shard}
use vautlage.Fabric.Outcome.{publish_guards}
use vautlage.Fabric.Consume.{Scene, deliver, batch, worker_round}
use vautlage.Fabric.Run.{Call, publish, drain, round, perform, session, session_next}

-- The engine runs, its gate is shut, and no ring has a committed record to deliver.
pub record Wedged (v : Vaultage) : Type 0 where
  pub running : v.ctl.running ≢ 0
  pub shut : is_closed v.valve ≡ true
  pub empty : (s : ℕ) → (v.shards s).ring.commit ≤ (v.shards s).ring.head

-- No call is one of Drain.
abbrev pub NoDrain : List Call → Type 0
NoDrain [] = Unit
NoDrain (drain max ∷ cs) = ⊥
NoDrain (c ∷ cs) = NoDrain cs

-- Still wedged, with no ticket drawn.
abbrev pub Stays : Vaultage → Vaultage → Type 0
Stays v v' = Wedged v' × (v'.ctl.ticket ≡ v.ctl.ticket)

reject-Wedged : {v : Vaultage} → Wedged v → Wedged (record v { valve = reject v.valve })
unfolding reject is_closed
reject-Wedged w = record { running = w.running; shut = w.shut; empty = w.empty }

dequeue_empty :
    (fuel : ℕ) (r : Ring) (rec : Record)
    → r.commit ≤ r.head
    → Ring.dequeue (suc fuel) r rec ≡ some (none, rec, r)
unfolding Ring.dequeue load
dequeue_empty fuel r rec le = ground arith

module _ {W : Type 0} (fuel : ℕ) (h : Record → W → W) where
  -- The scene after a round of a worker that found nothing.
  abbrev idled : ℕ → Scene W → Scene W
  idled id s = record s { engine = put_shard s.engine id (s.engine.shards id) }

  idled-Wedged : (id : ℕ) (s : Scene W) → Wedged s.engine → Wedged (idled id s).engine
  unfolding put_shard
  idled-Wedged id s w = record {
    running = w.running;
    shut = w.shut;
    empty =
        update_all {A = Shard} (λ i x. x.ring.commit ≤ x.ring.head) (w.empty id)
          (λ i ne. w.empty i);
  }

  idled-ticket : (id : ℕ) (s : Scene W) → (idled id s).engine.ctl.ticket ≡ s.engine.ctl.ticket
  unfolding put_shard
  idled-ticket id s = refl

  deliver_empty :
      (id : ℕ) (s : Scene W)
      → Wedged s.engine
      → deliver (suc fuel) (some h) id s ≡ some (false, idled id s)
  unfolding deliver
  deliver_empty id s w =
      ground (arith, dequeue_empty fuel (s.engine.shards id).ring s.rec (w.empty id))

  batch_empty :
      (id left : ℕ) (s : Scene W)
      → Wedged s.engine
      → batch (suc fuel) h id (suc left) 0 s ≡ some (0, idled id s)
  unfolding batch
  batch_empty id left s w = ground (arith, deliver_empty id s w)

  round_empty :
      (id idle : ℕ) (s : Scene W)
      → Wedged s.engine
      → worker_round (suc fuel) h id idle s ≡ some (some (backoff idle).1, idled id s)
  unfolding worker_round load
  round_empty id idle s w = ground (arith, batch_empty id 255 s w, (idled-Wedged id s w).running)

  -- What a call does to a wedged engine.
  perform-Stays :
      (c : Call) (s : Scene W)
      → NoDrain (c ∷ [])
      → Wedged s.engine
      → (s' : Scene W) × (perform (suc fuel) h c s ≡ some s') × Stays s.engine s'.engine
  unfolding perform
  perform-Stays (drain max) s no_drain w = absurd no_drain
  perform-Stays (publish wall key payload flags) s no_drain w =
      elim (publish_guards (suc fuel) wall s.engine key payload flags) [
        | inl (e, _, run) ↦ (s, ground (arith, run), (w, refl))
        | inr (inl (_, run)) ↦ (
          record s { engine = record s.engine { valve = reject s.engine.valve } },
          ground (arith, run),
          (reject-Wedged w, refl),
        )
        | inr (inr (_, free, _)) ↦ let e : true ≡ false = sym w.shut ∙ free in cc
      ]
  perform-Stays (round id idle) s no_drain w = (
    idled id s,
    ground (arith, round_empty id idle s w),
    (idled-Wedged id s w, idled-ticket id s),
  )

  first_call : (c : Call) (cs : List Call) → NoDrain (c ∷ cs) → NoDrain (c ∷ []) × NoDrain cs
  first_call (publish wall key payload flags) cs no_drain = (tt, no_drain)
  first_call (drain max) cs no_drain = absurd no_drain
  first_call (round id idle) cs no_drain = (tt, no_drain)

-- A running engine whose gate is shut while no ring has a committed record to deliver is stuck
-- without Drain: after any session of calls of publish and rounds of the workers the gate is shut,
-- and no ticket has been drawn, so every publish was refused. The session ends with any fuel but 0.
pub wedge_lem :
    {W : Type 0} (fuel : ℕ) (h : Record → W → W) (cs : List Call) (s : Scene W)
    → NoDrain cs
    → Wedged s.engine
    → (s' : Scene W) × (session (suc fuel) h cs s ≡ some s') × Stays s.engine s'.engine
unfolding session
wedge_lem fuel h [] s no_drain w = (s, refl, (w, refl))
wedge_lem fuel h (c ∷ cs) s no_drain w =
    let (this, rest) = first_call fuel h c cs no_drain in
    let (t, run, (w₁, kept)) = perform-Stays fuel h c s this w in
    let (s', end, (w₂, kept')) = wedge_lem fuel h cs t rest w₁ in
    (s', session_next (suc fuel) h c cs s t run ∙ end, (w₂, kept' ∙ kept))
