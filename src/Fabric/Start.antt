-- ===== src/Fabric/Start.antt =====
-- fabric.go: the engine that New hands out is in order.
use mathlib.Core.Path.{subst}
use native.Mathlib.Nat.{zero-add}
use vautlage.Prelude.{
  ℕ, ◌+◌, ◌*◌, mul64, ◌^◌, ◌≤◌, ◌<◌, ◌≡◌, inl, inr, refl, ap, sym, ◌∙◌, arith, List, [], none, some,
  false, Option-cases,
}
use vautlage.Errors.{ok, Result-cases}
use vautlage.Gate.{Gate, init_gate}
use vautlage.Layout.{cell_stride_for, ring_bytes}
use vautlage.Index.{index_bucket_size}
use vautlage.Ring.Models.{Models}
use vautlage.Config.{Config, normalize}
use vautlage.Platform.{Platform}
use vautlage.Arena.{Arena, new_arena}
use vautlage.Fabric.{Vaultage}
use vautlage.Fabric.Session.{IsSound}
use vautlage.Fabric.Fresh.{empty_queue, Laid, build_shards-Laid, init_gate-state, Laid-IsSound}
use vautlage.Fabric.Build.{Handle, build_shards, blank_engine, build, new, zero_gate}
use vautlage.Fabric.Built.{
  ctl_bytes, new_gated, new_refused, build_no_ctl, build_no_shards, build_done,
}

module _ {S : Type 0} (p : Platform S) (fuel : ℕ) (c : Config) (gate : Gate) (epoch clock : ℕ)
    (s : S) where
  build_lost :
      new_arena p fuel (ctl_bytes c) false c.require_pinned s ≡ none
      → build p fuel c gate epoch clock s ≡ none
  unfolding build
  build_lost e = ground arith

  build_shards_lost :
      {ctl : Arena} {s₁ : S}
      → new_arena p fuel (ctl_bytes c) false c.require_pinned s ≡ some (ok ctl, s₁)
      → build_shards p fuel ctl c.shards 0 (blank_engine c gate epoch clock) [] s₁ ≡ none
      → build p fuel c gate epoch clock s ≡ none
  unfolding build
  build_shards_lost e f = ground arith

module _ {S : Type 0} (p : Platform S) where
  -- What New has built, when it answers an engine.
  new_parts :
      (fuel gomaxprocs : ℕ) (cfg c : Config) (epoch clock : ℕ) (s : S) {h : Handle} {t : S}
      → normalize fuel gomaxprocs cfg ≡ some (none, c)
      → new p fuel gomaxprocs cfg epoch clock s ≡ some (ok h, t)
      → (ctl : Arena) × (gate : Gate) × (xs : List Arena) × (s₁ : S) × (gate.state ≡ 0)
        × (build_shards p fuel ctl c.shards 0 (blank_engine c gate epoch clock) [] s₁
            ≡ some (ok (h.engine, xs), t))
  new_parts fuel gomaxprocs cfg c epoch clock s {h} {t} valid run =
      elim (Result-cases (init_gate zero_gate c.high_water_pct c.low_water_pct)) [
        | inr (e, bad) ↦
            let clash = sym (new_refused p fuel c epoch clock gomaxprocs cfg s valid bad) ∙ run in
            absurd (ground arith)
        | inl (gate, good) ↦
            let built = sym (new_gated p fuel c epoch clock gomaxprocs cfg s valid good) ∙ run in
            elim (Option-cases (new_arena p fuel (ctl_bytes c) false c.require_pinned s)) [
              | inl lost ↦
                  let clash = sym (build_lost p fuel c gate epoch clock s lost) ∙ built in
                  absurd (ground arith)
              | inr ((res, s₁), made) ↦ elim (Result-cases res) [
                | inr (e, failed) ↦
                    let clash =
                      sym (
                        build_no_ctl p fuel c epoch clock gate s
                          (made ∙ ap (λ r. some (r, s₁)) failed))
                      ∙ built in
                    absurd (ground arith)
                | inl (ctl, ctl_made) ↦
                    let made' = made ∙ ap (λ r. some (r, s₁)) ctl_made in
                    elim (Option-cases (
                      build_shards p fuel ctl c.shards 0 (blank_engine c gate epoch clock) [] s₁)) [
                        | inl lost ↦
                            let clash =
                              sym (build_shards_lost p fuel c gate epoch clock s made' lost)
                              ∙ built in
                            absurd (ground arith)
                        | inr ((res', s₂), shards) ↦ elim (Result-cases res') [
                          | inr (e, failed) ↦
                              let clash =
                                sym (
                                  build_no_shards p fuel c epoch clock gate s made'
                                    (shards ∙ ap (λ r. some (r, s₂)) failed))
                                ∙ built in
                              absurd (ground arith)
                          | inl ((v, xs), done) ↦
                              let shards' = shards ∙ ap (λ r. some (r, s₂)) done in
                              let same =
                                sym (build_done p fuel c epoch clock gate s made' shards')
                                ∙ built in
                              let engine : v ≡ h.engine = ground arith in
                              let end : s₂ ≡ t = ground arith in
                              (
                                ctl,
                                gate,
                                xs,
                                s₁,
                                init_gate-state zero_gate c.high_water_pct c.low_water_pct good,
                                shards'
                                    ∙ ap (λ (x : Vaultage). some (ok (x, xs), s₂)) engine
                                    ∙ ap (λ x. some (ok (h.engine, xs), x)) end,
                              )
                        ]
                      ]
              ]
            ]
      ]

  -- The engine that New answers is in order from the start: every key has a shard, the gate is open and
  -- in step with the shards, the books balance, the engine runs, and the ring of each shard is the empty
  -- queue, in an arena that holds all its cells at their stride, and all buckets of its index from the
  -- ring's bytes on. The configuration, once normalised, has a power of two of shards, and of cells from 2 to 2^62.
  pub new-IsSound :
      (fuel gomaxprocs : ℕ) (cfg c : Config) (epoch clock j k : ℕ) (s : S) {h : Handle} {t : S}
      → normalize fuel gomaxprocs cfg ≡ some (none, c)
      → c.shards ≡ 2 ^ j
      → j < 64
      → c.cells_per_shard ≡ 2 ^ k
      → 1 ≤ k
      → k ≤ 62
      → new p fuel gomaxprocs cfg epoch clock s ≡ some (ok h, t)
      → IsSound h.engine
        × (h.engine.ctl.running ≡ 1)
        × (h.engine.shard_n ≡ c.shards)
        × ((i : ℕ)
            → i < c.shards
            → Models (h.engine.shards i).ring empty_queue
              × (c.cells_per_shard * cell_stride_for c.payload_capacity
                  ≤ (h.engine.shards i).arena_size)
              × (ring_bytes c.cells_per_shard c.payload_capacity
                    + mul64 c.cells_per_shard c.index_buckets_per_cell * index_bucket_size
                  ≤ (h.engine.shards i).arena_size))
  unfolding blank_engine
  new-IsSound fuel gomaxprocs cfg c epoch clock j k s {h} valid size small cells lo hi run =
      let (ctl, gate, xs, s₁, unshut, built) =
        new_parts fuel gomaxprocs cfg c epoch clock s valid run in
      let v₀ = blank_engine c gate epoch clock in
      let none_yet : Laid v₀ 0 v₀ = record {
        frame = refl;
        fresh = λ i lt. absurd (omega arith);
        held = λ i lt. absurd (omega arith);
      } in
      let d₀ = build_shards-Laid v₀ p fuel k cells lo hi ctl c.shards 0 v₀ [] s₁ built none_yet in
      let d = subst (λ n. Laid v₀ n h.engine) (zero-add c.shards) d₀ in
      (
        Laid-IsSound c gate epoch clock unshut size small d,
        ap (λ (x : Vaultage). x.ctl.running) d.frame,
        ap (λ (x : Vaultage). x.shard_n) d.frame,
        λ i lt.
            let (cells_fit, buckets_fit) = d.held i lt in
            ((d.fresh i lt).ring, cells_fit, buckets_fit),
      )
