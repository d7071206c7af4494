-- ===== src/Fabric/Fresh.antt =====
-- fabric.go: the shards that New lays out.
use mathlib.Core.Path.{subst}
use native.Mathlib.Decide.{ℕ_discrete}
use native.Mathlib.Nat.{pow-le-pow_right}
use vautlage.Prelude.{
  ℕ, zero, suc, ◌+◌, ◌^◌, ◌≤◌, ◌<◌, ◌≡◌, inl, inr, refl, ap, sym, ◌∙◌, arith, List, [], ◌∷◌, ◌++◌,
  some, Option-cases, sub64,
}
use vautlage.Errors.{ok, err, Result-cases, config}
use vautlage.Atomics.{store}
use vautlage.Gate.{Gate, init_gate}
use vautlage.Layout.Align.{two-pow_pos}
use vautlage.Ring.{Ring, init_ring}
use vautlage.Ring.Fifo.{Fifo}
use vautlage.Ring.Models.{Models}
use vautlage.Ring.Init.{init_ring_lem, init_ring-Models}
use vautlage.Config.{Config}
use vautlage.Platform.{Platform}
use vautlage.Arena
use vautlage.Arena.{Arena, new_arena}
use vautlage.Fabric.{Vaultage, Shard, put_shard}
use vautlage.Fabric.Total.{total, put_shard_self, put_shard_other}
use vautlage.Fabric.Session.{IsSound}
use vautlage.Fabric.Build.{lay_out, build_shards, blank_engine}
use vautlage.Fabric.LayOut.{laid, lay_out_lem, ring_end, index_end}
use vautlage.Fabric.Built.{shard_arena, build_next, build_faults, build_failed, build_refused}

abbrev pub empty_queue : Fifo
empty_queue = record { items = []; count = 0 }

-- A shard that has seen no record.
pub record IsFresh (sh : Shard) : Type 0 where
  pub ring : Models sh.ring empty_queue
  pub hot : sh.hot ≡ 0
  pub ingested : sh.ingested ≡ 0
  pub consumed : sh.consumed ≡ 0
  pub rejected : sh.rejected ≡ 0

-- A ring that initRing has accepted, of 2 ^ k cells.
accepted :
    (r : Ring) (base k payload_cap epoch : ℕ) {ring : Ring}
    → 1 ≤ k
    → k ≤ 62
    → init_ring r base (2 ^ k) payload_cap epoch ≡ ok ring
    → Models ring empty_queue
accepted r base k payload_cap epoch {ring} lo hi e =
    let few : 2 ^ k ≤ 2 ^ 62 = pow-le-pow_right (omega arith) hi in
    elim (init_ring_lem r base (2 ^ k) payload_cap epoch (omega arith)) [
      | inr (wrong, bad) ↦ let clash : ok ring ≡ err config = sym e ∙ bad in absurd (cc)
      | inl ((pow, line), got) ↦
          let (s, run, models, _, _) = init_ring-Models r base k payload_cap epoch lo hi line in
          let same : ok s ≡ ok ring = sym run ∙ e in
          let same' : s ≡ ring = cc in subst (λ x. Models x empty_queue) same' models
    ]

module _ (v₀ : Vaultage) where
  -- The arena of a shard holds the cells of its ring, and behind them the buckets of its index.
  abbrev pub Held : Shard → Type 0
  Held sh = (ring_end v₀ ≤ sh.arena_size) × (index_end v₀ ≤ sh.arena_size)

  -- The engine `v₀` with its first `i` shards laid out.
  pub record Laid (i : ℕ) (v : Vaultage) : Type 0 where
    pub frame : v ≡ record v₀ { shards = v.shards }
    pub fresh : (j : ℕ) → j < i → IsFresh (v.shards j)
    pub held : (j : ℕ) → j < i → Held (v.shards j)

  Laid-next :
      (ctl a : Arena) (i k : ℕ) {v v' : Vaultage}
      → v₀.cfg.cells_per_shard ≡ 2 ^ k
      → 1 ≤ k
      → k ≤ 62
      → Laid i v
      → lay_out ctl a i v ≡ some (ok v')
      → Laid (suc i) v'
  unfolding put_shard
  Laid-next ctl a i k {v} {v'} cells lo hi d e =
      let (ring, index, made, same, room) = lay_out_lem ctl a i v e in
      let sized : v.cfg.cells_per_shard ≡ 2 ^ k =
        ap (λ (x : Vaultage). x.cfg.cells_per_shard) d.frame ∙ cells in
      let block = laid a i ring index in
      let models : Models ring empty_queue =
        accepted (v.shards i).ring _ k v.payload_cap v.ctl.epoch lo hi (
          subst
            (λ n. init_ring (v.shards i).ring (Arena.at a 0) n v.payload_cap v.ctl.epoch ≡ ok ring)
            sized made) in
      subst (Laid (suc i)) (sym same) (record {
        frame = ap (λ (x : Vaultage). record x { shards = (put_shard v i block).shards }) d.frame;
        fresh = λ j lt. elim (ℕ_discrete j i) [
          | yes z ↦
              subst IsFresh (sym (ap (put_shard v i block).shards z ∙ put_shard_self v i block))
                (record {
                  ring = models;
                  hot = refl;
                  ingested = refl;
                  consumed = refl;
                  rejected = refl;
                })
          | no nz ↦ subst IsFresh (sym (put_shard_other v i block j nz)) (d.fresh j (omega arith))
        ];
        held = λ j lt. elim (ℕ_discrete j i) [
          | yes z ↦
              subst Held (sym (ap (put_shard v i block).shards z ∙ put_shard_self v i block)) (
                subst (λ (x : Vaultage). ring_end x ≤ a.size) d.frame room.ring,
                subst (λ (x : Vaultage). index_end x ≤ a.size) d.frame room.index,
              )
          | no nz ↦ subst Held (sym (put_shard_other v i block j nz)) (d.held j (omega arith))
        ];
      })

  module _ {S : Type 0} (p : Platform S) (fuel k : ℕ) (cells : v₀.cfg.cells_per_shard ≡ 2 ^ k)
      (lo : 1 ≤ k) (hi : k ≤ 62) where
    pub build_shards-Laid :
        (ctl : Arena) (n i : ℕ) (v : Vaultage) (xs : List Arena) (s : S) {v' : Vaultage}
        {ys : List Arena} {t : S}
        → build_shards p fuel ctl n i v xs s ≡ some (ok (v', ys), t)
        → Laid i v
        → Laid (i + n) v'
    unfolding build_shards
    build_shards-Laid ctl zero i v xs s {v'} e d =
        let same : v ≡ v' = ground arith in
        let many : i ≡ i + 0 = omega arith in
        subst (Laid (i + 0)) same (subst (λ m. Laid m v) many d)
    build_shards-Laid ctl (suc n) i v xs s {v'} {ys} {t} e d =
        elim (Option-cases (shard_arena p fuel v s)) [
          | inl lost ↦ absurd (ground arith)
          | inr ((res, s₁), run) ↦ elim (Result-cases res) [
            | inr (x, failed) ↦
                let end =
                  build_failed p fuel ctl n i v xs s (run ∙ ap (λ r. some (r, s₁)) failed) in
                let clash = sym end ∙ e in absurd (ground arith)
            | inl (a, made) ↦
                let run' = run ∙ ap (λ r. some (r, s₁)) made in
                elim (Option-cases (lay_out ctl a i v)) [
                  | inl faults ↦
                      let end = build_faults p fuel ctl n i v xs s run' faults in
                      let clash = sym end ∙ e in absurd (ground arith)
                  | inr (err x, refused) ↦
                      let end = build_refused p fuel ctl n i v xs s run' refused in
                      let clash = sym end ∙ e in absurd (ground arith)
                  | inr (ok v₁, done) ↦
                      let next = build_next p fuel ctl n i v xs s run' done in
                      let rest =
                        build_shards-Laid ctl n (suc i) v₁ (xs ++ a ∷ []) s₁ (sym next ∙ e)
                          (Laid-next ctl a i k cells lo hi d done) in
                      let many : suc i + n ≡ i + suc n = omega arith in
                      subst (λ m. Laid m v') many rest
                ]
          ]
        ]

total_zero : (n : ℕ) (f : ℕ → ℕ) → ((j : ℕ) → j < n → f j ≡ 0) → total n f ≡ 0
unfolding total
total_zero zero f h = refl
total_zero (suc n) f h =
    omega (arith, total_zero n f (λ j lt. h j (omega arith)), h n (omega arith))

-- The gate that New starts with is open.
pub init_gate-state :
    (g : Gate) (high low : ℕ) {gate : Gate} → init_gate g high low ≡ ok gate → gate.state ≡ 0
unfolding init_gate store
init_gate-state g high low {gate} e = ground arith

pub Laid-IsSound :
    (c : Config) (gate : Gate) (epoch clock : ℕ) {j : ℕ} {v : Vaultage}
    → gate.state ≡ 0
    → c.shards ≡ 2 ^ j
    → j < 64
    → Laid (blank_engine c gate epoch clock) c.shards v
    → IsSound v
unfolding blank_engine
Laid-IsSound c gate epoch clock {j} {v} unshut size small d =
    let most : 2 ^ j ≤ 2 ^ 63 = pow-le-pow_right (omega arith) {j = 63} (omega arith) in
    let pos = two-pow_pos j in
    let n : v.shard_n ≡ c.shards = ap (λ (x : Vaultage). x.shard_n) d.frame in
    let mask : v.shard_msk ≡ sub64 c.shards 1 = ap (λ (x : Vaultage). x.shard_msk) d.frame in
    let ticket : v.ctl.ticket ≡ 0 = ap (λ (x : Vaultage). x.ctl.ticket) d.frame in
    let dropped : v.ctl.dropped ≡ 0 = ap (λ (x : Vaultage). x.ctl.dropped) d.frame in
    let saturated : v.ctl.saturated ≡ 0 = ap (λ (x : Vaultage). x.ctl.saturated) d.frame in
    let state : v.valve.state ≡ 0 = ap (λ (x : Vaultage). x.valve.state) d.frame ∙ unshut in
    let hot =
      total_zero v.shard_n (λ i. (v.shards i).hot) (λ i lt. (d.fresh i (omega arith)).hot) in
    let ingested =
      total_zero v.shard_n (λ i. (v.shards i).ingested)
        (λ i lt. (d.fresh i (omega arith)).ingested) in
    let rejected =
      total_zero v.shard_n (λ i. (v.shards i).rejected)
        (λ i lt. (d.fresh i (omega arith)).rejected) in
    record {
      routed = (j, n ∙ size, omega arith);
      gated = record {
        few = omega arith;
        bits = λ i lt. let z = (d.fresh i (omega arith)).hot in omega arith;
        count = saturated ∙ sym hot;
        gate = inl (saturated, state);
      };
      balance = record { tickets = omega arith; drops = omega arith };
    }
