-- ===== src/Fabric/Drained.antt =====
-- markDrained: the hysteresis, and the valve afterwards.
use native.Mathlib.Decide.{ℕ_discrete, dec_le}
use mathlib.Core.Path.{subst}
use vautlage.Prelude.{ℕ, ◌+◌, ◌-◌, ◌^◌, ◌≤◌, ◌<◌, ◌≡◌, ◌≢◌, ◌⊎◌, inl, inr, ap, sym, arith}
use vautlage.Gate.{release}
use vautlage.Ring.{occupancy_pct}
use vautlage.Fabric.{Vaultage, put_shard, mark_drained}
use vautlage.Fabric.Total.{sum_of, total_bits, sum_of-put_shard, put_shard_self}
use vautlage.Fabric.Saturation.{IsGated, Bits, hot_of, put_shard-Bits}

-- The engine after shard `sid` has cooled down.
abbrev cooled : Vaultage → ℕ → Vaultage
cooled v sid = record (put_shard v sid (record (v.shards sid) { hot = 0 })) {
  ctl = record v.ctl { saturated = v.ctl.saturated - 1 };
}

abbrev reopened : Vaultage → ℕ → Vaultage
reopened v sid = record (cooled v sid) { valve = (release v.valve).1 }

cooled-gate :
    {v : Vaultage}
    → IsGated v
    → (sid : ℕ) → sid < v.shard_n
    → (v.shards sid).hot ≡ 1
    → (v.ctl.saturated ≢ 0)
      × (v.ctl.saturated < 2 ^ 64)
      × (v.valve.state ≡ 1)
      × (v.ctl.saturated - 1 ≡ sum_of hot_of (put_shard v sid (record (v.shards sid) { hot = 0 })))
unfolding Bits
cooled-gate {v} g sid lt hot =
    let sum = sum_of-put_shard hot_of v sid (record (v.shards sid) { hot = 0 }) lt in
    let most = total_bits v.shard_n (λ i. (v.shards i).hot) g.bits in
    (
      omega (arith, g.count),
      omega (arith, g.count, g.few),
      omega (arith, g.gate, g.count),
      omega (arith, g.count),
    )

cooled-IsGated :
    {v : Vaultage}
    → IsGated v
    → (sid : ℕ) → sid < v.shard_n
    → (v.shards sid).hot ≡ 1
    → v.ctl.saturated ≢ 1
    → IsGated (cooled v sid)
unfolding put_shard Bits
cooled-IsGated {v} g sid lt hot many =
    let c = cooled-gate g sid lt hot in
    record {
      few = g.few;
      bits = put_shard-Bits v g.bits sid (record (v.shards sid) { hot = 0 }) (omega arith);
      count = c.3;
      gate = inr (omega (arith, c.0), c.2);
    }

reopened-IsGated :
    {v : Vaultage}
    → IsGated v
    → (sid : ℕ) → sid < v.shard_n
    → (v.shards sid).hot ≡ 1
    → v.ctl.saturated ≡ 1
    → IsGated (reopened v sid)
unfolding put_shard release Bits
reopened-IsGated {v} g sid lt hot one =
    let c = cooled-gate g sid lt hot in
    record {
      few = g.few;
      bits = put_shard-Bits v g.bits sid (record (v.shards sid) { hot = 0 }) (omega arith);
      count = c.3;
      gate = inl (omega arith, ground (arith, c.2));
    }

mark_drained_keeps :
    (v : Vaultage) (sid : ℕ)
    → ((v.shards sid).hot ≡ 0) ⊎ (v.cfg.low_water_pct < occupancy_pct (v.shards sid).ring)
    → mark_drained v sid ≡ v
unfolding mark_drained
mark_drained_keeps v sid kept = ground arith

module _ (v : Vaultage) (sid : ℕ) (hot : (v.shards sid).hot ≡ 1)
    (low : occupancy_pct (v.shards sid).ring ≤ v.cfg.low_water_pct)
    (small : v.ctl.saturated < 2 ^ 64) where
  mark_drained_cools : 2 ≤ v.ctl.saturated → mark_drained v sid ≡ cooled v sid
  unfolding mark_drained
  mark_drained_cools many = ground arith

  mark_drained_reopens : v.ctl.saturated ≡ 1 → mark_drained v sid ≡ reopened v sid
  unfolding mark_drained
  mark_drained_reopens one = ground arith

-- The latch is clear, one shard fewer counts as hot, and the valve follows.
abbrev pub Cools : Vaultage → ℕ → Vaultage → Type 0
Cools v sid w = ((w.shards sid).hot ≡ 0) × (w.ctl.saturated + 1 ≡ v.ctl.saturated) × IsGated w

-- markDrained with the counter and the valve in step with the latches keeps them in step. It changes
-- nothing while the shard is cold or above the low-water mark; at or below it, it clears the latch,
-- and the gate is open afterwards exactly if no other shard is hot.
pub mark_drained_lem :
    {v : Vaultage}
    → IsGated v
    → (sid : ℕ) → sid < v.shard_n
    → ((((v.shards sid).hot ≡ 0) ⊎ (v.cfg.low_water_pct < occupancy_pct (v.shards sid).ring))
        × (mark_drained v sid ≡ v))
      ⊎ (((v.shards sid).hot ≡ 1)
          × (occupancy_pct (v.shards sid).ring ≤ v.cfg.low_water_pct)
          × Cools v sid (mark_drained v sid))
mark_drained_lem {v} g sid lt = elim (ℕ_discrete (v.shards sid).hot 0) [
  | yes cold ↦ inl (inl cold, mark_drained_keeps v sid (inl cold))
  | no warm ↦ elim (dec_le (occupancy_pct (v.shards sid).ring) v.cfg.low_water_pct) [
    | no full ↦
        let above : v.cfg.low_water_pct < occupancy_pct (v.shards sid).ring = omega arith in
        inl (inr above, mark_drained_keeps v sid (inr above))
    | yes low ↦
        let hot : (v.shards sid).hot ≡ 1 = omega (arith, g.bits sid lt) in
        let c = cooled-gate g sid lt hot in
        let self : ((cooled v sid).shards sid).hot ≡ 0 =
          ap hot_of (put_shard_self v sid (record (v.shards sid) { hot = 0 })) in
        elim (ℕ_discrete v.ctl.saturated 1) [
          | yes one ↦ inr (
            hot,
            low,
            subst (Cools v sid) (sym (mark_drained_reopens v sid hot low c.1 one))
                (self, omega arith, reopened-IsGated g sid lt hot one),
          )
          | no many ↦ inr (
            hot,
            low,
            subst (Cools v sid) (sym (mark_drained_cools v sid hot low c.1 (omega (arith, c.0))))
                (self, omega (arith, c.0), cooled-IsGated g sid lt hot many),
          )
        ]
  ]
]

pub mark_drained-IsGated :
    {v : Vaultage} → IsGated v → (sid : ℕ) → sid < v.shard_n → IsGated (mark_drained v sid)
mark_drained-IsGated g sid lt = elim (mark_drained_lem g sid lt) [
  | inl (_, same) ↦ subst IsGated (sym same) g
  | inr (_, _, c) ↦ c.2
]
