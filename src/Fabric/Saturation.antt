-- ===== src/Fabric/Saturation.antt =====
-- The valve against the shards: it is shut exactly while some shard is hot.
use native.Mathlib.Decide.{ℕ_discrete}
use mathlib.Core.Path.{subst}
use vautlage.Prelude.{ℕ, ◌+◌, ◌^◌, ◌≤◌, ◌<◌, ◌≡◌, ◌≢◌, ◌⊎◌, inr, refl, ap, sym, arith}
use vautlage.Gate.{shut}
use vautlage.Fabric.{Vaultage, Shard, put_shard, mark_saturated}
use vautlage.Fabric.Total.{sum_of, total_bits, sum_of-put_shard, put_shard_self, put_shard_other}

abbrev pub hot_of : Shard → ℕ
hot_of sh = sh.hot

-- Each latch is a bit, the engine counts the hot shards, and the gate is shut while there are any.
pub record IsGated (v : Vaultage) : Type 0 where
  pub few : v.shard_n < 2 ^ 64
  pub bits : (i : ℕ) → i < v.shard_n → (v.shards i).hot ≤ 1
  pub count : v.ctl.saturated ≡ sum_of hot_of v
  pub gate :
      ((v.ctl.saturated ≡ 0) × (v.valve.state ≡ 0)) ⊎ ((v.ctl.saturated ≢ 0) × (v.valve.state ≡ 1))

unfoldable pub Bits : Vaultage → Type 0
Bits v = (i : ℕ) → i < v.shard_n → (v.shards i).hot ≤ 1

pub put_shard-Bits :
    (v : Vaultage) → Bits v → (sid : ℕ) (sh : Shard) → sh.hot ≤ 1 → Bits (put_shard v sid sh)
unfolding put_shard Bits
put_shard-Bits v bits sid sh one i li = elim (ℕ_discrete i sid) [
  | yes e ↦
      let self : ((put_shard v sid sh).shards i).hot ≡ sh.hot =
        rw e (ap hot_of (put_shard_self v sid sh)) in
      omega arith
  | no ne ↦
      let other : ((put_shard v sid sh).shards i).hot ≡ (v.shards i).hot =
        ap hot_of (put_shard_other v sid sh i ne) in
      omega (arith, bits i li)
]

-- A write that keeps the latch.
pub put_shard-IsGated :
    {v : Vaultage}
    → IsGated v
    → (sid : ℕ) (sh : Shard) → sid < v.shard_n
    → sh.hot ≡ (v.shards sid).hot
    → IsGated (put_shard v sid sh)
unfolding put_shard Bits
put_shard-IsGated {v} g sid sh lt same = record {
  few = g.few;
  bits = put_shard-Bits v g.bits sid sh (omega (arith, g.bits sid lt));
  count = omega (arith, g.count, sum_of-put_shard hot_of v sid sh lt);
  gate = g.gate;
}

-- The engine after shard `sid` has become hot.
abbrev heated : Vaultage → ℕ → Vaultage
heated v sid = record (put_shard v sid (record (v.shards sid) { hot = 1 })) {
  ctl = record v.ctl { saturated = v.ctl.saturated + 1 };
  valve = (shut v.valve).1;
}

heated-IsGated :
    {v : Vaultage}
    → IsGated v
    → (sid : ℕ) → sid < v.shard_n
    → (v.shards sid).hot ≡ 0
    → IsGated (heated v sid)
unfolding put_shard shut Bits
heated-IsGated {v} g sid lt cold = record {
  few = g.few;
  bits = put_shard-Bits v g.bits sid (record (v.shards sid) { hot = 1 }) (omega arith);
  count =
      omega (arith, g.count, sum_of-put_shard hot_of v sid (record (v.shards sid) { hot = 1 }) lt);
  gate = inr (omega arith, ground (arith, g.gate));
}

mark_saturated_cold :
    {v : Vaultage}
    → IsGated v
    → (sid : ℕ) → (v.shards sid).hot ≡ 0
    → v.ctl.saturated + 1 < 2 ^ 64
    → mark_saturated v sid ≡ heated v sid
unfolding mark_saturated
mark_saturated_cold {v} g sid cold small = ground arith

mark_saturated_hot :
    (v : Vaultage) (sid : ℕ)
    → (v.shards sid).hot ≢ 0
    → mark_saturated v sid ≡ put_shard v sid (v.shards sid)
unfolding mark_saturated
mark_saturated_hot v sid hot = ground arith

pub mark_saturated-IsGated :
    {v : Vaultage} → IsGated v → (sid : ℕ) → sid < v.shard_n → IsGated (mark_saturated v sid)
unfolding put_shard
mark_saturated-IsGated {v} g sid lt = elim (ℕ_discrete (v.shards sid).hot 0) [
  | yes cold ↦
      let next = heated-IsGated g sid lt cold in
      let sum = sum_of-put_shard hot_of v sid (record (v.shards sid) { hot = 1 }) lt in
      let most =
        total_bits v.shard_n
          (λ i. ((put_shard v sid (record (v.shards sid) { hot = 1 })).shards i).hot) next.bits in
      subst IsGated (sym (mark_saturated_cold g sid cold (omega (arith, g.count, g.few)))) next
  | no hot ↦
      subst IsGated (sym (mark_saturated_hot v sid hot))
        (put_shard-IsGated g sid (v.shards sid) lt refl)
]
