-- ===== src/Fabric/Consume.antt =====
-- fabric.go: worker and Drain. `W` is the state that the handler keeps.
use vautlage.Prelude.{
  ℕ, zero, suc, Option, none, some, Bool, true, false, not, ◌&&◌, ◌||◌, if◌then◌else◌, ◌==◌, ltb,
  add64,
}
use vautlage.Atomics.{load, add}
use vautlage.Record.{Record}
use vautlage.Ring.{Ring, pending, release}
use vautlage.Ring
use vautlage.Config.{backoff, int_lt}
use vautlage.Fabric.{Vaultage, put_shard, mark_drained}

abbrev pub drain_batch : ℕ
drain_batch = 256

-- The engine, the scratch record and the handler's state.
pub record Scene (W : Type 0) : Type 0 where
  pub engine : Vaultage
  pub rec : Record
  pub world : W

module _ {W : Type 0} where
  -- `if h != nil { h(rec) }`
  abbrev pub handle : Option (Record → W → W) → Record → W → W
  handle none rec w = w
  handle (some h) rec w = h rec w

  -- One round of the inner loop of worker or Drain; false is its break.
  unfoldable pub deliver : ℕ → Option (Record → W → W) → ℕ → Scene W → Option (Bool × Scene W)
  unfolding add put_shard
  deliver fuel h sid s =
      let v = s.engine in
      let sh = v.shards sid in
      elim (Ring.dequeue fuel sh.ring s.rec) [
        | none ↦ none
        | some (none, rec, ring) ↦
            some
              (false, record s { engine = put_shard v sid (record sh { ring = ring }); rec = rec })
        | some (some pos, rec, ring) ↦
            let rec' = record rec { shard = sid } in
            some (
              true,
              record {
                engine =
                    put_shard v sid
                      (record sh { ring = release ring pos; consumed = add sh.consumed 1 });
                rec = rec';
                world = handle h rec' s.world;
              },
            )
      ]

  -- The inner loop of worker, from round `n` on with `left` rounds left, and the final n.
  unfoldable pub batch : ℕ → (Record → W → W) → ℕ → ℕ → ℕ → Scene W → Option (ℕ × Scene W)
  batch fuel h sid zero n s = some (n, s)
  batch fuel h sid (suc left) n s = elim (deliver fuel (some h) sid s) [
    | none ↦ none
    | some (false, s') ↦ some (n, s')
    | some (true, s') ↦ batch fuel h sid left (suc n) s'
  ]

  -- One round of worker's outer loop: the idle counter to go on with, or its return.
  unfoldable pub worker_round : ℕ → (Record → W → W) → ℕ → ℕ → Scene W → Option (Option ℕ × Scene W)
  unfolding load
  worker_round fuel h id idle s = elim (batch fuel h id drain_batch 0 s) [
    | none ↦ none
    | some (n, s') ↦
        if ltb 0 n
        then some (some 0, record s' { engine = mark_drained s'.engine id })
        else if (load s'.engine.ctl.running == 0) && (pending (s'.engine.shards id).ring == 0)
        then some (none, s')
        else some (some (backoff idle).1, s')
  ]

  -- The inner loop of Drain: `max` and `total` are Go ints.
  unfoldable pub drain_shard :
      ℕ → ℕ → Option (Record → W → W) → ℕ → ℕ → Scene W → Option (ℕ × Scene W)
  unfolding int_lt
  drain_shard zero max h sid total s = none
  drain_shard (suc fuel) max h sid total s =
      if not (int_lt 0 max) || int_lt total max
      then elim (deliver (suc fuel) h sid s) [
        | none ↦ none
        | some (false, s') ↦ some (total, s')
        | some (true, s') ↦ drain_shard fuel max h sid (add64 total 1) s'
      ]
      else some (total, s)

  -- The loop over the shards, with `n` of them left from shard `i` on.
  unfoldable pub drain_from :
      ℕ → ℕ → Option (Record → W → W) → ℕ → ℕ → ℕ → Scene W → Option (ℕ × Scene W)
  drain_from fuel max h zero i total s = some (total, s)
  drain_from fuel max h (suc n) i total s = elim (drain_shard fuel max h i total s) [
    | none ↦ none
    | some (total', s') ↦
        drain_from fuel max h n (suc i) total' (record s' { engine = mark_drained s'.engine i })
  ]

  -- The result of Drain counts what was delivered.
  unfoldable pub drain : ℕ → ℕ → Option (Record → W → W) → Scene W → Option (ℕ × Scene W)
  drain fuel max h s = drain_from fuel max h s.engine.shard_n 0 0 s
