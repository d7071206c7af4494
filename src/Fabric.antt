-- ===== src/Fabric.antt =====
-- fabric.go: the engine, its control block, shards and valve. The control arena is a record for
-- globalCtl and a function from a shard's number to its block; each function is the code as one
-- thread runs it undisturbed. `wall` is what time.Now answers, as nanoseconds in a 64-bit pattern; a
-- handler maps the state of its own to the next, and does not call the engine.
pub mod Consume
pub mod Total
pub mod Saturation
pub mod Drained
pub mod Outcome
pub mod Tickets
pub mod Session
pub mod Delivery
pub mod Handed
pub mod Drain
pub mod Sweep
pub mod Work
pub mod Build
pub mod LayOut
pub mod Built
pub mod Life
pub mod Fresh
pub mod Start
pub mod Stats
pub mod Snapshot
pub mod Run
pub mod Wedge
pub mod Reads
pub mod Readback
pub mod Returns
use vautlage.Prelude.{
  ℕ, zero, suc, ◌*◌, ◌/◌, List, [], Option, none, some, Bool, true, false, not, if◌then◌else◌, ◌==◌,
  ltb, leb, bit_and, add64, mul64, not64, length, update,
}
use vautlage.Errors.{
  Error, config, payload_too_large, closed, backpressure, shard_full, Result, ok, err,
}
use vautlage.Atomics.{load, store, add, cas}
use vautlage.Record.{Record, flag_tombstone, checksum32}
use vautlage.Ring
use vautlage.Ring.{Ring, Header, claim, pending, occupancy_pct}
use vautlage.Index.{KeyIndex, Entry, hash_key, upsert}
use vautlage.Index
use vautlage.Gate
use vautlage.Gate.{Gate, is_closed, reject, shut, force_open}
use vautlage.Config.{Config}

-- globalCtl.
pub record Control : Type 0 where
  pub ticket : ℕ
  pub running : ℕ
  pub epoch : ℕ
  pub dropped : ℕ
  pub saturated : ℕ
  pub clock : ℕ

pub record Shard : Type 0 where
  pub ring : Ring
  pub index : KeyIndex
  pub arena_base : ℕ
  pub arena_size : ℕ
  pub id : ℕ
  pub hot : ℕ
  pub ingested : ℕ
  pub consumed : ℕ
  pub rejected : ℕ

-- The handle without its arenas and its Go synchronisation.
pub record Vaultage : Type 0 where
  pub cfg : Config
  pub ctl : Control
  pub shards : ℕ → Shard
  pub shard_n : ℕ
  pub shard_msk : ℕ
  pub valve : Gate
  pub payload_cap : ℕ
  pub cell_stride : ℕ
  pub coarse_clock : Bool

-- The engine after a write to the block of shard `sid`.
unfoldable pub put_shard : Vaultage → ℕ → Shard → Vaultage
put_shard v sid sh = record v { shards = update v.shards sid sh }

unfoldable pub route : Vaultage → ℕ → ℕ
route v key = bit_and (hash_key key) v.shard_msk

unfoldable pub now : ℕ → Vaultage → ℕ
unfolding load
now wall v = if v.coarse_clock then load v.ctl.clock else wall

unfoldable pub mark_saturated : Vaultage → ℕ → Vaultage
unfolding cas add put_shard
mark_saturated v sid =
    let sh = v.shards sid in
    let (won, hot) = cas sh.hot 0 1 in
    let latched = put_shard v sid (record sh { hot = hot }) in
    if won
    then record latched {
      ctl = record v.ctl { saturated = add v.ctl.saturated 1 };
      valve = (shut v.valve).1;
    }
    else latched

unfoldable pub mark_drained : Vaultage → ℕ → Vaultage
unfolding load cas add put_shard
mark_drained v sid =
    let sh = v.shards sid in
    let (won, hot) = cas sh.hot 1 0 in
    let saturated = add v.ctl.saturated (not64 0) in
    let cooled = record (put_shard v sid (record sh { hot = hot })) {
      ctl = record v.ctl { saturated = saturated };
    } in
    let released = (Gate.release v.valve).1 in
    if load sh.hot == 0
    then v
    else if ltb v.cfg.low_water_pct (occupancy_pct sh.ring)
    then v
    else if not won
    then v
    else if saturated == 0
    then record cooled {
      valve = if load cooled.ctl.saturated == 0 then released else (shut released).1;
    }
    else cooled

-- The failed claim: the ticket is dropped and the shard's saturation counted.
unfoldable pub refuse : Vaultage → ℕ → Vaultage
unfolding add put_shard
refuse v sid =
    let sh = v.shards sid in
    let counted = put_shard v sid (record sh { rejected = add sh.rejected 1 }) in
    mark_saturated (record counted { ctl = record v.ctl { dropped = add v.ctl.dropped 1 } }) sid

abbrev pub entry_of : ℕ → ℕ → ℕ → Ring → Entry
entry_of ticket key pos ring = record { key = key; ticket = ticket; slot = bit_and pos ring.mask }

-- publish from the claimed position on: the ring, the counter, the index, the saturation test.
unfoldable pub ingest :
    ℕ → ℕ → Vaultage → ℕ → ℕ → ℕ → ℕ → ℕ → List ℕ → ℕ → Option (Result ℕ × Vaultage)
unfolding load add put_shard
ingest fuel wall v sid pos ticket key flags payload sum =
    let sh = v.shards sid in
    let header : Header = record {
      ticket = ticket;
      key = key;
      timestamp = now wall v;
      flags = flags;
      checksum = sum;
    } in
    elim (Ring.publish fuel sh.ring pos header payload) [
      | none ↦ none
      | some (n, ring) ↦ elim (upsert fuel sh.index (entry_of ticket key pos ring) ring) [
        | none ↦ none
        | some (ignored, index) ↦
            let done =
              put_shard v sid
                (record sh { ring = ring; ingested = add sh.ingested 1; index = index }) in
            some (
              ok ticket,
              if leb v.cfg.high_water_pct (occupancy_pct ring)
                  then mark_saturated done sid
                  else done,
            )
      ]
    ]

-- publish from the ticket on.
unfoldable pub admit : ℕ → ℕ → Vaultage → ℕ → List ℕ → ℕ → Option (Result ℕ × Vaultage)
unfolding add put_shard
admit fuel wall v key payload flags =
    let sid = route v key in
    let sh = v.shards sid in
    let ticket = add v.ctl.ticket 1 in
    let issued = record v { ctl = record v.ctl { ticket = ticket } } in
    let sum = if v.cfg.checksums then checksum32 payload else 0 in
    elim (claim fuel sh.ring) [
      | none ↦ none
      | some (none, ring) ↦
          some (err shard_full, refuse (put_shard issued sid (record sh { ring = ring })) sid)
      | some (some pos, ring) ↦
          ingest fuel wall (put_shard issued sid (record sh { ring = ring })) sid pos ticket key
            flags payload sum
    ]

-- The method `publish`; Publish passes no flags.
unfoldable pub publish : ℕ → ℕ → Vaultage → ℕ → List ℕ → ℕ → Option (Result ℕ × Vaultage)
unfolding load
publish fuel wall v key payload flags =
    if key == 0
    then some (err config, v)
    else if ltb v.payload_cap (length payload)
    then some (err payload_too_large, v)
    else if load v.ctl.running == 0
    then some (err closed, v)
    else if is_closed v.valve
    then some (err backpressure, record v { valve = reject v.valve })
    else admit fuel wall v key payload flags

unfoldable pub publish_tombstone : ℕ → ℕ → Vaultage → ℕ → Option (Result ℕ × Vaultage)
publish_tombstone fuel wall v key = publish fuel wall v key [] flag_tombstone

-- Lookup: the error is nil at none.
unfoldable pub lookup : Vaultage → ℕ → Record → Option Error × Record
lookup v key rec =
    let sid = route v key in
    let sh = v.shards sid in
    let (failed, rec') = Index.lookup sh.index key sh.ring rec in
    if key == 0
    then (some config, rec)
    else elim failed [ some e ↦ (some e, rec') | none ↦ (none, record rec' { shard = sid }) ]

-- The loop of saturation, with `n` shards left from shard `i` on: pending, capacity, worst.
unfoldable pub sweep : ℕ → ℕ → Vaultage → ℕ → ℕ → ℕ → ℕ × ℕ × ℕ
sweep zero i v total capacity worst = (total, capacity, worst)
sweep (suc n) i v total capacity worst =
    let r = (v.shards i).ring in
    let p = pending r in
    let pct = mul64 p 100 / r.capacity in
    sweep n (suc i) v (add64 total p) (add64 capacity r.capacity)
      (if ltb worst pct then pct else worst)

unfoldable pub saturation : Vaultage → ℕ × ℕ
saturation v =
    let (total, capacity, worst) = sweep v.shard_n 0 v 0 0 0 in
    if capacity == 0 then (0, 0) else (mul64 total 100 / capacity, worst)

-- What Close does before it waits for the workers and unmaps the arenas.
unfoldable pub stop : Vaultage → Vaultage
unfolding store
stop v = record v {
  ctl = record v.ctl { running = store v.ctl.running 0 };
  valve = force_open v.valve;
}
