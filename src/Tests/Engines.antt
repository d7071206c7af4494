-- ===== src/Tests/Engines.antt =====
-- The engine: a record is published and looked up; a session saturates the shard and drains it.
use vautlage.Prelude.{
  ℕ, ◌≤◌, ◌+◌, ◌%◌, ◌^◌, ◌≡◌, ◌≢◌, ◌⊎◌, ◌↔◌, inl, inr, refl, arith, List, [], ◌∷◌, Option, ◌++◌,
  length, none, some, true, Bool-cases, ◌==◌, false, ◌<◌,
}
use vautlage.Errors.{Result, ok}
use vautlage.Atomics.{load, store, add, cas}
use vautlage.Gate
use vautlage.Gate.{Gate, is_closed}
use vautlage.Record.{Record, blank, checksum32, digest}
use vautlage.Ring
use vautlage.Ring.{Ring, occupancy_pct}
use vautlage.Index
use vautlage.Index.{hash_key, at}
use vautlage.Index.Find.{Passed}
use vautlage.Index.Upsert.{home}
use vautlage.Config.{int_lt}
use vautlage.Fabric
use vautlage.Fabric.{
  Vaultage, Shard, put_shard, route, now, mark_saturated, mark_drained, publish, lookup,
}
use vautlage.Fabric.Consume
use vautlage.Fabric.Consume.{Scene}
use vautlage.Fabric.Total.{total, sum_of}
use vautlage.Fabric.Saturation.{IsGated, hot_of}
use vautlage.Fabric.Tickets.{ingested_of, rejected_of}
use vautlage.Fabric.Session.{IsSound}
use vautlage.Fabric.Run.{Call, drain, round, session, perform, session_lem}
use vautlage.Fabric.Drained.{Cools, mark_drained_lem}
use vautlage.Fabric.Wedge.{Wedged, Stays, wedge_lem}
use vautlage.Fabric.Reads.{Admits, delivered_by}
use vautlage.Fabric.Handed.{tagged, handle_all}
use vautlage.Fabric.Drain.{quota, Waits}
use vautlage.Fabric.Sweep.{drain_lem}
use vautlage.Fabric.Work.{worker, worker_lem}
use vautlage.Fabric.Returns.{publish_returns}
use vautlage.Fabric.Readback.{IsIssued, header, publish-lookup}
use vautlage.Ctl.{Tally, produce}
use vautlage.Ctl.Room.{Room}
use vautlage.Ctl.Load.{Tries, produce_lem}
use vautlage.Tests.Data.{bytes, two, two-IsValid, pair, engine, two_queue, two-Models}

pub engine-IsSound : IsSound engine
unfolding total
engine-IsSound = record {
  routed = (0, refl, refl);
  gated = record {
    few = omega arith;
    bits = λ i lt. omega arith;
    count = refl;
    gate = inl (refl, refl);
  };
  balance = record { tickets = refl; drops = refl };
}

-- The hot twin of the engine, with its valve shut.
abbrev hot_engine : Vaultage
hot_engine = record engine {
  ctl = record engine.ctl { saturated = 1 };
  valve = record engine.valve { state = 1; closes = 1 };
  shards = λ i. record (engine.shards i) { hot = 1 };
}

hot_engine-IsGated : IsGated hot_engine
unfolding total
hot_engine-IsGated = record {
  few = omega arith;
  bits = λ i lt. omega arith;
  count = refl;
  gate = inr (λ e. omega arith, refl);
}

engine-Admits : Admits engine 4 bytes
unfolding is_closed
engine-Admits = record {
  keyed = λ e. omega arith;
  fits = omega arith;
  running = λ e. omega arith;
  opened = refl;
  ring = two-IsValid;
  cap = refl;
  small = omega arith;
  free = refl;
}

engine-IsIssued : IsIssued engine 4
engine-IsIssued p lt same = elim (Bool-cases (at pair (home pair 4) p == 1)) [
  | inl hit ↦ ground arith
  | inr miss ↦ ground arith
]

publish-lookup_example :
    (v' : Vaultage) × (publish 2 3 engine 4 bytes 0 ≡ some (ok (add 1 1), v'))
    × ((lookup v' 4 blank ≡ (
      none,
      record (delivered_by two 1
          (header 1 3 0 engine-Admits (omega arith) (omega arith))
          bytes
          blank) { shard = route engine 4 },
    ))
        ⊎ Passed pair (home pair 4) 4 16)
publish-lookup_example =
    publish-lookup 1 3 0 engine-Admits (omega arith) (omega arith) engine-IsIssued blank

-- The handler collects the tickets.
abbrev collect : Record → List ℕ → List ℕ
collect rec seen = rec.ticket ∷ seen

abbrev start : Scene (List ℕ)
start = record { engine = engine; rec = blank; world = [] }

abbrev calls : List Call
calls = Call.publish 3 4 bytes 0 ∷ Call.publish 3 5 [] 0 ∷ drain 0 ∷ round 0 0 ∷ []

abbrev scene_of : Option (Scene (List ℕ)) → Scene (List ℕ)
scene_of none = start
scene_of (some s) = s

abbrev end : Scene (List ℕ)
end = scene_of (session 9 collect calls start)

session_runs : session 9 collect calls start ≡ some end
unfolding session perform Fabric.publish Fabric.admit Fabric.ingest Fabric.refuse put_shard route
    now mark_saturated mark_drained is_closed Gate.reject Gate.shut Gate.release checksum32 digest
    hash_key int_lt load store add cas Ring.claim Ring.publish Ring.fill Ring.copy_into_payload
    Ring.advance_commit Ring.cell Ring.write_cell Ring.dequeue Ring.read_cell Ring.release
    Ring.payload_slice Ring.pending Ring.occupancy_pct Index.upsert Index.attempt Index.find_bucket
    Index.reclaim_bucket Index.is_dead Index.update_monotonic Index.fill_bucket
    Index.count_collisions Consume.deliver Consume.batch Consume.worker_round Consume.drain_shard
    Consume.drain_from Consume.drain
session_runs = refl

delivered_in_order : end.world ≡ 2 ∷ 1 ∷ []
unfolding session perform Fabric.publish Fabric.admit Fabric.ingest Fabric.refuse put_shard route
    now mark_saturated mark_drained is_closed Gate.reject Gate.shut Gate.release checksum32 digest
    hash_key int_lt load store add cas Ring.claim Ring.publish Ring.fill Ring.copy_into_payload
    Ring.advance_commit Ring.cell Ring.write_cell Ring.dequeue Ring.read_cell Ring.release
    Ring.payload_slice Ring.pending Ring.occupancy_pct Index.upsert Index.attempt Index.find_bucket
    Index.reclaim_bucket Index.is_dead Index.update_monotonic Index.fill_bucket
    Index.count_collisions Consume.deliver Consume.batch Consume.worker_round Consume.drain_shard
    Consume.drain_from Consume.drain
delivered_in_order = refl

session_lem_example :
    (end.engine.ctl.saturated ≡ sum_of hot_of end.engine)
    × ((is_closed end.engine.valve ≡ true) ↔ (end.engine.ctl.saturated ≢ 0))
    × (end.engine.ctl.ticket ≡ (sum_of ingested_of end.engine + end.engine.ctl.dropped) % 2 ^ 64)
    × (end.engine.ctl.dropped ≡ sum_of rejected_of end.engine % 2 ^ 64)
session_lem_example =
    session_lem 9 collect calls start engine-IsSound (tt, (tt, (tt, (omega arith, tt))))
      session_runs

publish_returns_example :
    (res : Result ℕ) × (v' : Vaultage) × (publish 2 3 engine 4 bytes 0 ≡ some (res, v'))
publish_returns_example =
    publish_returns 1 3 engine 4 bytes 0 two-IsValid (omega arith) (omega arith)

-- What the ring of the engine holds, as Drain hands it over.
abbrev held : List Record
held = tagged 0 two_queue.items

held-Waits : Waits 1 0 engine held
unfolding tagged
held-Waits = (two_queue, [], two-Models, refl, refl)

held_one : length held ≡ 1
unfolding tagged
held_one = refl

drain_lem_example :
    (xs : List Record) × (ys : List Record) × (t : Scene (List ℕ)) × (held ≡ xs ++ ys)
    × (Consume.drain 3 1 (some collect) start ≡ some (length xs, t))
    × (length xs ≡ quota 1 0 (length held))
    × (t.world ≡ handle_all (some collect) xs [])
    × Waits 1 0 t.engine ys
drain_lem_example =
    drain_lem 1 (omega arith) (some collect) 3 start held held-Waits
      (let e = held_one in omega arith) (let e = held_one in omega arith)

-- The engine after Close has stopped it.
abbrev stopped : Scene (List ℕ)
stopped = record start { engine = record engine { ctl = record engine.ctl { running = 0 } } }

worker_lem_example :
    (t : Scene (List ℕ)) × (worker 1 collect 0 2 5 stopped ≡ some t)
    × (t.world ≡ handle_all (some collect) (tagged 0 two_queue.items) [])
    × (Ring.pending (t.engine.shards 0).ring ≡ 0)
    × ((j : ℕ) → j ≢ 0 → (t.engine.shards j).ring ≡ two)
worker_lem_example = worker_lem collect 0 0 2 5 stopped two-Models refl (omega arith)

engine-Room : (s : ℕ) → s < 1 → Room 2 2 (engine.shards s).ring
engine-Room s lt = record { valid = two-IsValid; small = omega arith; enough = omega arith }

abbrev no_tally : Tally
no_tally = record { published = 0; backpressed = 0; full = 0 }

produce_lem_example :
    (t : Tally) × (v : Vaultage) × (produce (λ _. false) 3 9 2 0 bytes 2 0 engine no_tally
      ≡ some (t, v))
    × Tries 3 9 bytes 1 2 engine no_tally t v
produce_lem_example =
    produce_lem (λ _. false) 2 9 2 0 bytes 2 0 engine no_tally (λ _. refl) engine-IsSound
      (λ e. omega arith, omega arith) (omega arith) (omega arith) engine-Room

-- The hot engine after its only record was consumed, with no markDrained to follow.
abbrev wedged : Vaultage
wedged = record hot_engine {
  shards = λ i. record (hot_engine.shards i) { ring = record two { head = 1 } };
}

wedged-Wedged : Wedged wedged
unfolding is_closed load
wedged-Wedged = record { running = λ e. omega arith; shut = refl; empty = λ s. omega arith }

wedged-IsGated : IsGated wedged
unfolding total
wedged-IsGated = record {
  few = omega arith;
  bits = λ i lt. omega arith;
  count = refl;
  gate = inr (λ e. omega arith, refl);
}

mark_drained_lem_example :
    ((((wedged.shards 0).hot ≡ 0)
        ⊎ (wedged.cfg.low_water_pct < occupancy_pct (wedged.shards 0).ring))
      × (mark_drained wedged 0 ≡ wedged))
    ⊎ (((wedged.shards 0).hot ≡ 1)
        × (occupancy_pct (wedged.shards 0).ring ≤ wedged.cfg.low_water_pct)
        × Cools wedged 0 (mark_drained wedged 0))
mark_drained_lem_example = mark_drained_lem wedged-IsGated 0 (omega arith)

abbrev attempts : List Call
attempts = Call.publish 3 9 bytes 0 ∷ round 0 0 ∷ Call.publish 4 5 [] 0 ∷ []

wedge_lem_example :
    (s : Scene (List ℕ)) × (session 1 collect attempts (record start { engine = wedged }) ≡ some s)
    × Stays wedged s.engine
wedge_lem_example = wedge_lem 0 collect attempts (record start { engine = wedged }) tt wedged-Wedged
