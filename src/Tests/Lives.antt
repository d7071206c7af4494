-- ===== src/Tests/Lives.antt =====
-- The life of an engine on the small operating system: New, its shards, and Close.
use vautlage.Prelude.{
  ℕ, ◌+◌, ◌*◌, ◌≤◌, mul64, ◌%◌, ◌^◌, ◌<◌, ◌≡◌, ◌⊎◌, refl, arith, [], ◌∷◌, Option, none, some, false,
}
use vautlage.Errors.{Result, ok, err}
use vautlage.Atomics.{store, load}
use vautlage.Gate.{init_gate}
use vautlage.Layout.{align_up, is_aligned, is_pow2, cell_stride_for, ring_bytes}
use vautlage.Ring.{init_ring}
use vautlage.Ring.Models.{Models}
use vautlage.Index.{init_index, clear, index_bytes}
use vautlage.Config.{int_lt, round_up, check, normalize}
use vautlage.Platform.{address, outcome, map_memory, unmap_range}
use vautlage.Platform.View.{Same, Same-refl}
use vautlage.Platform.Linux
use vautlage.Platform.Linux.{linux, cpu_set}
use vautlage.Arena
use vautlage.Fabric.{put_shard}
use vautlage.Fabric.Session.{IsSound}
use vautlage.Fabric.Build.{
  Handle, lay_out, shard_bytes, build_shards, blank_engine, build, new, close_engine,
}
use vautlage.Fabric.Life.{Constructs, new_lem, new-close_engine}
use vautlage.Fabric.Fresh.{empty_queue}
use vautlage.Fabric.Start.{new-IsSound}
use vautlage.Index
use vautlage.Gate
use vautlage.Gate.{is_closed}
use vautlage.Fabric.Stats.{Stats, stats, stats_start, count_shards, count_in, shard_stats}
use vautlage.Fabric.Snapshot.{stats-IsSound}
use vautlage.Tests.Engines.{engine-IsSound}
use vautlage.Tests.Data.{engine, settings}
use vautlage.Tests.Arenas.{Host, host, view, start, fuel, linux_host, arena}

settings-normal : normalize fuel 8 settings ≡ some (none, settings)
unfolding normalize round_up check int_lt is_pow2
settings-normal = refl

new_lem_example :
    (res : Result Handle) × (t : Host) × (new (linux host) fuel 8 settings 7 3 start
      ≡ some (res, t))
    × Constructs (linux host) view settings start res t
unfolding cell_stride_for ring_bytes align_up index_bytes
new_lem_example =
    new_lem linux_host fuel 8 settings settings 7 3 start settings-normal (omega arith)
      (omega arith) (omega arith) (omega arith)

abbrev no_handle : Handle
no_handle = record {
  engine = engine;
  arenas = [];
  ctl_arena = none;
  closed = false;
  workers = 0;
  ticker = false;
}

abbrev handle_of : Option (Result Handle × Host) → Handle
handle_of (some (ok h, t)) = h
handle_of (some (err e, t)) = no_handle
handle_of none = no_handle

abbrev host_of : Option (Result Handle × Host) → Host
host_of (some (res, t)) = t
host_of none = start

abbrev handle : Handle
handle = handle_of (new (linux host) fuel 8 settings 7 3 start)

abbrev running : Host
running = host_of (new (linux host) fuel 8 settings 7 3 start)

made : new (linux host) fuel 8 settings 7 3 start ≡ some (ok handle, running)
unfolding new build build_shards lay_out shard_bytes blank_engine put_shard init_gate init_ring
    init_index store normalize round_up check int_lt is_pow2 is_aligned align_up cell_stride_for
    ring_bytes index_bytes Arena.at Arena.new_arena Arena.map_and_trim Arena.trim Arena.cut
    Arena.advise Arena.finish Arena.pin_span Arena.prefault Arena.touch Linux.sys_map_anon
    Linux.sys_map_huge Linux.sys_advise_huge address outcome map_memory unmap_range
made = refl

-- A payload capacity for which the stride of two cells wraps: New faults in initRing.
too_wide :
    new (linux host) fuel 8 (record settings { payload_capacity = 9223372036854775744 }) 7 3 start
    ≡ none
unfolding new build build_shards lay_out shard_bytes blank_engine put_shard init_gate init_ring
    init_index store normalize round_up check int_lt is_pow2 is_aligned align_up cell_stride_for
    ring_bytes index_bytes Arena.at Arena.new_arena Arena.map_and_trim Arena.trim Arena.cut
    Arena.advise Arena.finish Arena.pin_span Arena.prefault Arena.touch Linux.sys_map_anon
    Linux.sys_map_huge Linux.sys_advise_huge address outcome map_memory unmap_range
too_wide = refl

new-close_engine_example :
    let (failed, h', x) = close_engine (linux host) handle running in
    ((0 < 0) ⊎ Same view start x) × (close_engine (linux host) h' x ≡ (none, h', x))
unfolding cell_stride_for ring_bytes align_up index_bytes
new-close_engine_example =
    new-close_engine linux_host fuel 8 settings settings 7 3 start settings-normal (omega arith)
      (omega arith) (omega arith) (omega arith) made (Same-refl view running)

new-IsSound_example :
    IsSound handle.engine
    × (handle.engine.ctl.running ≡ 1)
    × (handle.engine.shard_n ≡ 1)
    × ((i : ℕ)
        → i < 1
        → Models (handle.engine.shards i).ring empty_queue
          × (2 * cell_stride_for settings.payload_capacity ≤ (handle.engine.shards i).arena_size)
          × (ring_bytes 2 settings.payload_capacity + mul64 2 settings.index_buckets_per_cell * 32
              ≤ (handle.engine.shards i).arena_size))
new-IsSound_example =
    new-IsSound (linux host) fuel 8 settings settings 7 3 0 1 start settings-normal refl
      (omega arith) refl (omega arith) (omega arith) made

-- The small engine in a handle of its own, and its snapshot.
abbrev held : Handle
held = record no_handle { arenas = arena ∷ []; ctl_arena = some arena }

abbrev snapshot_of : Option Stats → Stats
snapshot_of (some st) = st
snapshot_of none = stats_start engine arena

abbrev snapshot : Stats
snapshot = snapshot_of (stats held)

snapshot_taken : stats held ≡ some snapshot
unfolding stats stats_start count_shards count_in shard_stats Arena.stats is_aligned load Gate.stats
    Index.stats is_closed
snapshot_taken = refl

stats-IsSound_example :
    (snapshot.tickets ≡ (snapshot.ingested + snapshot.dropped) % 2 ^ 64)
    × (snapshot.dropped ≡ snapshot.rejected)
stats-IsSound_example = stats-IsSound held arena refl refl engine-IsSound snapshot_taken
