-- ===== src/Fabric/Stats.antt =====
-- stats.go: the snapshot of the engine. The loads are those of one thread that nothing disturbs.
use vautlage.Prelude.{
  ℕ, zero, suc, ◌/◌, List, [], ◌∷◌, ◌++◌, Option, none, some, Bool, true, false, not, if◌then◌else◌,
  ltb, add64, mul64,
}
use vautlage.Atomics.{load}
use vautlage.Ring.{pending, committed, occupancy_pct}
use vautlage.Index
use vautlage.Index.{IndexStats}
use vautlage.Gate
use vautlage.Gate.{GateStats}
use vautlage.Arena
use vautlage.Arena.{Arena, ArenaStats}
use vautlage.Fabric.{Vaultage, Shard}
use vautlage.Fabric.Build.{Handle}

pub record ShardStats : Type 0 where
  pub id : ℕ
  pub capacity : ℕ
  pub pending : ℕ
  pub committed : ℕ
  pub occupancy_pct : ℕ
  pub ingested : ℕ
  pub consumed : ℕ
  pub rejected : ℕ
  pub tail : ℕ
  pub commit_index : ℕ
  pub head : ℕ
  pub arena : ArenaStats
  pub index : IndexStats

pub record Stats : Type 0 where
  pub shards : ℕ
  pub cell_stride : ℕ
  pub payload_cap : ℕ
  pub arena_bytes : ℕ
  pub pinned_bytes : ℕ
  pub huge_aligned : Bool
  pub huge_native : Bool
  pub tickets : ℕ
  pub ingested : ℕ
  pub consumed : ℕ
  pub rejected : ℕ
  pub dropped : ℕ
  pub pending : ℕ
  pub occupancy_pct : ℕ
  pub gate : GateStats
  pub shard_stats : List ShardStats

-- The snapshot of shard `i`, with its arena.
unfoldable pub shard_stats : ℕ → Shard → Arena → ShardStats
unfolding load Arena.stats
shard_stats i sh a = record {
  id = i;
  capacity = sh.ring.capacity;
  pending = pending sh.ring;
  committed = committed sh.ring;
  occupancy_pct = occupancy_pct sh.ring;
  ingested = load sh.ingested;
  consumed = load sh.consumed;
  rejected = load sh.rejected;
  tail = load sh.ring.tail;
  commit_index = load sh.ring.commit;
  head = load sh.ring.head;
  arena = Arena.stats a;
  index = Index.stats sh.index;
}

-- One round of the loop: the snapshot so far and the capacity, with the shard's added. The pending
-- records and the capacity are local variables in the source; the field of the snapshot stands for the
-- first of them.
unfoldable pub count_in : ShardStats → Stats → ℕ → Stats × ℕ
count_in x s capacity = (
  record s {
    shard_stats = s.shard_stats ++ x ∷ [];
    ingested = add64 s.ingested x.ingested;
    consumed = add64 s.consumed x.consumed;
    rejected = add64 s.rejected x.rejected;
    pending = add64 s.pending x.pending;
    arena_bytes = add64 s.arena_bytes x.arena.size;
    pinned_bytes = if x.arena.pinned then add64 s.pinned_bytes x.arena.size else s.pinned_bytes;
    huge_aligned = if not x.arena.huge_page_aligned then false else s.huge_aligned;
    huge_native = if not x.arena.huge_pages_native then false else s.huge_native;
  },
  add64 capacity x.capacity,
)

-- The loop, with `n` shards left from shard `i` on and their arenas; it panics where v.arenas is too
-- short.
unfoldable pub count_shards : ℕ → ℕ → Vaultage → List Arena → Stats → ℕ → Option (Stats × ℕ)
unfolding shard_stats count_in
count_shards zero i v xs s capacity = some (s, capacity)
count_shards (suc n) i v [] s capacity = none
count_shards (suc n) i v (a ∷ xs) s capacity =
    let (s', capacity') = count_in (shard_stats i (v.shards i) a) s capacity in
    count_shards n (suc i) v xs s' capacity'

-- The snapshot before the loop, with the control arena.
unfoldable pub stats_start : Vaultage → Arena → Stats
unfolding load Gate.stats Arena.stats
stats_start v ctl = record {
  shards = v.shard_n;
  cell_stride = v.cell_stride;
  payload_cap = v.payload_cap;
  arena_bytes = add64 0 (Arena.stats ctl).size;
  pinned_bytes = if (Arena.stats ctl).pinned then add64 0 (Arena.stats ctl).size else 0;
  huge_aligned = true;
  huge_native = true;
  tickets = load v.ctl.ticket;
  ingested = 0;
  consumed = 0;
  rejected = 0;
  dropped = load v.ctl.dropped;
  pending = 0;
  occupancy_pct = 0;
  gate = Gate.stats v.valve;
  shard_stats = [];
}

-- Stats; it panics on a nil control arena.
unfoldable pub stats : Handle → Option Stats
unfolding count_shards stats_start
stats h = elim h.ctl_arena [
  | none ↦ none
  | some ctl ↦
      elim (count_shards h.engine.shard_n 0 h.engine h.arenas (stats_start h.engine ctl) 0) [
        | none ↦ none
        | some (s, capacity) ↦ some (
            if ltb 0 capacity
            then record s { occupancy_pct = mul64 s.pending 100 / capacity }
            else s)
      ]
]
