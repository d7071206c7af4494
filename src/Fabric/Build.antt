-- ===== src/Fabric/Build.antt =====
-- fabric.go: New, Close and teardownArenas: the engine over its arenas.
use vautlage.Prelude.{
  ℕ, zero, suc, ◌+◌, ◌*◌, leb, List, [], ◌∷◌, ◌++◌, Option, none, some, Bool, true, false,
  if◌then◌else◌, add64, mul64, sub64,
}
use vautlage.Errors.{Error, Result, ok, err}
use vautlage.Atomics.{store}
use vautlage.Layout.{cell_stride_for, ring_bytes}
use vautlage.Gate.{Gate, init_gate}
use vautlage.Ring.{Cell, init_ring}
use vautlage.Index.{index_bucket_size, empty_bucket, index_bytes, init_index}
use vautlage.Config.{Config, normalize, int_lt}
use vautlage.Platform.{Platform}
use vautlage.Arena.{Arena, new_arena, close}
use vautlage.Arena
use vautlage.Arena.Owned.{release_all}
use vautlage.Fabric.{Vaultage, Shard, put_shard, stop}

-- Sizeof(globalCtl{}) is six padded words, Sizeof(shard{}) a ring of four strides, an index of five,
-- a stride of its own and four padded words.
abbrev pub ctl_header : ℕ
ctl_header = 768

abbrev pub shard_stride : ℕ
shard_stride = 1792

-- Memory as the kernel hands it out: every word is 0.
abbrev zero_cell : Cell
zero_cell = record {
  seq = 0;
  ticket = 0;
  timestamp = 0;
  key = 0;
  len = 0;
  epoch = 0;
  checksum = 0;
  flags = 0;
  reserved = 0;
  payload = [];
}

abbrev pub zero_shard : Shard
zero_shard = record {
  ring = record {
    cells = λ i. zero_cell;
    base = 0;
    stride = 0;
    capacity = 0;
    mask = 0;
    payload_cap = 0;
    epoch = 0;
    tail = 0;
    commit = 0;
    head = 0;
  };
  index = record {
    table = λ i. empty_bucket;
    base = 0;
    buckets = 0;
    mask = 0;
    live = 0;
    collides = 0;
    overflows = 0;
    reclaims = 0;
  };
  arena_base = 0;
  arena_size = 0;
  id = 0;
  hot = 0;
  ingested = 0;
  consumed = 0;
  rejected = 0;
}

abbrev pub zero_gate : Gate
zero_gate = record { state = 0; closes = 0; opens = 0; rejects = 0; high_pct = 0; low_pct = 0 }

-- The handle: the engine, its arenas, the control arena (nil is none), and what New has started: the
-- number of workers, and the ticker of the coarse clock.
pub record Handle : Type 0 where
  pub engine : Vaultage
  pub arenas : List Arena
  pub ctl_arena : Option Arena
  pub closed : Bool
  pub workers : ℕ
  pub ticker : Bool

-- The engine before its shards are laid out; `epoch` and `clock` are two readings of the clock.
unfoldable pub blank_engine : Config → Gate → ℕ → ℕ → Vaultage
unfolding cell_stride_for int_lt
blank_engine c gate epoch clock = record {
  cfg = c;
  ctl = record {
    ticket = 0;
    running = 1;
    epoch = epoch;
    dropped = 0;
    saturated = 0;
    clock = clock;
  };
  shards = λ i. zero_shard;
  shard_n = c.shards;
  shard_msk = sub64 c.shards 1;
  valve = gate;
  payload_cap = c.payload_capacity;
  cell_stride = cell_stride_for c.payload_capacity;
  coarse_clock = int_lt 0 c.coarse_clock;
}

-- The end of the control block of shard `i`, from the start of the control arena.
abbrev pub block_end : ℕ → ℕ
block_end i = ctl_header + shard_stride * suc i

-- The round of the loop over the shards once the arena is there: the control block, ring and index,
-- whose cells and buckets are stored to. An arena that does not hold what is stored there, because
-- its size has wrapped, makes the process fault: none.
unfoldable pub lay_out : Arena → Arena → ℕ → Vaultage → Option (Result Vaultage)
unfolding put_shard Arena.at store
lay_out ctl a i v =
    let c = v.cfg in
    let buckets = mul64 c.cells_per_shard c.index_buckets_per_cell in
    let rb = ring_bytes c.cells_per_shard v.payload_cap in
    let sh = record (v.shards i) {
      arena_base = a.base;
      arena_size = a.size;
      id = i;
      hot = store (v.shards i).hot 0;
      ingested = store (v.shards i).ingested 0;
      consumed = store (v.shards i).consumed 0;
      rejected = store (v.shards i).rejected 0;
    } in
    if leb (block_end i) ctl.size
    then elim (init_ring sh.ring (Arena.at a 0) c.cells_per_shard v.payload_cap v.ctl.epoch) [
      | err e ↦ some (err e)
      | ok ring ↦
          if leb (c.cells_per_shard * cell_stride_for v.payload_cap) a.size
          then elim (init_index sh.index (Arena.at a rb) buckets) [
            | err e ↦ some (err e)
            | ok index ↦
                if leb (rb + buckets * index_bucket_size) a.size
                then some (ok (put_shard v i (record sh { ring = ring; index = index })))
                else none
          ]
          else none
    ]
    else none

-- The bytes of a shard's arena.
unfoldable pub shard_bytes : Vaultage → ℕ
shard_bytes v =
    let c = v.cfg in
    add64 (ring_bytes c.cells_per_shard v.payload_cap)
      (index_bytes (mul64 c.cells_per_shard c.index_buckets_per_cell))

-- The address of the control block of shard `i`.
unfoldable pub shard_at : ℕ → ℕ → ℕ
shard_at shard_base i = add64 shard_base (mul64 i shard_stride)

-- A tick of clockTicker, which reads `wall` from the clock.
unfoldable pub clock_tick : ℕ → Vaultage → Vaultage
unfolding store
clock_tick wall v = record v { ctl = record v.ctl { clock = store v.ctl.clock wall } }

module _ {S : Type 0} (p : Platform S) where
  -- The loop over the shards, with `n` of them left from shard `i` on.
  unfoldable pub build_shards :
      ℕ → Arena → ℕ → ℕ → Vaultage → List Arena → S → Option (Result (Vaultage × List Arena) × S)
  build_shards fuel ctl zero i v arenas s = some (ok (v, arenas), s)
  build_shards fuel ctl (suc n) i v arenas s =
      elim (new_arena p fuel (shard_bytes v) v.cfg.require_huge_pages v.cfg.require_pinned s) [
        | none ↦ none
        | some (err e, s₁) ↦ some (err e, release_all p arenas s₁)
        | some (ok a, s₁) ↦ elim (lay_out ctl a i v) [
          | none ↦ none
          | some (err e) ↦ some (err e, release_all p (arenas ++ a ∷ []) s₁)
          | some (ok v') ↦ build_shards fuel ctl n (suc i) v' (arenas ++ a ∷ []) s₁
        ]
      ]

  -- New from the control arena on.
  unfoldable pub build : ℕ → Config → Gate → ℕ → ℕ → S → Option (Result Handle × S)
  unfolding int_lt
  build fuel c gate epoch clock s =
      elim (new_arena p fuel (add64 ctl_header (mul64 shard_stride c.shards)) false c.require_pinned
        s) [
          | none ↦ none
          | some (err e, s₁) ↦ some (err e, s₁)
          | some (ok ctl, s₁) ↦
              elim (build_shards fuel ctl c.shards 0 (blank_engine c gate epoch clock) [] s₁) [
                | none ↦ none
                | some (err e, s₂) ↦ some (err e, (close p ctl s₂).2)
                | some (ok (v, arenas), s₂) ↦ some (
                  ok (record {
                    engine = v;
                    arenas = arenas;
                    ctl_arena = some ctl;
                    closed = false;
                    workers = if c.consumer then c.shards else 0;
                    ticker = int_lt 0 c.coarse_clock;
                  }),
                  s₂,
                )
              ]
        ]

  -- New.
  unfoldable pub new : ℕ → ℕ → Config → ℕ → ℕ → S → Option (Result Handle × S)
  new fuel gomaxprocs cfg epoch clock s = elim (normalize fuel gomaxprocs cfg) [
    | none ↦ none
    | some (some e, c) ↦ some (err e, s)
    | some (none, c) ↦ elim (init_gate zero_gate c.high_water_pct c.low_water_pct) [
      | err e ↦ some (err e, s)
      | ok gate ↦ build fuel c gate epoch clock s
    ]
  ]

  -- `if err != nil && firstErr == nil { firstErr = err }`
  abbrev pub first : Option Error → Option Error → Option Error
  first none failed = failed
  first (some e) failed = some e

  -- The loop of Close over the arenas.
  unfoldable pub close_arenas : List Arena → Option Error → S → Option Error × S
  close_arenas [] first_err s = (first_err, s)
  close_arenas (a ∷ xs) first_err s =
      let (failed, a', s') = close p a s in close_arenas xs (first first_err failed) s'

  -- Close of the engine, once the workers it waits for have returned.
  unfoldable pub close_engine : Handle → S → Option Error × Handle × S
  close_engine h s =
      let (first_err, s₁) = close_arenas h.arenas none s in
      let h' = record h { engine = stop h.engine; arenas = []; ctl_arena = none; closed = true } in
      if h.closed then (none, h, s) else elim h.ctl_arena [
        | none ↦ (first_err, h', s₁)
        | some ctl ↦ let (failed, ctl', s₂) = close p ctl s₁ in (first first_err failed, h', s₂)
      ]
