-- ===== src/Config.antt =====
-- fabric.go: Config, DefaultConfig, normalize, and the idle ladder of a worker.
-- A Go int is its 64-bit pattern; `gomaxprocs` is what runtime.GOMAXPROCS(0) answers.
pub mod Normal
pub mod Idle
use vautlage.Prelude.{
  ℕ, zero, suc, ◌+◌, ◌^◌, Option, none, some, Bool, true, false, not, ◌||◌, if◌then◌else◌, ◌==◌,
  ltb, leb, add64, mul64,
}
use vautlage.Errors.{Error, config}
use vautlage.Layout.{is_pow2}

-- `a < b` on signed 64-bit patterns.
unfoldable pub int_lt : ℕ → ℕ → Bool
int_lt a b = ltb (add64 a (2 ^ 63)) (add64 b (2 ^ 63))

-- `consumer` says whether a handler is set.
pub record Config : Type 0 where
  pub shards : ℕ
  pub cells_per_shard : ℕ
  pub payload_capacity : ℕ
  pub high_water_pct : ℕ
  pub low_water_pct : ℕ
  pub index_buckets_per_cell : ℕ
  pub require_huge_pages : Bool
  pub require_pinned : Bool
  pub checksums : Bool
  pub pin_worker_threads : Bool
  pub coarse_clock : ℕ
  pub consumer : Bool

unfoldable pub default_config : ℕ → Config
default_config gomaxprocs = record {
  shards = gomaxprocs;
  cells_per_shard = 65536;
  payload_capacity = 448;
  high_water_pct = 90;
  low_water_pct = 70;
  index_buckets_per_cell = 2;
  require_huge_pages = false;
  require_pinned = false;
  checksums = true;
  pin_worker_threads = true;
  coarse_clock = 0;
  consumer = false;
}

-- `for n < c.Shards { n <<= 1 }`
unfoldable pub round_up : ℕ → ℕ → ℕ → Option ℕ
unfolding int_lt
round_up zero n shards = none
round_up (suc fuel) n shards =
    let rest = round_up fuel (mul64 n 2) shards in if int_lt n shards then rest else some n

abbrev pub or_default : ℕ → ℕ → ℕ
or_default n d = if n == 0 then d else n

-- The checks and defaults after the rounding. The configuration is also left changed where the call
-- fails.
unfoldable pub check : Config → Option Error × Config
unfolding is_pow2 int_lt
check c =
    let c₁ = record c { cells_per_shard = or_default c.cells_per_shard 65536 } in
    let c₂ = record c₁ {
      payload_capacity = or_default c.payload_capacity 448;
      high_water_pct = or_default c.high_water_pct 90;
      low_water_pct = or_default c.low_water_pct 70;
      index_buckets_per_cell = or_default c.index_buckets_per_cell 2;
    } in
    if not (is_pow2 c₁.cells_per_shard)
    then (some config, c₁)
    else if int_lt c.payload_capacity 0
    then (some config, c₁)
    else if not (is_pow2 c₂.index_buckets_per_cell)
    then (some config, c₂)
    else if ltb 100 c₂.high_water_pct || leb c₂.high_water_pct c₂.low_water_pct
    then (some config, c₂)
    else (none, c₂)

-- The error is nil at none inside.
unfoldable pub normalize : ℕ → ℕ → Config → Option (Option Error × Config)
unfolding int_lt
normalize fuel gomaxprocs c =
    let wanted = if not (int_lt 0 c.shards) then gomaxprocs else c.shards in
    elim (round_up fuel 1 wanted) [ none ↦ none | some n ↦ some (check (record c { shards = n })) ]

-- What backoff does before it returns.
pub data Pause : Type 0 where
  spin yield sleep_50us sleep_500us : Pause

unfoldable pub backoff : ℕ → Pause × ℕ
backoff idle =
    if ltb idle 32
    then (spin, idle + 1)
    else if ltb idle 1024
    then (yield, idle + 1)
    else if ltb idle 4096
    then (sleep_50us, idle + 1)
    else (sleep_500us, idle)
