-- ===== src/Ctl.antt =====
-- cmd/vaultagectl/main.go: the configuration from the flags, and the load generator.
pub mod Room
pub mod Keys
pub mod Attempts
pub mod Load
use vautlage.Prelude.{
  ℕ, zero, suc, ◌+◌, ◌%◌, Option, none, some, Bool, ◌&&◌, if◌then◌else◌, ◌==◌, ltb, add64, mul64,
  List, replicate,
}
use vautlage.Errors.{Error, backpressure, shard_full, Result, ok, err}
use vautlage.Atomics.{add}
use vautlage.Config.{Config, default_config}
use vautlage.Fabric.{Vaultage, publish}

-- The flags that configure the engine and its load.
pub record Flags : Type 0 where
  pub shards : ℕ
  pub cells : ℕ
  pub payload : ℕ
  pub producers : ℕ
  pub records : ℕ
  pub huge : Bool
  pub pinned : Bool
  pub coarse : ℕ

-- The engine is given a consumer.
unfoldable pub configure : ℕ → Flags → Config
unfolding default_config
configure gomaxprocs f = record (default_config gomaxprocs) {
  shards = f.shards;
  cells_per_shard = f.cells;
  payload_capacity = f.payload;
  require_huge_pages = f.huge;
  require_pinned = f.pinned;
  coarse_clock = f.coarse;
  consumer = Bool.true;
}

-- The key of record `i` of producer `p`.
unfoldable pub key_of : ℕ → ℕ → ℕ → ℕ
key_of records p i = add64 (add64 (mul64 p records) i) 1

pub record Tally : Type 0 where
  pub published : ℕ
  pub backpressed : ℕ
  pub full : ℕ

-- One record: the counters and the engine after it, and whether the producer goes on.
unfoldable pub count_answer : Result ℕ → Tally → Bool × Tally
unfolding add
count_answer (ok ticket) t = (Bool.true, record t { published = add t.published 1 })
count_answer (err backpressure) t = (Bool.true, record t { backpressed = add t.backpressed 1 })
count_answer (err shard_full) t = (Bool.true, record t { full = add t.full 1 })
count_answer (err _) t = (Bool.false, t)

-- The loop of producer `p`, with `n` records left from `i` on and a buffer `buf`. `late` says whether
-- the deadline has passed at record `i`, where it is asked.
unfoldable pub produce :
    (late : ℕ → Bool) (fuel wall records p : ℕ) (buf : List ℕ)
    → ℕ
    → ℕ
    → Vaultage
    → Tally
    → Option (Tally × Vaultage)
unfolding key_of
produce late fuel wall records p buf zero i v t = some (t, v)
produce late fuel wall records p buf (suc n) i v t =
    if i % 1024 == 0 && late i
    then some (t, v)
    else elim (publish fuel wall v (key_of records p i) buf 0) [
      | none ↦ none
      | some (res, v') ↦
          let (goes_on, t') = count_answer res t in
          let rest = produce late fuel wall records p buf n (suc i) v' t' in
          if goes_on then rest else some (t', v')
    ]

unfoldable pub max64 : ℕ → ℕ → ℕ
max64 a b = if ltb b a then a else b
