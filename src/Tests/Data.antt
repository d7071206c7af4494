-- ===== src/Tests/Data.antt =====
-- A ring of two cells with one record in it, an index of two buckets, and the engine around them.
use native.Mathlib.Decide.{ℕ_discrete}
use vautlage.Prelude.{
  bit_and, ℕ, ◌+◌, ◌<◌, ◌≤◌, ◌≡◌, inl, inr, refl, arith, [], ◌∷◌, List, true, false, if◌then◌else◌,
  ◌==◌,
}
use vautlage.Gate.{Gate}
use vautlage.Config.{Config}
use vautlage.Ring.{Ring, Cell, Header}
use vautlage.Ring.Valid.{IsValid, SlotOk}
use vautlage.Ring.Models.{Models}
use vautlage.Ring.Entries.{entries}
use vautlage.Ring.Fifo.{Fifo}
use vautlage.Index.{hash_key, KeyIndex, empty_bucket}
use vautlage.Fabric.{Vaultage}

abbrev pub header : Header
header = record { ticket = 1; key = 9; timestamp = 5; flags = 0; checksum = 0 }

abbrev pub bytes : List ℕ
bytes = 10 ∷ 20 ∷ []

-- A cell with this sequence word, ticket and key that has been committed.
abbrev pub committed_cell : ℕ → ℕ → ℕ → Cell
committed_cell seq ticket key = record {
  seq = seq;
  ticket = ticket;
  timestamp = 5;
  key = key;
  len = 2;
  epoch = 7;
  checksum = 0;
  flags = 1;
  reserved = 0;
  payload = bytes;
}

-- Cell 0 holds the record of position 0, cell 1 is free.
abbrev pub two : Ring
two = record {
  cells = λ i. if i == 0 then committed_cell 1 1 9 else committed_cell 1 0 0;
  base = 4096;
  stride = 128;
  capacity = 2;
  mask = 1;
  payload_cap = 64;
  epoch = 7;
  tail = 1;
  commit = 1;
  head = 0;
}

two-SlotOk : (p : ℕ) → 1 ≤ p → p < 1 + 2 → SlotOk two p
two-SlotOk p lo hi = elim (ℕ_discrete p 1) [
  | yes e ↦ rw e (inl (refl, omega arith))
  | no ne ↦ let e : p ≡ 2 = omega arith in rw e (inr (inl (refl, omega arith)))
]

pub two-IsValid : IsValid two
two-IsValid = record {
  shift = 1;
  size = refl;
  many = omega arith;
  bound = omega arith;
  masked = refl;
  head_le = omega arith;
  commit_le = omega arith;
  room = omega arith;
  fresh = omega arith;
  slots = two-SlotOk;
}

abbrev pub two_queue : Fifo
two_queue = record { items = entries two 0 1; count = 1 }

pub two-Models : Models two two_queue
two-Models = record {
  valid = two-IsValid;
  settled = refl;
  returned = λ p lo hi. let e : p ≡ 1 = omega arith in rw e refl;
  items = refl;
  count = refl;
}

-- Two buckets: bucket 1, where the probe sequence of key 9 starts, holds it; bucket 0 is empty.
abbrev pub pair : KeyIndex
pair = record {
  table = λ i. if i == 1 then record { key = 9; ticket = 1; slot = 0; pad = 0 } else empty_bucket;
  base = 8192;
  buckets = 2;
  mask = 1;
  live = 1;
  collides = 0;
  overflows = 0;
  reclaims = 0;
}

abbrev pub open_gate : Gate
open_gate = record { state = 0; closes = 0; opens = 0; rejects = 0; high_pct = 90; low_pct = 70 }

abbrev pub settings : Config
settings = record {
  shards = 1;
  cells_per_shard = 2;
  payload_capacity = 64;
  high_water_pct = 90;
  low_water_pct = 70;
  index_buckets_per_cell = 1;
  require_huge_pages = false;
  require_pinned = false;
  checksums = true;
  pin_worker_threads = false;
  coarse_clock = 0;
  consumer = false;
}

abbrev pub engine : Vaultage
engine = record {
  cfg = settings;
  ctl = record { ticket = 1; running = 1; epoch = 7; dropped = 0; saturated = 0; clock = 3 };
  shards = λ i. record {
    ring = two;
    index = pair;
    arena_base = 4096;
    arena_size = 2097152;
    id = i;
    hot = 0;
    ingested = 1;
    consumed = 0;
    rejected = 0;
  };
  shard_n = 1;
  shard_msk = 0;
  valve = open_gate;
  payload_cap = 64;
  cell_stride = 128;
  coarse_clock = false;
}

home9 : bit_and (hash_key 9) 1 ≡ 1
unfolding hash_key
home9 = refl
