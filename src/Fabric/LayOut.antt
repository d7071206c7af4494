-- ===== src/Fabric/LayOut.antt =====
-- fabric.go: a round of the loop of New over the shards, and the room that its stores need.
use vautlage.Prelude.{ℕ, ◌+◌, ◌*◌, ◌^◌, ◌≤◌, ◌<◌, ◌≡◌, inl, inr, refl, sym, ◌∙◌, arith, some, mul64}
use vautlage.Errors.{Error, Result, ok, err, Result-cases}
use vautlage.Atomics.{store}
use vautlage.Layout.{cell_stride_for, ring_bytes}
use vautlage.Ring.{Ring, init_ring}
use vautlage.Index.{KeyIndex, init_index, index_bytes, index_bucket_size}
use vautlage.Arena.{Arena, new_arena, close}
use vautlage.Arena
use vautlage.Fabric.{Vaultage, Shard, put_shard}
use vautlage.Fabric.Build.{block_end, lay_out, shard_bytes}

abbrev pub laid : Arena → ℕ → Ring → KeyIndex → Shard
laid a i ring index = record {
  ring = ring;
  index = index;
  arena_base = a.base;
  arena_size = a.size;
  id = i;
  hot = 0;
  ingested = 0;
  consumed = 0;
  rejected = 0;
}

abbrev pub ring_at : Arena → ℕ → Vaultage → Result Ring
ring_at a i v =
    init_ring (v.shards i).ring (Arena.at a 0) v.cfg.cells_per_shard v.payload_cap v.ctl.epoch

abbrev index_at : Arena → ℕ → Vaultage → Result KeyIndex
index_at a i v =
    init_index (v.shards i).index (Arena.at a (ring_bytes v.cfg.cells_per_shard v.payload_cap))
      (mul64 v.cfg.cells_per_shard v.cfg.index_buckets_per_cell)

-- The ends of a shard's cells and of its buckets, from the base of its arena.
abbrev pub ring_end : Vaultage → ℕ
ring_end v = v.cfg.cells_per_shard * cell_stride_for v.payload_cap

abbrev pub index_end : Vaultage → ℕ
index_end v =
    ring_bytes v.cfg.cells_per_shard v.payload_cap
    + mul64 v.cfg.cells_per_shard v.cfg.index_buckets_per_cell * index_bucket_size

-- What is stored to lies in the two arenas.
pub record Room (ctl a : Arena) (i : ℕ) (v : Vaultage) : Type 0 where
  pub block : block_end i ≤ ctl.size
  pub ring : ring_end v ≤ a.size
  pub index : index_end v ≤ a.size

module _ (ctl a : Arena) (i : ℕ) (v : Vaultage) where
  lay_out_ok :
      {ring : Ring} {index : KeyIndex}
      → Room ctl a i v
      → ring_at a i v ≡ ok ring
      → index_at a i v ≡ ok index
      → lay_out ctl a i v ≡ some (ok (put_shard v i (laid a i ring index)))
  unfolding lay_out store
  lay_out_ok room e f = ground (arith, room.block, room.ring, room.index)

  lay_out_ring_err :
      {x : Error} → Room ctl a i v → ring_at a i v ≡ err x → lay_out ctl a i v ≡ some (err x)
  unfolding lay_out store
  lay_out_ring_err room e = ground (arith, room.block)

  lay_out_index_err :
      {ring : Ring} {x : Error}
      → Room ctl a i v
      → ring_at a i v ≡ ok ring
      → index_at a i v ≡ err x
      → lay_out ctl a i v ≡ some (err x)
  unfolding lay_out store
  lay_out_index_err room e f = ground (arith, room.block, room.ring)

  -- With room for its stores, a round of the loop does not fault.
  pub lay_out_ends : Room ctl a i v → (res : Result Vaultage) × (lay_out ctl a i v ≡ some res)
  lay_out_ends room = elim (Result-cases (ring_at a i v)) [
    | inr (x, failed) ↦ (_, lay_out_ring_err room failed)
    | inl (ring, done) ↦ elim (Result-cases (index_at a i v)) [
      | inr (x, failed) ↦ (_, lay_out_index_err room done failed)
      | inl (index, indexed) ↦ (_, lay_out_ok room done indexed)
    ]
  ]

  lay_out-Room : {v' : Vaultage} → lay_out ctl a i v ≡ some (ok v') → Room ctl a i v
  unfolding lay_out
  lay_out-Room {v'} e = elim (Result-cases (ring_at a i v)) [
    | inr (x, failed) ↦ absurd (ground arith)
    | inl (ring, done) ↦ elim (Result-cases (index_at a i v)) [
      | inr (x, failed) ↦ absurd (ground arith)
      | inl (index, indexed) ↦ record {
        block = ground arith;
        ring = ground arith;
        index = ground arith;
      }
    ]
  ]

  -- What a round of the loop writes: one shard's block, with its ring and index in its arena.
  pub lay_out_lem :
      {v' : Vaultage}
      → lay_out ctl a i v ≡ some (ok v')
      → (ring : Ring) × (index : KeyIndex) × (ring_at a i v ≡ ok ring)
        × (v' ≡ put_shard v i (laid a i ring index))
        × Room ctl a i v
  lay_out_lem {v'} e =
      let room = lay_out-Room e in
      elim (Result-cases (ring_at a i v)) [
        | inr (x, failed) ↦
            let clash = sym e ∙ lay_out_ring_err room failed in absurd (ground arith)
        | inl (ring, done) ↦ elim (Result-cases (index_at a i v)) [
          | inr (x, failed) ↦
              let clash = sym e ∙ lay_out_index_err room done failed in absurd (ground arith)
          | inl (index, indexed) ↦
              let same : some (ok v') ≡ some (ok (put_shard v i (laid a i ring index))) =
                sym e ∙ lay_out_ok room done indexed in
              (ring, index, done, ground arith, room)
        ]
      ]

-- The bytes that a shard's cells and buckets take, without a wrap.
abbrev pub span : Vaultage → ℕ
span v = ring_end v + v.cfg.cells_per_shard * v.cfg.index_buckets_per_cell * index_bucket_size

pub shard_bytes-span : (v : Vaultage) → span v < 2 ^ 64 → shard_bytes v ≡ span v
unfolding shard_bytes ring_bytes index_bytes
shard_bytes-span v small = omega arith

pub span-Room :
    (ctl a : Arena) (i : ℕ) (v : Vaultage)
    → block_end i ≤ ctl.size
    → span v < 2 ^ 64
    → span v ≤ a.size
    → Room ctl a i v
unfolding ring_bytes
span-Room ctl a i v block small room = record {
  block = block;
  ring = omega arith;
  index = omega arith;
}

pub span-put_shard : (v : Vaultage) (i : ℕ) (sh : Shard) → span (put_shard v i sh) ≡ span v
unfolding put_shard
span-put_shard v i sh = refl
