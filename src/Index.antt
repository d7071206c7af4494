-- ===== src/Index.antt =====
-- index.go: the open-addressed key index of one shard.
-- The table is a function from a bucket's index to its contents. As in Ring, each function is the
-- code as one thread runs it undisturbed; the retry loop of updateMonotonic takes fuel.
pub mod Find
pub mod Upsert
pub mod Lookup
pub mod Laws
pub mod Writers
use vautlage.Prelude.{
  ℕ, zero, suc, ◌+◌, ◌-◌, ◌*◌, ◌/◌, ◌^◌, ◌<◌, Option, none, some, Bool, true, false, not, ◌&&◌,
  ◌||◌, if◌then◌else◌, ◌==◌, ltb, leb, bit_and, bit_xor, add64, mul64, ◌>>>◌, update,
}
use vautlage.Errors.{Error, config, index_full, not_found, Result, ok, err}
use vautlage.Atomics.{load, store, add, cas}
use vautlage.Layout.{is_pow2, is_aligned, cache_line_size}
use vautlage.Record.{Record, flag_committed}
use vautlage.Ring.{Ring, Cell, payload_slice}

abbrev pub index_bucket_size : ℕ
index_bucket_size = 32

abbrev pub max_probe : ℕ
max_probe = 16

pub record Bucket : Type 0 where
  pub key : ℕ
  pub ticket : ℕ
  pub slot : ℕ
  pub pad : ℕ

pub record KeyIndex : Type 0 where
  pub table : ℕ → Bucket
  pub base : ℕ
  pub buckets : ℕ
  pub mask : ℕ
  pub live : ℕ
  pub collides : ℕ
  pub overflows : ℕ
  pub reclaims : ℕ

unfoldable pub index_bytes : ℕ → ℕ
index_bytes buckets = mul64 buckets index_bucket_size

unfoldable pub bucket_addr : KeyIndex → ℕ → ℕ
bucket_addr x i = add64 x.base (mul64 i index_bucket_size)

abbrev pub empty_bucket : Bucket
empty_bucket = record { key = 0; ticket = 0; slot = 0; pad = 0 }

-- The loop of initIndex: `n` rounds are left, from bucket `i` on.
unfoldable pub clear : ℕ → ℕ → (ℕ → Bucket) → ℕ → Bucket
clear zero i table = table
clear (suc n) i table = clear n (suc i) (update table i empty_bucket)

unfoldable pub init_index : KeyIndex → ℕ → ℕ → Result KeyIndex
unfolding clear store is_pow2 is_aligned
init_index x base buckets =
    if buckets == 0 || not (is_pow2 buckets)
    then err config
    else if not (is_aligned base cache_line_size)
    then err config
    else ok (record {
      table = clear buckets 0 x.table;
      base = base;
      buckets = buckets;
      mask = buckets - 1;
      live = store x.live 0;
      collides = store x.collides 0;
      overflows = store x.overflows 0;
      reclaims = store x.reclaims 0;
    })

unfoldable pub hash_key : ℕ → ℕ
hash_key k =
    let k₁ = bit_xor k (k >>> 30) in
    let k₂ = mul64 k₁ 0xbf58476d1ce4e5b9 in
    let k₃ = bit_xor k₂ (k₂ >>> 27) in
    let k₄ = mul64 k₃ 0x94d049bb133111eb in bit_xor k₄ (k₄ >>> 31)

-- The bucket that probe number `probe` of the sequence from `h` visits.
abbrev pub at : KeyIndex → ℕ → ℕ → ℕ
at x h probe = bit_and (add64 h probe) x.mask

unfoldable pub is_dead : Bucket → ℕ → Ring → Bool
unfolding load
is_dead b entry_key r =
    let slot = load b.slot in
    if leb r.capacity slot then true else not (load (r.cells slot).key == entry_key)

unfoldable pub update_monotonic : ℕ → Bucket → ℕ → ℕ → Option Bucket
unfolding load store cas
update_monotonic zero b ticket slot = none
update_monotonic (suc fuel) b ticket slot =
    let cur = load b.ticket in
    let (won, moved) = cas b.ticket cur ticket in
    let retry = update_monotonic fuel (record b { ticket = moved }) ticket slot in
    if leb ticket cur
    then some b
    else if won
    then some (record b { ticket = moved; slot = store b.slot slot })
    else retry

-- `if probe > 0 { x.collides.add(probe) }`
unfoldable pub count_collisions : ℕ → ℕ → ℕ
unfolding add
count_collisions collides probe = if ltb 0 probe then add collides probe else collides

-- How a pass over the probe sequence ends: by `return nil` with the index so far, at the end of the
-- loop, by `break` with retry set, or out of fuel.
pub data Pass : Type 0 where
  stored : KeyIndex → Pass
  exhausted retry out_of_fuel : Pass

pub record Entry : Type 0 where
  pub key : ℕ
  pub ticket : ℕ
  pub slot : ℕ

-- A bucket that was claimed: slot before ticket.
unfoldable pub fill_bucket : Bucket → Entry → Bucket
unfolding store
fill_bucket b e = record b {
  key = e.key;
  slot = store b.slot e.slot;
  ticket = store b.ticket e.ticket;
}

-- Pass 1 of upsert, with `n` probes left.
unfoldable pub find_bucket : ℕ → KeyIndex → ℕ → Entry → ℕ → ℕ → Pass
unfolding load add cas
find_bucket fuel x h e zero probe = exhausted
find_bucket fuel x h e (suc n) probe =
    let i = at x h probe in
    let b = x.table i in
    let cur = load b.key in
    let (won, left) = cas b.key 0 e.key in
    let reread = if cur == 0 then load left else cur in
    let next = find_bucket fuel x h e n (suc probe) in
    if (cur == 0) && won
    then stored (record x {
      table = update x.table i (fill_bucket b e);
      live = add x.live 1;
      collides = count_collisions x.collides probe;
    })
    else if reread == e.key
    then elim (update_monotonic fuel b e.ticket e.slot) [
      | none ↦ out_of_fuel
      | some b' ↦
          stored
            (record x { table = update x.table i b'; collides = count_collisions x.collides probe })
    ]
    else next

-- Pass 2 of upsert, with `n` probes left.
unfoldable pub reclaim_bucket : KeyIndex → ℕ → Entry → Ring → ℕ → ℕ → Pass
unfolding load add cas
reclaim_bucket x h e r zero probe = exhausted
reclaim_bucket x h e r (suc n) probe =
    let i = at x h probe in
    let b = x.table i in
    let cur = load b.key in
    let (won, left) = cas b.key cur e.key in
    let next = reclaim_bucket x h e r n (suc probe) in
    if (cur == 0) || (cur == e.key)
    then retry
    else if not (is_dead b cur r)
    then next
    else if won
    then stored
        (record x { table = update x.table i (fill_bucket b e); reclaims = add x.reclaims 1 })
    else next

-- The loop over attempts, with `n` of them left; it ends in the overflow. The error is nil at none.
unfoldable pub attempt : ℕ → ℕ → KeyIndex → ℕ → Entry → Ring → Option (Option Error × KeyIndex)
unfolding add
attempt zero fuel x h e r = some (some index_full, record x { overflows = add x.overflows 1 })
attempt (suc n) fuel x h e r =
    let again = attempt n fuel x h e r in
    elim (find_bucket fuel x h e max_probe 0) [
      | stored x' ↦ some (none, x')
      | exhausted ↦ elim (reclaim_bucket x h e r max_probe 0) [
        | stored x' ↦ some (none, x')
        | exhausted ↦ some (some index_full, record x { overflows = add x.overflows 1 })
        | retry ↦ again
        | out_of_fuel ↦ none
      ]
      | retry ↦ none
      | out_of_fuel ↦ none
    ]

unfoldable pub upsert : ℕ → KeyIndex → Entry → Ring → Option (Option Error × KeyIndex)
upsert fuel x e r =
    if e.key == 0
    then some (some config, x)
    else attempt 2 fuel x (bit_and (hash_key e.key) x.mask) e r

-- What lookup does at a bucket that holds the key.
unfoldable pub resolve : Bucket → ℕ → Ring → Record → Option Error × Record
unfolding load
resolve b key r rec =
    let ticket = load b.ticket in
    let slot = load b.slot in
    let c = r.cells slot in
    let n = load c.len in
    let filled = record rec {
      ticket = c.ticket;
      timestamp = c.timestamp;
      key = key;
      epoch = c.epoch;
      checksum = c.checksum;
      flags = c.flags;
      slot = slot;
      payload = payload_slice c n;
    } in
    if ticket == 0
    then (some not_found, rec)
    else if leb r.capacity slot
    then (some not_found, rec)
    else if not (load c.key == key)
    then (some not_found, rec)
    else if bit_and c.flags flag_committed == 0
    then (some not_found, rec)
    else if ltb r.payload_cap n
    then (some not_found, rec)
    else if not (load c.key == key)
    then (some not_found, filled)
    else (none, filled)

-- The probe loop of lookup, with `n` probes left.
unfoldable pub probe_from : KeyIndex → ℕ → ℕ → Ring → Record → ℕ → ℕ → Option Error × Record
unfolding load
probe_from x h key r rec zero probe = (some not_found, rec)
probe_from x h key r rec (suc n) probe =
    let b = x.table (at x h probe) in
    let cur = load b.key in
    let next = probe_from x h key r rec n (suc probe) in
    if cur == 0
    then (some not_found, rec)
    else if not (cur == key)
    then next
    else resolve b key r rec

unfoldable pub lookup : KeyIndex → ℕ → Ring → Record → Option Error × Record
lookup x key r rec =
    if key == 0
    then (some config, rec)
    else probe_from x (bit_and (hash_key key) x.mask) key r rec max_probe 0

pub record IndexStats : Type 0 where
  pub buckets : ℕ
  pub live : ℕ
  pub load_pct : ℕ
  pub probe_steps : ℕ
  pub overflows : ℕ
  pub reclaims : ℕ

unfoldable pub stats : KeyIndex → IndexStats
unfolding load
stats x =
    let live = load x.live in
    record {
      buckets = x.buckets;
      live = live;
      load_pct = mul64 live 100 / x.buckets;
      probe_steps = load x.collides;
      overflows = load x.overflows;
      reclaims = load x.reclaims;
    }
