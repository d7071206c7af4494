-- ===== src/Ring/Threads.antt =====
-- ring.go under any number of threads: claim, publish, advanceCommit, dequeue and release, one
-- access to shared memory at a time. The accesses are sequentially consistent, as in sync/atomic.
pub mod System
mod Stores
mod Slots
pub mod Defs
mod Frame
mod Changes
mod Writes
mod Next
mod Wins
mod Cells
mod Moves
pub mod Reached
pub mod Facts
pub mod Safety
pub mod Quiescence
pub mod Alone
mod Announced
pub mod Calls
use vautlage.Prelude.{
  ℕ, zero, suc, ◌+◌, ◌^◌, ◌≤◌, ◌<◌, ◌≡◌, ◌≢◌, List, length, Bool, true, false, bit_or, add64, sub64,
  if◌then◌else◌, ◌==◌, update,
}
use vautlage.Atomics.{load, store, cas}
use vautlage.Record.{Record, flag_committed}
use vautlage.Ring.{
  Ring, Cell, Header, index, cell, write_cell, copy_into_payload, payload_slice, release,
}

-- The `k`-th store of publish into its cell. The number that copyIntoPayload returns is kept in a
-- local variable until the store of the length.
unfoldable pub put_field : ℕ → ℕ → Header → List ℕ → Cell → Cell
unfolding copy_into_payload
put_field k epoch h payload c =
    if k == 0
    then (copy_into_payload c payload).1
    else if k == 1
    then record c { ticket = h.ticket }
    else if k == 2
    then record c { timestamp = h.timestamp }
    else if k == 3
    then record c { key = h.key }
    else if k == 4
    then record c { len = (copy_into_payload c payload).0 }
    else if k == 5
    then record c { epoch = epoch }
    else if k == 6
    then record c { checksum = h.checksum }
    else if k == 7
    then record c { flags = bit_or h.flags flag_committed }
    else c

-- What dequeue has read so far: the length, and the caller's record.
pub record Seen : Type 0 where
  pub len : ℕ
  pub rec : Record

-- The `k`-th load of dequeue from the cell `c` at `slot`. The last two fields need no load: Slot is
-- computed, and Payload is a slice of the cell, whose bytes are those that the consumer finds there.
unfoldable pub get_field : ℕ → ℕ → Cell → Seen → Seen
unfolding load
get_field k slot c s =
    if k == 0
    then record s { len = load c.len }
    else if k == 1
    then record s { rec = record s.rec { ticket = load c.ticket } }
    else if k == 2
    then record s { rec = record s.rec { timestamp = load c.timestamp } }
    else if k == 3
    then record s { rec = record s.rec { key = load c.key } }
    else if k == 4
    then record s { rec = record s.rec { epoch = load c.epoch } }
    else if k == 5
    then record s { rec = record s.rec { checksum = load c.checksum } }
    else if k == 6
    then record s { rec = record s.rec { flags = load c.flags } }
    else if k == 7
    then record s { rec = record s.rec { slot = slot; payload = payload_slice c s.len } }
    else s

-- Where a thread stands, with the local variables that are live there.
pub data Pc : Type 0 where
  idle : Pc
  claiming : Pc  -- head of the loop in `claim`
  claim_seq : (pos : ℕ) → Pc
  claim_cas : (pos : ℕ) → Pc
  claim_won : (pos : ℕ) → Pc  -- `claim` has returned
  publishing : (pos : ℕ) → Header → List ℕ → (k : ℕ) → Pc  -- `k` stores are done
  advancing : Pc  -- head of the loop in `advanceCommit`
  advance_tail : (c : ℕ) → Pc
  advance_seq : (c : ℕ) → Pc
  advance_cas : (c : ℕ) → Pc
  dequeuing : Record → Pc  -- head of the loop in `dequeue`
  dequeue_commit : Record → (pos : ℕ) → Pc
  dequeue_cas : Record → (pos : ℕ) → Pc
  dequeue_seq : Record → (pos : ℕ) → Pc
  reading : (pos : ℕ) → Seen → (k : ℕ) → Pc  -- `k` loads are done
  holding : (pos : ℕ) → Record → Pc  -- `dequeue` has returned
  broken : (pos : ℕ) → Pc  -- before the `release` of the branch that is called unreachable

-- The ring, and for the statements only: what was published at each position.
pub record Mem : Type 0 where
  pub ring : Ring
  pub log : ℕ → Header × List ℕ

-- The compare-and-swap on each cursor: whether it won, and the ring after it.
unfoldable pub cas_tail : Ring → ℕ → Bool × Ring
unfolding cas
cas_tail r pos = let (won, tail) = cas r.tail pos (add64 pos 1) in (won, record r { tail = tail })

unfoldable pub cas_commit : Ring → ℕ → Bool × Ring
unfolding cas
cas_commit r c =
    let (won, commit) = cas r.commit c (add64 c 1) in (won, record r { commit = commit })

unfoldable pub cas_head : Ring → ℕ → Bool × Ring
unfolding cas
cas_head r pos = let (won, head) = cas r.head pos (add64 pos 1) in (won, record r { head = head })

abbrev pub store_seq : Ring → ℕ → Ring
store_seq r pos =
    write_cell r pos (record (cell r pos) { seq = store (cell r pos).seq (add64 pos 1) })

-- `int64(seq) - int64(pos)` of `claim`, as its 64-bit pattern.
abbrev pub dif : Ring → ℕ → ℕ
dif r pos = sub64 (load (cell r pos).seq) pos

-- One access of one thread; from `idle` it may begin a claim or a dequeue.
pub data Move (m : Mem) : Pc → Mem → Pc → Type 0 where
  call_claim : Move m idle m claiming
  load_tail : Move m claiming m (claim_seq (load m.ring.tail))
  is_free : {pos : ℕ} → dif m.ring pos ≡ 0 → Move m (claim_seq pos) m (claim_cas pos)
  is_full : {pos : ℕ} → 2 ^ 63 ≤ dif m.ring pos → Move m (claim_seq pos) m idle
  is_stale :
      {pos : ℕ} → dif m.ring pos ≢ 0 → dif m.ring pos < 2 ^ 63 → Move m (claim_seq pos) m claiming
  win_tail :
      {pos : ℕ}
      → (cas_tail m.ring pos).0 ≡ true
      → Move m (claim_cas pos) (record m { ring = (cas_tail m.ring pos).1 }) (claim_won pos)
  lose_tail : {pos : ℕ} → (cas_tail m.ring pos).0 ≡ false → Move m (claim_cas pos) m claiming
  call_publish :
      {pos : ℕ} (h : Header) (payload : List ℕ)
      → Move m (claim_won pos) m (publishing pos h payload 0)
  store_field :
      {pos k : ℕ} {h : Header} {payload : List ℕ}
      → k < 8
      → Move m
          (publishing pos h payload k)
          (record m {
            ring = write_cell m.ring pos (put_field k m.ring.epoch h payload (cell m.ring pos));
          })
          (publishing pos h payload (suc k))
  announce :
      {pos : ℕ} {h : Header} {payload : List ℕ}
      → Move m
          (publishing pos h payload 8)
          (record { ring = store_seq m.ring pos; log = update m.log pos (h, payload) })
          advancing
  load_commit : Move m advancing m (advance_tail (load m.ring.commit))
  none_claimed : {c : ℕ} → c ≡ load m.ring.tail → Move m (advance_tail c) m idle
  some_claimed : {c : ℕ} → c ≢ load m.ring.tail → Move m (advance_tail c) m (advance_seq c)
  unpublished : {c : ℕ} → load (cell m.ring c).seq ≢ add64 c 1 → Move m (advance_seq c) m idle
  published :
      {c : ℕ} → load (cell m.ring c).seq ≡ add64 c 1 → Move m (advance_seq c) m (advance_cas c)
  win_commit :
      {c : ℕ}
      → (cas_commit m.ring c).0 ≡ true
      → Move m (advance_cas c) (record m { ring = (cas_commit m.ring c).1 }) advancing
  lose_commit : {c : ℕ} → (cas_commit m.ring c).0 ≡ false → Move m (advance_cas c) m advancing
  call_dequeue : (rec : Record) → Move m idle m (dequeuing rec)
  load_head : {rec : Record} → Move m (dequeuing rec) m (dequeue_commit rec (load m.ring.head))
  is_empty :
      {rec : Record} {pos : ℕ} → load m.ring.commit ≤ pos → Move m (dequeue_commit rec pos) m idle
  is_committed :
      {rec : Record} {pos : ℕ}
      → pos < load m.ring.commit
      → Move m (dequeue_commit rec pos) m (dequeue_cas rec pos)
  win_head :
      {rec : Record} {pos : ℕ}
      → (cas_head m.ring pos).0 ≡ true
      → Move m
          (dequeue_cas rec pos)
          (record m { ring = (cas_head m.ring pos).1 })
          (dequeue_seq rec pos)
  lose_head :
      {rec : Record} {pos : ℕ}
      → (cas_head m.ring pos).0 ≡ false
      → Move m (dequeue_cas rec pos) m (dequeuing rec)
  is_intact :
      {rec : Record} {pos : ℕ}
      → load (cell m.ring pos).seq ≡ add64 pos 1
      → Move m (dequeue_seq rec pos) m (reading pos (record { len = 0; rec = rec }) 0)
  is_broken :
      {rec : Record} {pos : ℕ}
      → load (cell m.ring pos).seq ≢ add64 pos 1
      → Move m (dequeue_seq rec pos) m (broken pos)
  load_field :
      {pos k : ℕ} {s : Seen}
      → k < 8
      → Move m
          (reading pos s k)
          m
          (reading pos (get_field k (index m.ring pos) (cell m.ring pos) s) (suc k))
  return_record : {pos : ℕ} {s : Seen} → Move m (reading pos s 8) m (holding pos s.rec)
  call_release :
      {pos : ℕ} {rec : Record}
      → Move m (holding pos rec) (record m { ring = release m.ring pos }) idle
  release_broken : {pos : ℕ} → Move m (broken pos) (record m { ring = release m.ring pos }) idle
