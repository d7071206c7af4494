-- ===== src/Ring/Limits.antt =====
-- Where the protocol of ring.go ends: a ring of one cell, and cursors that wrap.
use vautlage.Prelude.{ℕ, suc, ◌+◌, ◌^◌, ◌<◌, ◌≤◌, ◌≡◌, refl, List, none, some, true, arith, bit_and}
use vautlage.Prelude.Bits.{bit_and_mask}
use vautlage.Record.{Record}
use vautlage.Ring.{
  Ring, Header, claim, fill, dequeue, release, write_cell, advance_commit, pending, committed,
}
use vautlage.Ring.Claim.{claimed}
use vautlage.Ring.Publish.{stored, at_commit, publish_run, fill-seq}
use vautlage.Ring.Dequeue.{taken}
use vautlage.Ring.Fifo.{put, accepted, ring_step, ring_step-published}

-- One cell, and a committed record in it that nobody has consumed.
pub record IsSingle (r : Ring) : Type 0 where
  pub one : r.capacity ≡ 1
  pub masked : r.mask ≡ 0
  pub waiting : (r.commit ≡ r.head + 1) × (r.tail ≡ r.head + 1)
  pub turn : (r.cells 0).seq ≡ r.head + 1
  pub fresh : r.head + 4 < 2 ^ 64

index_single : {r : Ring} → IsSingle r → (p : ℕ) → bit_and p r.mask ≡ 0
index_single v p = ground (arith, v.masked, bit_and_mask 0 p)

module _ {r : Ring} (v : IsSingle r) (h : Header) (payload : List ℕ) where
  -- The ring after the record of the second put is written, and after the commit index moved.
  abbrev overwritten : Ring
  overwritten = stored (claimed r) r.tail h payload

  abbrev both_put : Ring
  both_put = at_commit overwritten (r.head + 2)

  claim_single : claim 1 r ≡ some (some r.tail, claimed r)
  unfolding claim
  claim_single = ground (arith, index_single v r.tail, v.waiting, v.turn, v.fresh)

  turn_single : (overwritten.cells 0).seq ≡ r.head + 2
  unfolding write_cell
  turn_single =
      ground
        (arith, index_single v r.tail, fill-seq (claimed r) r.tail h payload, v.waiting, v.fresh)

  advance_single : advance_commit 2 overwritten ≡ some both_put
  unfolding advance_commit write_cell
  advance_single = ground (
    arith,
    index_single v (r.head + 1),
    index_single v r.tail,
    fill-seq (claimed r) r.tail h payload,
    v.waiting,
    v.fresh,
  )

  dequeue_single :
      (rec : Record) → dequeue 1 both_put rec ≡ some (none, rec, release (taken both_put) r.head)
  unfolding dequeue write_cell
  dequeue_single rec = ground (
    arith,
    index_single v r.head,
    index_single v r.tail,
    fill-seq (claimed r) r.tail h payload,
    v.waiting,
    v.fresh,
  )

-- With one cell, "published" and "free for the next lap" are the same sequence number: a producer
-- is given the cell although its record still waits, and the put is accepted. After it two records
-- count as committed, and dequeue takes the branch that the code calls unreachable: it reports an
-- empty ring.
pub single_cell_loses :
    {r : Ring}
    → IsSingle r
    → (h : Header) (payload : List ℕ) (rec : Record)
    → (s : Ring) × (ring_step (put h payload) r ≡ some (accepted true, s))
      × (committed s ≡ 2)
      × ((t : Ring) × (dequeue 1 s rec ≡ some (none, rec, t)))
unfolding committed write_cell
single_cell_loses {r} v h payload rec = (
  both_put v h payload,
  ring_step-published r h payload (claim_single v h payload)
      (publish_run 2 (claimed r) r.tail h payload (advance_single v h payload)),
  ground arith,
  (_, dequeue_single v h payload rec),
)

-- Tail and commit have come to the last position before the wrap, some record has been consumed
-- before, and the tail's cell is free.
pub record IsLast (r : Ring) : Type 0 where
  pub last : (r.commit + 1 ≡ 2 ^ 64) × (r.tail + 1 ≡ 2 ^ 64)
  pub begun : 0 < r.head
  pub behind : r.head ≤ r.commit
  pub free : (r.cells (bit_and r.tail r.mask)).seq ≡ r.tail

module _ {r : Ring} (v : IsLast r) (h : Header) (payload : List ℕ) where
  abbrev round_claimed : Ring
  round_claimed = record r { tail = 0 }

  abbrev round_stored : Ring
  round_stored = stored round_claimed r.tail h payload

  -- The ring once the last position has been published: tail and commit are past the wrap.
  abbrev round_put : Ring
  round_put = at_commit round_stored 0

  fill-seq_last : (fill round_claimed r.tail h payload).1.seq ≡ 0
  unfolding fill
  fill-seq_last = omega (arith, v.last)

  claim_last : claim 1 r ≡ some (some r.tail, round_claimed)
  unfolding claim
  claim_last = ground (arith, v.last, v.free)

  advance_last : advance_commit 2 round_stored ≡ some round_put
  unfolding advance_commit write_cell
  advance_last =
      let same : r.commit ≡ r.tail = omega (arith, v.last) in
      ground (arith, v.last, same, fill-seq_last)

  dequeue_last :
      (fuel : ℕ) (rec : Record) → dequeue (suc fuel) round_put rec ≡ some (none, rec, round_put)
  unfolding dequeue write_cell
  dequeue_last fuel rec = ground (arith, v.begun)

-- The cursors wrap although dequeue, pending and committed compare them as plain numbers: with tail
-- and commit at position 2 ^ 64 - 1, where as many records wait as commit is ahead of the head, one
-- more put is accepted and carries both cursors round to 0. After it dequeue reports an empty ring,
-- and pending and committed answer 0, although nothing has been consumed.
pub wrapped_stalls :
    {r : Ring}
    → IsLast r
    → (h : Header) (payload : List ℕ) (fuel : ℕ) (rec : Record)
    → (committed r + r.head + 1 ≡ 2 ^ 64)
      × ((s : Ring) × (ring_step (put h payload) r ≡ some (accepted true, s))
          × (s.head ≡ r.head)
          × (dequeue (suc fuel) s rec ≡ some (none, rec, s))
          × (pending s ≡ 0)
          × (committed s ≡ 0))
unfolding pending committed write_cell
wrapped_stalls {r} v h payload fuel rec = (
  ground (arith, v.last, v.behind),
  (
    round_put v h payload,
    ring_step-published r h payload (claim_last v h payload)
        (publish_run 2 (round_claimed v h payload) r.tail h payload (advance_last v h payload)),
    refl,
    dequeue_last v h payload fuel rec,
    ground (arith, v.begun),
    ground (arith, v.begun),
  ),
)
