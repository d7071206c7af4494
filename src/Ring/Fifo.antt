-- ===== src/Ring/Fifo.antt =====
-- What the ring promises to a producer and a consumer: a FIFO queue of at most `cap` records.
use vautlage.Prelude.{
  arith, ◌≡◌, ◌≤◌, ◌<◌, ℕ, ◌+◌, ◌%◌, List, [], ◌∷◌, ◌++◌, Option, none, some, Bool, true, false,
  if◌then◌else◌, leb, bit_or, length,
}
use vautlage.Record.{Record, flag_committed}
use vautlage.Ring.{Ring, Header, claim, publish, dequeue, release}

-- The records that wait, oldest first, and how many records have been put so far.
pub record Fifo : Type 0 where
  pub items : List Record
  pub count : ℕ

-- A call of a client: put a record, or take one into a record that keeps its shard.
pub data Op : Type 0 where
  put : Header → List ℕ → Op
  get : Record → Op

pub data Reply : Type 0 where
  accepted : Bool → Reply
  delivered : Option Record → Reply

-- The record that the put after `n` others delivers.
abbrev pub delivery : ℕ → ℕ → ℕ → Header → List ℕ → Record
delivery cap epoch n h payload = record {
  ticket = h.ticket;
  timestamp = h.timestamp;
  key = h.key;
  epoch = epoch;
  slot = n % cap;
  flags = bit_or h.flags flag_committed;
  checksum = h.checksum;
  payload = payload;
  shard = 0;
}

unfoldable pub fifo_put : ℕ → ℕ → Header → List ℕ → Fifo → Reply × Fifo
fifo_put cap epoch h payload q = if leb cap (length q.items) then (accepted false, q) else (
  accepted true,
  record { items = q.items ++ delivery cap epoch q.count h payload ∷ []; count = q.count + 1 },
)

pub fifo_put_full :
    (cap epoch : ℕ) (h : Header) (payload : List ℕ) (q : Fifo)
    → cap ≤ length q.items
    → fifo_put cap epoch h payload q ≡ (accepted false, q)
unfolding fifo_put
fifo_put_full cap epoch h payload q full = ground arith

pub fifo_put_free :
    (cap epoch : ℕ) (h : Header) (payload : List ℕ) (q : Fifo)
    → length q.items < cap
    → fifo_put cap epoch h payload q ≡ (
      accepted true,
      record { items = q.items ++ delivery cap epoch q.count h payload ∷ []; count = q.count + 1 },
    )
unfolding fifo_put
fifo_put_free cap epoch h payload q free = ground arith

unfoldable pub fifo_get : Record → ℕ → List Record → Reply × Fifo
fifo_get rec n [] = (delivered none, record { items = []; count = n })
fifo_get rec n (x ∷ xs) =
    (delivered (some (record x { shard = rec.shard })), record { items = xs; count = n })

unfoldable pub fifo_step : ℕ → ℕ → Op → Fifo → Reply × Fifo
fifo_step cap epoch (put h payload) q = fifo_put cap epoch h payload q
fifo_step cap epoch (get rec) q = fifo_get rec q.count q.items

unfoldable pub fifo_run : ℕ → ℕ → List Op → Fifo → List Reply
fifo_run cap epoch [] q = []
fifo_run cap epoch (o ∷ os) q =
    let (reply, q') = fifo_step cap epoch o q in reply ∷ fifo_run cap epoch os q'

-- A producer calls claim and then publish; a consumer calls dequeue and then release.
unfoldable pub ring_put : Header → List ℕ → Option ℕ × Ring → Option (Reply × Ring)
ring_put h payload (none, r) = some (accepted false, r)
ring_put h payload (some pos, r) = elim (publish 2 r pos h payload) [
  | none ↦ none
  | some (n, r') ↦ some (accepted true, r')
]

unfoldable pub ring_get : Option ℕ × Record × Ring → Option (Reply × Ring)
ring_get (none, rec, r) = some (delivered none, r)
ring_get (some pos, rec, r) = some (delivered (some rec), release r pos)

unfoldable pub ring_step : Op → Ring → Option (Reply × Ring)
ring_step (put h payload) r = elim (claim 1 r) [ none ↦ none | some c ↦ ring_put h payload c ]
ring_step (get rec) r = elim (dequeue 1 r rec) [ none ↦ none | some d ↦ ring_get d ]

-- A step from the calls that it makes.
module _ (r : Ring) (h : Header) (payload : List ℕ) where
  pub ring_step-saturated :
      claim 1 r ≡ some (none, r) → ring_step (put h payload) r ≡ some (accepted false, r)
  unfolding ring_step ring_put
  ring_step-saturated e = ground arith

  pub ring_step-published :
      {s t : Ring} {pos n : ℕ}
      → claim 1 r ≡ some (some pos, s)
      → publish 2 s pos h payload ≡ some (n, t)
      → ring_step (put h payload) r ≡ some (accepted true, t)
  unfolding ring_step ring_put
  ring_step-published e f = ground arith

module _ (r : Ring) (rec : Record) where
  pub ring_step-empty :
      dequeue 1 r rec ≡ some (none, rec, r) → ring_step (get rec) r ≡ some (delivered none, r)
  unfolding ring_step ring_get
  ring_step-empty e = ground arith

  pub ring_step-taken :
      {s : Ring} {pos : ℕ} {out : Record}
      → dequeue 1 r rec ≡ some (some pos, out, s)
      → ring_step (get rec) r ≡ some (delivered (some out), release s pos)
  unfolding ring_step ring_get
  ring_step-taken e = ground arith

unfoldable pub ring_run : List Op → Ring → Option (List Reply)
ring_run [] r = some []
ring_run (o ∷ os) r = elim (ring_step o r) [
  | none ↦ none
  | some (reply, r') ↦ elim (ring_run os r') [ none ↦ none | some rs ↦ some (reply ∷ rs) ]
]
