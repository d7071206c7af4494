-- ===== src/Ring/Models.antt =====
-- A ring whose claims are all published and whose deliveries are all released, as the queue of the
-- records between its head and its tail.
use vautlage.Prelude.{ℕ, ◌+◌, ◌-◌, ◌≤◌, ◌<◌, ◌≡◌, refl}
use vautlage.Record.{Record}
use vautlage.Ring.{Ring, cell, read_cell}
use vautlage.Ring.Valid.{IsValid, seq_at}
use vautlage.Ring.Claim.{claimed}
use vautlage.Ring.Publish.{at_commit}
use vautlage.Ring.Dequeue.{taken}
use vautlage.Ring.Entries.{entry, entries}
use vautlage.Ring.Fifo.{Fifo}

pub record Models (r : Ring) (q : Fifo) : Type 0 where
  pub valid : IsValid r
  pub settled : r.commit ≡ r.tail
  pub returned : (p : ℕ) → r.tail ≤ p → p < r.head + r.capacity → seq_at r p ≡ p
  pub items : q.items ≡ entries r r.head (r.tail - r.head)
  pub count : q.count ≡ r.tail

-- What a consumer reads depends on the cells alone.
pub entry-at_commit : (r : Ring) (n p : ℕ) → entry (at_commit r n) p ≡ entry r p
unfolding read_cell cell
entry-at_commit r n p = refl

pub entry-claimed : (r : Ring) (p : ℕ) → entry (claimed r) p ≡ entry r p
unfolding read_cell cell
entry-claimed r p = refl

pub entry-taken : (r : Ring) (p : ℕ) → entry (taken r) p ≡ entry r p
unfolding read_cell cell
entry-taken r p = refl

pub read_cell-entry :
    (r : Ring) (p : ℕ) (rec : Record) → read_cell r p rec ≡ record (entry r p) { shard = rec.shard }
unfolding read_cell cell
read_cell-entry r p rec = refl
