-- ===== src/Ring/Entries.antt =====
-- The records that a valid ring holds, from the head to the tail.
use native.Mathlib.Nat.{add-zero}
use native.Mathlib.Decide.{ℕ_discrete}
use vautlage.Prelude.{
  ℕ, zero, suc, ◌+◌, ◌%◌, ◌≤◌, ◌<◌, ◌≡◌, ◌≢◌, List, [], ◌∷◌, ◌++◌, refl, ap, arith, ◌∙◌, sym,
  length, drop, take-length_append,
}
use vautlage.Record.{Record, blank}
use vautlage.Ring.{
  Ring, Cell, Header, index, cell, write_cell, fill, read_cell, payload_slice, release,
}
use vautlage.Ring.Valid.{IsValid, index_eq}
use vautlage.Ring.Fifo.{delivery}
use vautlage.Ring.Publish.{stored}

-- What a consumer reads at position `p`.
abbrev pub entry : Ring → ℕ → Record
entry r p = read_cell r p blank

abbrev pub entries : Ring → ℕ → ℕ → List Record
entries r p zero = []
entries r p (suc n) = entry r p ∷ entries r (suc p) n

pub length-entries : (r : Ring) (p n : ℕ) → length (entries r p n) ≡ n
length-entries r p zero = refl
length-entries r p (suc n) = ap suc (length-entries r (suc p) n)

pub entries-congr :
    (r s : Ring) (p n : ℕ)
    → ((q : ℕ) → p ≤ q → q < p + n → entry r q ≡ entry s q)
    → entries r p n ≡ entries s p n
entries-congr r s p zero h = refl
entries-congr r s p (suc n) h = rw (h p (omega arith) (omega arith)) (
    ap (◌∷◌ (entry s p)) (entries-congr r s (suc p) n (λ q lo hi. h q (omega arith) (omega arith))))

pub entries-snoc :
    (r : Ring) (p n : ℕ) → entries r p (suc n) ≡ entries r p n ++ entry r (p + n) ∷ []
entries-snoc r p zero = rw (add-zero p)
entries-snoc r p (suc n) =
    rw (entries-snoc r (suc p) n)
      (ap (λ q. entry r p ∷ entries r (suc p) n ++ entry r q ∷ []) (omega arith))

-- The payload that was copied in is read back.
pub payload-fill :
    (r : Ring) (pos : ℕ) (h : Header) (payload : List ℕ)
    → payload_slice (fill r pos h payload).1 (fill r pos h payload).1.len ≡ payload
unfolding payload_slice fill
payload-fill r pos h [] = refl
payload-fill r pos h (b ∷ bs) =
    ground (arith, take-length_append (b ∷ bs) (drop (suc (length bs)) (cell r pos).payload))

pub cell-write_self : (r : Ring) (pos : ℕ) (c : Cell) → cell (write_cell r pos c) pos ≡ c
unfolding cell write_cell
cell-write_self r pos c = ground arith

cell-write_ne :
    {r : Ring}
    → IsValid r
    → (pos q : ℕ) (c : Cell) → q % r.capacity ≢ pos % r.capacity
    → cell (write_cell r pos c) q ≡ cell r q
unfolding cell write_cell
cell-write_ne {r} v pos q c ne = ground (arith, index_eq v pos, index_eq v q)

index-write : (r : Ring) (pos q : ℕ) (c : Cell) → index (write_cell r pos c) q ≡ index r q
unfolding write_cell
index-write r pos q c = refl

read_cell_lem :
    (r : Ring) (p : ℕ) (rec : Record) {c : Cell} {i : ℕ}
    → cell r p ≡ c
    → index r p ≡ i
    → read_cell r p rec ≡ record {
      ticket = c.ticket;
      timestamp = c.timestamp;
      key = c.key;
      epoch = c.epoch;
      slot = i;
      flags = c.flags;
      checksum = c.checksum;
      payload = payload_slice c c.len;
      shard = rec.shard;
    }
unfolding read_cell
read_cell_lem r p rec e f = rw (← e, ← f)

-- A consumer reads at `pos` the record that was published there.
pub entry-stored :
    {r : Ring}
    → IsValid r
    → (pos : ℕ) (h : Header) (payload : List ℕ)
    → entry (stored r pos h payload) pos ≡ delivery r.capacity r.epoch pos h payload
unfolding fill
entry-stored {r} v pos h payload =
    read_cell_lem (stored r pos h payload) pos blank
      (cell-write_self r pos (fill r pos h payload).1)
      (index-write r pos pos (fill r pos h payload).1 ∙ index_eq v pos)
    ∙ rw (payload-fill r pos h payload)

pub entry-stored_ne :
    {r : Ring}
    → IsValid r
    → (pos q : ℕ) (h : Header) (payload : List ℕ) → q % r.capacity ≢ pos % r.capacity
    → entry (stored r pos h payload) q ≡ entry r q
entry-stored_ne {r} v pos q h payload ne =
    read_cell_lem (stored r pos h payload) q blank
      (cell-write_ne v pos q (fill r pos h payload).1 ne)
      (index-write r pos q (fill r pos h payload).1)
    ∙ sym (read_cell_lem r q blank refl refl)

-- Releasing a cell leaves its record readable.
pub entry-release : (r : Ring) (pos q : ℕ) → entry (release r pos) q ≡ entry r q
unfolding read_cell release payload_slice
entry-release r pos q = elim (ℕ_discrete (index r q) (index r pos)) [
  | yes e ↦ ground arith
  | no ne ↦ ground arith
]
