-- ===== src/Ring/Threads/Stores.antt =====
-- The stores of publish one after the other, and the loads of dequeue: a record that was stored in
-- full is loaded as it was published.
use vautlage.Prelude.{
  ℕ, zero, suc, ◌≡◌, refl, arith, List, [], ◌∷◌, length, drop, take-length_append, add64, ◌%◌,
}
use vautlage.Record.{Record}
use vautlage.Ring.{Ring, Cell, Header, index, cell, fill, read_cell, payload_slice}
use vautlage.Ring.Fifo.{delivery}
use vautlage.Ring.Threads.{put_field, Seen, get_field}

-- The first `k` stores.
unfoldable pub puts : ℕ → ℕ → Header → List ℕ → Cell → Cell
puts zero epoch h payload c = c
puts (suc k) epoch h payload c = put_field k epoch h payload (puts k epoch h payload c)

-- The first `k` loads.
unfoldable pub gets : ℕ → ℕ → Cell → Seen → Seen
gets zero slot c s = s
gets (suc k) slot c s = get_field k slot c (gets k slot c s)

-- What dequeue begins with.
abbrev pub unread : Record → Seen
unread rec = record { len = 0; rec = rec }

pub put_field-seq :
    (k epoch : ℕ) (h : Header) (payload : List ℕ) (c : Cell)
    → (put_field k epoch h payload c).seq ≡ c.seq
unfolding put_field
put_field-seq k epoch h payload c = ground arith

-- The stores leave what publish leaves when no other thread runs.
pub puts-fill :
    (r : Ring) (pos : ℕ) (h : Header) (payload : List ℕ)
    → record (puts 8 r.epoch h payload (cell r pos)) { seq = add64 pos 1 }
      ≡ (fill r pos h payload).1
unfolding puts put_field fill
puts-fill r pos h payload = ground arith

-- The loads return what dequeue reads when no other thread runs.
pub gets-read_cell :
    (r : Ring) (pos : ℕ) (rec : Record)
    → (gets 8 (index r pos) (cell r pos) (unread rec)).rec ≡ read_cell r pos rec
unfolding gets get_field read_cell
gets-read_cell r pos rec = refl

-- A record that was stored in full is loaded whole, into a record that keeps its shard.
pub gets-puts :
    (cap epoch slot p q : ℕ) (h : Header) (payload : List ℕ) (c : Cell) (rec : Record)
    → slot ≡ p % cap
    → (gets 8 slot (record (puts 8 epoch h payload c) { seq = q }) (unread rec)).rec
      ≡ record (delivery cap epoch p h payload) { shard = rec.shard }
unfolding puts put_field gets get_field payload_slice
gets-puts cap epoch slot p q h [] c rec e = rw e refl
gets-puts cap epoch slot p q h (x ∷ xs) c rec e =
    ground (arith, take-length_append (x ∷ xs) (drop (length (x ∷ xs)) c.payload))
