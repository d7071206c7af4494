-- ===== src/Ring.antt =====
-- ring.go, with copyIntoPayload and payloadSlice of layout.go: the bounded sequence ring.
-- The matrix is a function from a cell's index to its contents (Layout.Matrix shows that distinct
-- cells and fields lie at distinct addresses). Each function is the code as one thread runs it with
-- no other thread between its accesses. A payload longer than the payload region of a cell, which
-- copyIntoPayload would run on into the next cell, is outside the model: Vaultage.publish refuses it
-- before the ring is called. A retry loop takes fuel, and `none` is fuel that ran out.
pub mod Valid
pub mod Claim
pub mod Publish
pub mod Dequeue
pub mod Fifo
pub mod Entries
pub mod Models
pub mod Serve
pub mod Refine
pub mod Init
pub mod Limits
pub mod Threads
use vautlage.Prelude.{
  ℕ, zero, suc, ◌-◌, ◌*◌, ◌/◌, ◌^◌, List, [], ◌∷◌, ◌++◌, Option, none, some, Bool, true, false, not,
  ◌||◌, if◌then◌else◌, ◌==◌, ltb, leb, bit_and, bit_or, add64, sub64, mul64, length, take, drop,
  update,
}
use vautlage.Errors.{Result, ok, err, config}
use vautlage.Atomics.{load, store, cas}
use vautlage.Layout.{is_pow2, is_aligned, cell_stride_for, cache_line_size}
use vautlage.Record.{Record, flag_committed}

-- The header of a cell, and the bytes of its payload region.
pub record Cell : Type 0 where
  pub seq : ℕ
  pub ticket : ℕ
  pub timestamp : ℕ
  pub key : ℕ
  pub len : ℕ
  pub epoch : ℕ
  pub checksum : ℕ
  pub flags : ℕ
  pub reserved : ℕ
  pub payload : List ℕ

pub record Ring : Type 0 where
  pub cells : ℕ → Cell
  pub base : ℕ
  pub stride : ℕ
  pub capacity : ℕ
  pub mask : ℕ
  pub payload_cap : ℕ
  pub epoch : ℕ
  pub tail : ℕ
  pub commit : ℕ
  pub head : ℕ

-- What initRing stores in cell `i`; the payload keeps its bytes.
unfoldable pub prime_cell : ℕ → ℕ → Cell → Cell
prime_cell epoch i c = record c {
  seq = i;
  ticket = 0;
  timestamp = 0;
  key = 0;
  len = 0;
  epoch = epoch;
  reserved = 0;
  checksum = 0;
  flags = 0;
}

-- The loop of initRing: `n` rounds are left, from cell `i` on.
unfoldable pub prime : ℕ → ℕ → ℕ → (ℕ → Cell) → ℕ → Cell
unfolding prime_cell
prime epoch zero i cells = cells
prime epoch (suc n) i cells = prime epoch n (suc i) (update cells i (prime_cell epoch i (cells i)))

unfoldable pub init_ring : Ring → ℕ → ℕ → ℕ → ℕ → Result Ring
unfolding prime store is_pow2 is_aligned cell_stride_for
init_ring r base cells payload_cap epoch =
    if cells == 0 || not (is_pow2 cells)
    then err config
    else if not (is_aligned base cache_line_size)
    then err config
    else ok (record {
      cells = prime epoch cells 0 r.cells;
      base = base;
      stride = cell_stride_for payload_cap;
      capacity = cells;
      mask = cells - 1;
      payload_cap = payload_cap;
      epoch = epoch;
      tail = store r.tail 0;
      commit = store r.commit 0;
      head = store r.head 0;
    })

abbrev pub index : Ring → ℕ → ℕ
index r pos = bit_and pos r.mask

unfoldable pub cell : Ring → ℕ → Cell
cell r pos = r.cells (index r pos)

-- The ring after writing the cell that serves `pos`.
unfoldable pub write_cell : Ring → ℕ → Cell → Ring
write_cell r pos c = record r { cells = update r.cells (index r pos) c }

-- int64(seq) - int64(pos), as its 64-bit pattern: negative from 2 ^ 63 on.
unfoldable pub claim : ℕ → Ring → Option (Option ℕ × Ring)
unfolding load cas cell
claim zero r = none
claim (suc fuel) r =
    let pos = load r.tail in
    let dif = sub64 (cell r pos).seq pos in
    let (won, tail) = cas r.tail pos (add64 pos 1) in
    let retry = claim fuel r in
    if dif == 0
    then if won then some (some pos, record r { tail = tail }) else retry
    else if leb (2 ^ 63) dif
    then some (none, r)
    else retry

unfoldable pub copy_into_payload : Cell → List ℕ → ℕ × Cell
copy_into_payload c src =
    if length src == 0
    then (0, c)
    else (length src, record c { payload = src ++ drop (length src) c.payload })

unfoldable pub payload_slice : Cell → ℕ → List ℕ
payload_slice c n = if n == 0 then [] else take n c.payload

unfoldable pub advance_commit : ℕ → Ring → Option Ring
unfolding load cas cell
advance_commit zero r = none
advance_commit (suc fuel) r =
    let c = load r.commit in
    let (won, commit) = cas r.commit c (add64 c 1) in
    let retry = advance_commit fuel (record r { commit = commit }) in
    if c == load r.tail then some r else if not ((cell r c).seq == add64 c 1) then some r else retry

-- The arguments of publish that go into the header.
pub record Header : Type 0 where
  pub ticket : ℕ
  pub key : ℕ
  pub timestamp : ℕ
  pub flags : ℕ
  pub checksum : ℕ

-- The bytes copied, and the cell that publish leaves behind.
unfoldable pub fill : Ring → ℕ → Header → List ℕ → ℕ × Cell
unfolding cell copy_into_payload store
fill r pos h payload =
    let (n, c) = copy_into_payload (cell r pos) payload in
    (
      n,
      record c {
        ticket = h.ticket;
        timestamp = h.timestamp;
        key = h.key;
        len = n;
        epoch = r.epoch;
        checksum = h.checksum;
        flags = bit_or h.flags flag_committed;
        seq = add64 pos 1;
      },
    )

unfoldable pub publish : ℕ → Ring → ℕ → Header → List ℕ → Option (ℕ × Ring)
publish fuel r pos h payload =
    let (n, c) = fill r pos h payload in
    elim (advance_commit fuel (write_cell r pos c)) [ none ↦ none | some r' ↦ some (n, r') ]

unfoldable pub release : Ring → ℕ → Ring
unfolding write_cell cell store
release r pos = write_cell r pos (record (cell r pos) { seq = add64 pos r.capacity })

-- What dequeue copies into the caller's record; the field `shard` is the caller's.
unfoldable pub read_cell : Ring → ℕ → Record → Record
read_cell r pos rec =
    let c = cell r pos in
    record rec {
      ticket = c.ticket;
      timestamp = c.timestamp;
      key = c.key;
      epoch = c.epoch;
      checksum = c.checksum;
      flags = c.flags;
      slot = index r pos;
      payload = payload_slice c c.len;
    }

unfoldable pub dequeue : ℕ → Ring → Record → Option (Option ℕ × Record × Ring)
unfolding load cas cell read_cell release
dequeue zero r rec = none
dequeue (suc fuel) r rec =
    let pos = load r.head in
    let (won, head) = cas r.head pos (add64 pos 1) in
    let taken = record r { head = head } in
    let retry = dequeue fuel taken rec in
    if leb (load r.commit) pos
    then some (none, rec, r)
    else if not won
    then retry
    else if (cell taken pos).seq == add64 pos 1
    then some (some pos, read_cell taken pos rec, taken)
    else some (none, rec, release taken pos)

unfoldable pub pending : Ring → ℕ
unfolding load
pending r = let h = load r.head in let t = load r.tail in if ltb t h then 0 else t - h

unfoldable pub committed : Ring → ℕ
unfolding load
committed r = let h = load r.head in let c = load r.commit in if ltb c h then 0 else c - h

unfoldable pub occupancy_pct : Ring → ℕ
unfolding pending
occupancy_pct r = mul64 (pending r) 100 / r.capacity
