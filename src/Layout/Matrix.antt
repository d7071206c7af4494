-- ===== src/Layout/Matrix.antt =====
-- The cells of a matrix in memory: where the header fields and payloads of `cells` cells of one
-- stride lie, from the offsets of layout.go.
use native.Mathlib.Nat.{mul-le-mul_right}
use vautlage.Prelude.{ℕ, ◌+◌, ◌*◌, ◌/◌, ◌%◌, ◌^◌, ◌≤◌, ◌<◌, ◌≡◌, ◌⊎◌, ap, arith}
use vautlage.Layout.{
  Field, header_size, cell_at, field_at, payload_at, offset, width, cell_stride_for, ring_bytes,
}
use vautlage.Layout.Align.{align_up_lem}

-- The stride is a multiple of the cache line and holds the header and the payload, with less than
-- a line to spare.
pub cell_stride_for_lem :
    (cap : ℕ)
    → cap + 128 ≤ 2 ^ 64
    → (cell_stride_for cap % 64 ≡ 0)
      × (header_size + cap ≤ cell_stride_for cap)
      × (cell_stride_for cap < header_size + cap + 64)
unfolding cell_stride_for
cell_stride_for_lem cap fits =
    let e : (64 + cap) % 2 ^ 64 ≡ 64 + cap = omega arith in
    let (a, b, c) = align_up_lem (64 + cap) 6 (omega arith) (omega arith) in ground arith

-- A matrix that fits the address space: `base` on a cache line, nothing wraps.
pub record Fits (base cells cap : ℕ) : Type 0 where
  pub aligned : base % 64 ≡ 0
  pub payload : cap + 128 ≤ 2 ^ 64
  pub room : base + cells * cell_stride_for cap < 2 ^ 64

-- No address of a cell wraps.
cell_at_eq :
    {base cells cap : ℕ}
    → Fits base cells cap
    → (i : ℕ) → i < cells
    → (cell_at base i (cell_stride_for cap) ≡ base + i * cell_stride_for cap)
      × ((i + 1) * cell_stride_for cap ≤ cells * cell_stride_for cap)
unfolding cell_at
cell_at_eq {base} {cells} {cap} f i h =
    let below : (i + 1) * cell_stride_for cap ≤ cells * cell_stride_for cap =
      mul-le-mul_right (cell_stride_for cap) (omega arith) in
    (omega (arith, f.room), below)

cell_at-lt : (base i stride : ℕ) → cell_at base i stride < 2 ^ 64
unfolding cell_at
cell_at-lt base i stride = omega arith

cell_at_line :
    {base cells cap : ℕ}
    → Fits base cells cap
    → (i : ℕ) → i < cells
    → cell_at base i (cell_stride_for cap) % 64 ≡ 0
cell_at_line {base} {cells} {cap} f i h =
    let (line, _, _) = cell_stride_for_lem cap f.payload in
    let e : cell_stride_for cap ≡ 64 * (cell_stride_for cap / 64) = omega arith in
    omega (arith, (cell_at_eq f i h).0, ap (λ (t : ℕ). i * t) e, f.aligned)

-- Of every cell of a matrix that fits: the cell starts a cache line, and every header field starts
-- on a boundary of its own width and lies in that line.
pub field_at_aligned :
    {base cells cap : ℕ}
    → Fits base cells cap
    → (i : ℕ) → i < cells
    → (x : Field)
    → let cell = cell_at base i (cell_stride_for cap) in
      (cell % 64 ≡ 0)
      × (field_at cell (offset x) % width x ≡ 0)
      × (cell ≤ field_at cell (offset x))
      × (field_at cell (offset x) + width x ≤ cell + 64)
unfolding field_at offset width
field_at_aligned {base} {cells} {cap} f i h Field.seq =
    omega (arith, cell_at_line f i h, cell_at-lt base i (cell_stride_for cap))
field_at_aligned {base} {cells} {cap} f i h _ =
    omega (arith, cell_at_line f i h, cell_at-lt base i (cell_stride_for cap))

-- Two fields of one header never share a byte.
pub offset_disjoint :
    (x y : Field) → (x ≡ y) ⊎ (offset x + width x ≤ offset y) ⊎ (offset y + width y ≤ offset x)
unfolding offset width
offset_disjoint x y = ground arith

-- The payload of a cell ends before the next cell starts, so no two cells share a byte, and the
-- payload of the last cell ends within the bytes that ringBytes reserves.
pub cell_at_disjoint :
    {base cells cap : ℕ}
    → Fits base cells cap
    → (i j : ℕ) → i < j
    → j < cells
    → (payload_at (cell_at base i (cell_stride_for cap)) + cap
        ≤ cell_at base j (cell_stride_for cap))
      × (payload_at (cell_at base j (cell_stride_for cap)) + cap ≤ base + ring_bytes cells cap)
unfolding payload_at ring_bytes
cell_at_disjoint {base} {cells} {cap} f i j lt hj =
    let (_, room, _) = cell_stride_for_lem cap f.payload in
    let (at_i, next_i) = cell_at_eq f i (omega arith) in
    let (at_j, next_j) = cell_at_eq f j hj in
    let mono : (i + 1) * cell_stride_for cap ≤ j * cell_stride_for cap =
      mul-le-mul_right (cell_stride_for cap) (omega arith) in
    omega (arith, f.room)
