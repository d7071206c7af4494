-- ===== src/Layout.antt =====
-- layout.go and the constants of cacheline.go: the address arithmetic of the storage matrix.
-- An address or a size is a 64-bit word, and every sum and product wraps as `uintptr` does.
pub mod Align
pub mod Matrix
use vautlage.Prelude.{
  ℕ, ◌+◌, ◌*◌, ◌≡◌, Bool, not, ◌&&◌, ◌==◌, bit_and, add64, sub64, mul64, and_not,
}

abbrev pub cache_line_size : ℕ
cache_line_size = 64

abbrev pub coherence_stride : ℕ
coherence_stride = 128

abbrev pub word_size : ℕ
word_size = 8

abbrev pub header_size : ℕ
header_size = 64

-- The fields of a cell's header, with their offsets and widths in bytes.
pub data Field : Type 0 where
  seq ticket timestamp key length epoch checksum flags reserved : Field

unfoldable pub offset : Field → ℕ
offset seq = 0
offset ticket = 8
offset timestamp = 16
offset key = 24
offset length = 32
offset epoch = 40
offset checksum = 48
offset flags = 52
offset reserved = 56

-- The two 32-bit fields share a word; the others are `uint64`.
unfoldable pub width : Field → ℕ
width checksum = 4
width flags = 4
width _ = 8

unfoldable pub cell_at : ℕ → ℕ → ℕ → ℕ
cell_at base idx stride = add64 base (mul64 idx stride)

unfoldable pub field_at : ℕ → ℕ → ℕ
field_at cell_base off = add64 cell_base off

unfoldable pub payload_at : ℕ → ℕ
payload_at cell_base = add64 cell_base header_size

-- (n + align - 1) &^ (align - 1)
unfoldable pub align_up : ℕ → ℕ → ℕ
align_up n align = and_not (sub64 (add64 n align) 1) (sub64 align 1)

unfoldable pub is_aligned : ℕ → ℕ → Bool
is_aligned addr align = bit_and addr (sub64 align 1) == 0

unfoldable pub is_pow2 : ℕ → Bool
is_pow2 n = not (n == 0) && (bit_and n (sub64 n 1) == 0)

unfoldable pub cell_stride_for : ℕ → ℕ
cell_stride_for payload_cap = align_up (add64 header_size payload_cap) cache_line_size

unfoldable pub ring_bytes : ℕ → ℕ → ℕ
ring_bytes cells payload_cap = mul64 cells (cell_stride_for payload_cap)
