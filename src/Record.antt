-- ===== src/Record.antt =====
-- record.go: the record handed to consumers and its payload digest. Bytes are numbers below 256.
pub mod Checksum
use vautlage.Prelude.{
  ℕ, List, [], ◌∷◌, Bool, true, false, not, if◌then◌else◌, ◌==◌, bit_and, bit_xor, mul32, length,
}

-- The flag bits of layout.go.
abbrev pub flag_committed : ℕ
flag_committed = 1

abbrev pub flag_tombstone : ℕ
flag_tombstone = 2

abbrev pub flag_truncated : ℕ
flag_truncated = 4

-- A timestamp is the 64-bit pattern of its `int64`.
pub record Record : Type 0 where
  pub ticket : ℕ
  pub timestamp : ℕ
  pub key : ℕ
  pub epoch : ℕ
  pub slot : ℕ
  pub flags : ℕ
  pub checksum : ℕ
  pub payload : List ℕ
  pub shard : ℕ

abbrev pub blank : Record
blank = record {
  ticket = 0;
  timestamp = 0;
  key = 0;
  epoch = 0;
  slot = 0;
  flags = 0;
  checksum = 0;
  payload = [];
  shard = 0;
}

abbrev pub fnv_offset32 : ℕ
fnv_offset32 = 2166136261

abbrev pub fnv_prime32 : ℕ
fnv_prime32 = 16777619

-- The loop of checksum32 over the bytes that are left.
unfoldable pub digest : ℕ → List ℕ → ℕ
digest h [] = h
digest h (b ∷ bs) = digest (mul32 (bit_xor h b) fnv_prime32) bs

unfoldable pub checksum32 : List ℕ → ℕ
checksum32 b = let h = digest fnv_offset32 b in if h == 0 then 1 else h

unfoldable pub is_tombstone : Record → Bool
is_tombstone r = not (bit_and r.flags flag_tombstone == 0)

unfoldable pub verify : Record → Bool
verify r = if r.checksum == 0 then true else checksum32 r.payload == r.checksum

-- A copy of no bytes is the nil slice.
unfoldable pub copy_payload : Record → List ℕ
copy_payload r = if length r.payload == 0 then [] else r.payload
