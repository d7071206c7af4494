-- ===== src/Record/Checksum.antt =====
-- The payload digest: FNV-1a by its recurrence, and the value 0 kept free for "no checksum".
use native.Mathlib.Nat.{mod-lt}
use vautlage.Prelude.{
  ℕ, ◌*◌, ◌^◌, ◌<◌, ◌≡◌, ◌≢◌, ◌⊎◌, refl, arith, List, [], ◌∷◌, ◌++◌, true, bit_xor, mul32,
}
use vautlage.Record.{Record, fnv_offset32, fnv_prime32, digest, checksum32, verify}

digest_word : (h : ℕ) (bs : List ℕ) → h < 2 ^ 32 → digest h bs < 2 ^ 32
unfolding digest
digest_word h [] small = small
digest_word h (b ∷ bs) small =
    digest_word (mul32 (bit_xor h b) fnv_prime32) bs
      (mod-lt (bit_xor h b * fnv_prime32) {m = 2 ^ 32} (omega arith))

-- The digest of a payload that is cut in two goes on from the digest of the first part.
digest-append : (h : ℕ) (xs ys : List ℕ) → digest h (xs ++ ys) ≡ digest (digest h xs) ys
unfolding digest
digest-append h [] ys = refl
digest-append h (x ∷ xs) ys = digest-append (mul32 (bit_xor h x) fnv_prime32) xs ys

nonzero :
    (bs : List ℕ) → digest fnv_offset32 bs < 2 ^ 32 → (checksum32 bs ≢ 0) × (checksum32 bs < 2 ^ 32)
unfolding checksum32
nonzero bs small = (λ e. ground arith, ground arith)

-- A checksum is a 32-bit word other than 0, which stands for "no checksum"; so a record that carries
-- the checksum of its payload verifies, and one that carries another word, 0 excepted, does not.
pub verify_lem :
    (r : Record)
    → (checksum32 r.payload ≢ 0)
      × (checksum32 r.payload < 2 ^ 32)
      × ((verify r ≡ true → (r.checksum ≡ 0) ⊎ (r.checksum ≡ checksum32 r.payload)))
      × ((r.checksum ≡ 0) ⊎ (r.checksum ≡ checksum32 r.payload) → verify r ≡ true)
unfolding verify
verify_lem r =
    let n = nonzero r.payload (digest_word fnv_offset32 r.payload (omega arith)) in
    (n.0, n.1, λ e. ground arith, λ h. ground arith)
