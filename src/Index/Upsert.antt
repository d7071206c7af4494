-- ===== src/Index/Upsert.antt =====
-- The second pass of upsert, and whole calls of it: which bucket they write, and that a thread of
-- its own always ends in the first attempt.
use native.Mathlib.Decide.{ℕ_discrete}
use vautlage.Prelude.{
  ℕ, zero, suc, ◌+◌, ◌<◌, ◌≡◌, ◌≢◌, ◌⊎◌, inl, inr, refl, ap, arith, true, false, none, some,
  Bool-cases, update, bit_and,
}
use vautlage.Errors.{index_full}
use vautlage.Atomics.{add}
use vautlage.Ring.{Ring}
use vautlage.Index.{
  KeyIndex, Entry, Pass, stored, exhausted, at, is_dead, fill_bucket, find_bucket, reclaim_bucket,
  attempt, upsert, hash_key,
}
use vautlage.Index.Find.{probed, Passed, Stored, Writes, find_bucket_lem, fill_bucket-Newest}

-- The first `m` buckets of the probe sequence point at records that are still there.
abbrev pub Alive : KeyIndex → ℕ → Ring → ℕ → Type 0
Alive x h r m = (p : ℕ) → p < m → is_dead (probed x h p) (probed x h p).key r ≡ false

module _ (fuel : ℕ) (x : KeyIndex) (h : ℕ) (e : Entry) (r : Ring) where
  abbrev IsOther : ℕ → Type 0
  IsOther p = ((probed x h p).key ≢ 0) × ((probed x h p).key ≢ e.key)

  reclaim_here :
      (n probe : ℕ)
      → IsOther probe
      → is_dead (probed x h probe) (probed x h probe).key r ≡ true
      → Writes fuel x h e r probe
          (reclaim_bucket x h e r (suc n) probe)
          (fill_bucket (probed x h probe) e)
  unfolding reclaim_bucket
  reclaim_here n probe other dead = (
    record x {
      table = update x.table (at x h probe) (fill_bucket (probed x h probe) e);
      reclaims = add x.reclaims 1;
    },
    ground arith,
    refl,
    refl,
  )

  reclaim_next :
      (n probe : ℕ)
      → IsOther probe
      → is_dead (probed x h probe) (probed x h probe).key r ≡ false
      → reclaim_bucket x h e r (suc n) probe ≡ reclaim_bucket x h e r n (suc probe)
  unfolding reclaim_bucket
  reclaim_next n probe other alive = ground arith

  -- How pass 2 ends after pass 1 has met only other keys: it never asks for another attempt.
  abbrev Reclaims : Pass → Type 0
  Reclaims end =
      ((x' : KeyIndex) × (end ≡ stored x') × Stored x x' h e r)
      ⊎ ((end ≡ exhausted) × Alive x h r 16)

  reclaim_bucket_lem :
      (n probe : ℕ)
      → probe + n ≡ 16
      → Passed x h e.key 16
      → Alive x h r probe
      → Reclaims (reclaim_bucket x h e r n probe)
  unfolding reclaim_bucket
  reclaim_bucket_lem zero probe sum passed alive = inr (refl, λ p q. alive p (omega arith))
  reclaim_bucket_lem (suc n) probe sum passed alive =
      elim (Bool-cases (is_dead (probed x h probe) (probed x h probe).key r)) [
        | inl dead ↦
            let (x', run, mask, table) = reclaim_here n probe (passed probe (omega arith)) dead in
            inl (
              x',
              run,
              record {
                probe = probe;
                below = omega arith;
                mask = mask;
                bucket = fill_bucket (probed x h probe) e;
                table = table;
                newest = fill_bucket-Newest (probed x h probe) e;
                victim = inr (inr dead);
                passed = λ p lt. passed p (omega arith);
                apart = λ p lt eq.
                    let same : is_dead (probed x h p) (probed x h p).key r
                        ≡ is_dead (probed x h probe) (probed x h probe).key r =
                      ap (λ i. is_dead (x.table i) (x.table i).key r) eq in
                    ground (arith, alive p lt);
              },
            )
        | inr live ↦ rw (reclaim_next n probe (passed probe (omega arith)) live) (
            reclaim_bucket_lem n (suc probe) (omega arith) passed (λ p lt.
              elim (ℕ_discrete p probe) [
                | yes same ↦ rw same live
                | no ne ↦ alive p (omega arith)
              ]))
      ]

  attempt_found :
      (n : ℕ) {x' : KeyIndex}
      → find_bucket fuel x h e 16 0 ≡ stored x'
      → attempt (suc n) fuel x h e r ≡ some (none, x')
  unfolding attempt
  attempt_found n found = ground arith

  attempt_reclaimed :
      (n : ℕ) {x' : KeyIndex}
      → find_bucket fuel x h e 16 0 ≡ exhausted
      → reclaim_bucket x h e r 16 0 ≡ stored x'
      → attempt (suc n) fuel x h e r ≡ some (none, x')
  unfolding attempt
  attempt_reclaimed n full reclaimed = ground arith

  attempt_full :
      (n : ℕ)
      → find_bucket fuel x h e 16 0 ≡ exhausted
      → reclaim_bucket x h e r 16 0 ≡ exhausted
      → attempt (suc n) fuel x h e r
        ≡ some (some index_full, record x { overflows = add x.overflows 1 })
  unfolding attempt
  attempt_full n full alive = ground arith

-- The home position of a key.
abbrev pub home : KeyIndex → ℕ → ℕ
home x key = bit_and (hash_key key) x.mask

upsert-attempt :
    (fuel : ℕ) (x : KeyIndex) (e : Entry) (r : Ring)
    → e.key ≢ 0
    → upsert fuel x e r ≡ attempt 2 fuel x (home x e.key) e r
unfolding upsert
upsert-attempt fuel x e r nz = ground arith

-- A call of upsert with a key other than 0 ends. Either it writes one bucket of the key's probe
-- sequence, an empty one, the key's own or a dead one, behind buckets of other keys only, and leaves
-- there the entry or a newer one of the same key; or it reports a full index, only the overflow
-- counter moves, and all 16 buckets hold other keys whose records are still in the ring.
pub upsert_lem :
    (fuel : ℕ) (x : KeyIndex) (e : Entry) (r : Ring)
    → e.key ≢ 0
    → ((x' : KeyIndex) × (upsert (suc fuel) x e r ≡ some (none, x'))
        × Stored x x' (home x e.key) e r)
      ⊎ ((upsert (suc fuel) x e r
            ≡ some (some index_full, record x { overflows = add x.overflows 1 }))
          × Passed x (home x e.key) e.key 16
          × Alive x (home x e.key) r 16)
upsert_lem fuel x e r nz =
    rw (upsert-attempt (suc fuel) x e r nz)
      (elim (find_bucket_lem fuel x h e r 16 0 16 refl (omega arith) (λ p lt. elim lt [ ])) [
        | inl (x', found, s) ↦ inl (x', attempt_found (suc fuel) x h e r 1 found, s)
        | inr (full, passed) ↦
            elim (reclaim_bucket_lem (suc fuel) x h e r 16 0 refl passed (λ p lt. elim lt [ ])) [
              | inl (x', reclaimed, s) ↦
                  inl (x', attempt_reclaimed (suc fuel) x h e r 1 full reclaimed, s)
              | inr (none_dead, alive) ↦
                  inr (attempt_full (suc fuel) x h e r 1 full none_dead, passed, alive)
            ]
      ])
  where
    h : ℕ
    h = home x e.key
