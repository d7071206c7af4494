-- ===== src/Index/Find.antt =====
-- updateMonotonic and the first pass of upsert: the key, or an empty bucket.
-- The statements on whole calls of upsert are in Index.Upsert.
use native.Mathlib.Decide.{ℕ_discrete, dec_le}
use vautlage.Prelude.{
  ℕ, zero, suc, ◌+◌, ◌≤◌, ◌<◌, ◌≡◌, ◌≢◌, ◌⊎◌, inl, inr, refl, ap, arith, true, some, update,
}
use vautlage.Atomics.{add}
use vautlage.Ring.{Ring}
use vautlage.Index.{
  Bucket, KeyIndex, Entry, Pass, stored, exhausted, at, is_dead, count_collisions, update_monotonic,
  fill_bucket, find_bucket,
}

-- The bucket of probe number `p`.
abbrev pub probed : KeyIndex → ℕ → ℕ → Bucket
probed x h p = x.table (at x h p)

-- The first `m` probes meet other keys.
abbrev pub Passed : KeyIndex → ℕ → ℕ → ℕ → Type 0
Passed x h key m = (p : ℕ) → p < m → ((probed x h p).key ≢ 0) × ((probed x h p).key ≢ key)

-- What a bucket holds after an entry was stored over `old`: the entry, or a record of the same key
-- that is at least as new.
abbrev pub Newest : Bucket → Bucket → Entry → Type 0
Newest old new e =
    (new.key ≡ e.key)
    × (((new.ticket ≡ e.ticket) × (new.slot ≡ e.slot))
        ⊎ ((old.key ≡ e.key) × (e.ticket ≤ old.ticket) × (new ≡ old)))

-- One bucket of the probe sequence was written. It was empty, held the key, or was dead; every
-- bucket before it holds another key.
pub record Stored (x x' : KeyIndex) (h : ℕ) (e : Entry) (r : Ring) : Type 0 where
  pub probe : ℕ
  pub below : probe < 16
  pub mask : x'.mask ≡ x.mask
  pub bucket : Bucket
  pub table : x'.table ≡ update x.table (at x h probe) bucket
  pub newest : Newest (probed x h probe) bucket e
  pub victim :
      ((probed x h probe).key ≡ 0)
      ⊎ ((probed x h probe).key ≡ e.key)
      ⊎ (is_dead (probed x h probe) (probed x h probe).key r ≡ true)
  pub passed : Passed x h e.key probe
  pub apart : (p : ℕ) → p < probe → at x h p ≢ at x h probe

-- updateMonotonic ends in its first round on the newer of the two entries.
update_monotonic_lem :
    (fuel : ℕ) (b : Bucket) (e : Entry)
    → b.key ≡ e.key
    → (b' : Bucket) × (update_monotonic (suc fuel) b e.ticket e.slot ≡ some b') × Newest b b' e
unfolding update_monotonic
update_monotonic_lem fuel b e same = elim (dec_le e.ticket b.ticket) [
  | yes old ↦ (b, ground arith, (same, inr (same, old, refl)))
  | no new ↦ (record b { ticket = e.ticket; slot = e.slot }, ground arith, (same, inl (refl, refl)))
]

pub fill_bucket-Newest : (old : Bucket) (e : Entry) → Newest old (fill_bucket old e) e
unfolding fill_bucket
fill_bucket-Newest old e = (refl, inl (refl, refl))

module _ (fuel : ℕ) (x : KeyIndex) (h : ℕ) (e : Entry) (r : Ring) where
  -- A pass that ends at probe `probe` has written the bucket there.
  abbrev pub Writes : ℕ → Pass → Bucket → Type 0
  Writes probe end b =
      (x' : KeyIndex) × (end ≡ stored x')
      × (x'.mask ≡ x.mask)
      × (x'.table ≡ update x.table (at x h probe) b)

  find_empty :
      (n probe : ℕ)
      → (probed x h probe).key ≡ 0
      → Writes probe (find_bucket (suc fuel) x h e (suc n) probe) (fill_bucket (probed x h probe) e)
  unfolding find_bucket
  find_empty n probe z = (
    record x {
      table = update x.table (at x h probe) (fill_bucket (probed x h probe) e);
      live = add x.live 1;
      collides = count_collisions x.collides probe;
    },
    ground arith,
    refl,
    refl,
  )

  find_same :
      (n probe : ℕ) {b : Bucket}
      → (probed x h probe).key ≢ 0
      → (probed x h probe).key ≡ e.key
      → update_monotonic (suc fuel) (probed x h probe) e.ticket e.slot ≡ some b
      → Writes probe (find_bucket (suc fuel) x h e (suc n) probe) b
  unfolding find_bucket
  find_same n probe {b} nz same run = (
    record x {
      table = update x.table (at x h probe) b;
      collides = count_collisions x.collides probe;
    },
    ground arith,
    refl,
    refl,
  )

  find_next :
      (n probe : ℕ)
      → ((probed x h probe).key ≢ 0) × ((probed x h probe).key ≢ e.key)
      → find_bucket (suc fuel) x h e (suc n) probe ≡ find_bucket (suc fuel) x h e n (suc probe)
  unfolding find_bucket
  find_next n probe other = ground arith

  -- The bucket that pass 1 stops at is none of those before it.
  find-apart :
      (probe : ℕ)
      → Passed x h e.key probe
      → ((probed x h probe).key ≡ 0) ⊎ ((probed x h probe).key ≡ e.key)
      → (p : ℕ) → p < probe
      → at x h p ≢ at x h probe
  find-apart probe passed hit p lt eq = ground (arith, passed p lt, ap (λ i. (x.table i).key) eq)

  find_here :
      (n probe : ℕ)
      → probe < 16
      → Passed x h e.key probe
      → ((probed x h probe).key ≡ 0) ⊎ ((probed x h probe).key ≡ e.key)
      → (x' : KeyIndex) × (find_bucket (suc fuel) x h e (suc n) probe ≡ stored x')
        × Stored x x' h e r
  find_here n probe lt passed hit = elim (ℕ_discrete (probed x h probe).key 0) [
    | yes z ↦
        let (x', run, mask, table) = find_empty n probe z in
        (
          x',
          run,
          record {
            probe = probe;
            below = lt;
            mask = mask;
            bucket = fill_bucket (probed x h probe) e;
            table = table;
            newest = fill_bucket-Newest (probed x h probe) e;
            victim = inl z;
            passed = passed;
            apart = find-apart probe passed hit;
          },
        )
    | no nz ↦
        let same : (probed x h probe).key ≡ e.key = elim hit [
          | inl z ↦ absurd (nz z)
          | inr s ↦ s
        ] in
        let (b, moved, newest) = update_monotonic_lem fuel (probed x h probe) e same in
        let (x', run, mask, table) = find_same n probe nz same moved in
        (
          x',
          run,
          record {
            probe = probe;
            below = lt;
            mask = mask;
            bucket = b;
            table = table;
            newest = newest;
            victim = inr (inl same);
            passed = passed;
            apart = find-apart probe passed hit;
          },
        )
  ]

  -- How pass 1 ends.
  abbrev pub Finds : ℕ → Pass → Type 0
  Finds m end =
      ((x' : KeyIndex) × (end ≡ stored x') × Stored x x' h e r)
      ⊎ ((end ≡ exhausted) × Passed x h e.key m)

  Passed-next :
      (probe : ℕ)
      → Passed x h e.key probe
      → ((probed x h probe).key ≢ 0) × ((probed x h probe).key ≢ e.key)
      → Passed x h e.key (suc probe)
  Passed-next probe passed other p lt = elim (ℕ_discrete p probe) [
    | yes same ↦ rw same other
    | no ne ↦ passed p (omega arith)
  ]

  pub find_bucket_lem :
      (n probe m : ℕ)
      → probe + n ≡ m
      → m ≤ 16
      → Passed x h e.key probe
      → Finds m (find_bucket (suc fuel) x h e n probe)
  unfolding find_bucket
  find_bucket_lem zero probe m sum lt passed = inr (refl, λ p q. passed p (omega arith))
  find_bucket_lem (suc n) probe m sum lt passed = elim (ℕ_discrete (probed x h probe).key 0) [
    | yes z ↦ inl (find_here n probe (omega arith) passed (inl z))
    | no nz ↦ elim (ℕ_discrete (probed x h probe).key e.key) [
      | yes s ↦ inl (find_here n probe (omega arith) passed (inr s))
      | no ns ↦
          rw (find_next n probe (nz, ns))
            (find_bucket_lem n (suc probe) m (omega arith) lt (Passed-next probe passed (nz, ns)))
    ]
  ]
