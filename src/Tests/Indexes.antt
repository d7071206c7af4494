-- ===== src/Tests/Indexes.antt =====
-- The index: the key that it holds is stored again, another key joins it.
use vautlage.Prelude.{
  ℕ, ◌≤◌, update, if◌then◌else◌, ◌≡◌, ◌≢◌, ◌⊎◌, inl, inr, refl, arith, Option, none, some,
  Bool-cases, ◌==◌,
}
use vautlage.Errors.{Error, index_full}
use vautlage.Atomics.{add, load, cas}
use vautlage.Record.{blank}
use vautlage.Index.{
  Bucket, KeyIndex, Entry, at, lookup, upsert, attempt, find_bucket, fill_bucket, update_monotonic,
  hash_key, probe_from, resolve, count_collisions,
}
use vautlage.Index.Find.{Passed, Stored}
use vautlage.Index.Upsert.{Alive, home, upsert_lem}
use vautlage.Index.Lookup.{Addressable, found, lookup_sound}
use vautlage.Index.Laws.{IsNewer, lookup-upsert, lookup-upsert_other}
use vautlage.Index.Writers as Writers
use vautlage.Index.Writers.{
  Mutation, waiting, looping, swapping, storing, returned, begin, is_older, win, pick, Reach, start,
  later, last_ticket, late_slot,
}
use vautlage.Tests.Data.{two, pair}

abbrev newer : Entry
newer = record { key = 9; ticket = 2; slot = 0 }

abbrev other : Entry
other = record { key = 4; ticket = 2; slot = 1 }

-- The index that a result holds.
abbrev index_of : Option (Option Error × KeyIndex) → KeyIndex
index_of none = pair
index_of (some (failed, x)) = x

two-Addressable : Addressable two 0 9
two-Addressable = record {
  within = omega arith;
  keyed = refl;
  committed = λ e. omega arith;
  sized = omega arith;
}

pair-IsNewer : IsNewer pair newer
pair-IsNewer p lt same = elim (Bool-cases (at pair (home pair 9) p == 1)) [
  | inl hit ↦ ground arith
  | inr miss ↦ ground arith
]

stored_newer : upsert 1 pair newer two ≡ some (none, index_of (upsert 1 pair newer two))
unfolding upsert attempt find_bucket update_monotonic fill_bucket hash_key count_collisions
stored_newer = refl

stored_other : upsert 1 pair other two ≡ some (none, index_of (upsert 1 pair other two))
unfolding upsert attempt find_bucket update_monotonic fill_bucket hash_key count_collisions
stored_other = refl

found_before : lookup pair 9 two blank ≡ (none, found two 0 9 blank)
unfolding lookup probe_from resolve hash_key
found_before = refl

upsert_lem_example :
    ((x' : KeyIndex) × (upsert 1 pair other two ≡ some (none, x'))
      × Stored pair x' (home pair 4) other two)
    ⊎ ((upsert 1 pair other two
          ≡ some (some index_full, record pair { overflows = add pair.overflows 1 }))
        × Passed pair (home pair 4) 4 16
        × Alive pair (home pair 4) two 16)
upsert_lem_example = upsert_lem 0 pair other two (λ e. omega arith)

lookup_sound_example :
    Addressable two 0 9 × (found two 0 9 blank ≡ found two 0 9 blank) × ((two.cells 0).key ≢ 0)
lookup_sound_example = lookup_sound pair 9 two blank found_before

lookup-upsert_example :
    lookup (index_of (upsert 1 pair newer two)) 9 two blank ≡ (none, found two 0 9 blank)
lookup-upsert_example =
    lookup-upsert 0 pair newer two (λ e. omega arith) (λ e. omega arith) pair-IsNewer
      two-Addressable stored_newer blank

lookup-upsert_other_example :
    lookup (index_of (upsert 1 pair other two)) 9 two blank ≡ (none, found two 0 9 blank)
lookup-upsert_other_example =
    lookup-upsert_other 0 pair other two (λ e. omega arith) stored_other 9 blank (λ e. omega arith)
      (λ e. omega arith) found_before

-- Two mutations of one key, the older in cell 1 and the newer in cell 2.
abbrev mutations : ℕ → Mutation
mutations i = if i == 0 then record { ticket = 5; slot = 1 } else record { ticket = 6; slot = 2 }

abbrev entry : Bucket
entry = record { key = 9; ticket = 3; slot = 0; pad = 0 }

late_slot_example :
    (s : Writers.System) × Reach mutations entry s
    × (s.pc 0 ≡ returned)
    × (s.pc 1 ≡ returned)
    × (s.bucket.ticket ≡ 6)
    × (s.bucket.slot ≡ 1)
late_slot_example = late_slot mutations entry (omega arith) (omega arith)

-- The newer one has won the ticket word, and the older one has begun.
abbrev won : Writers.System
won = record {
  bucket = record entry { ticket = 6 };
  pc =
      update (update (update (update (λ _. waiting) 0 looping) 1 looping) 1 (swapping 3)) 1 storing;
}

won-Reach : Reach mutations entry won
unfolding load cas
won-Reach =
    later
      (later (later (later start (pick 0 begin)) (pick 1 begin))
        (pick 1 (is_older refl (omega arith))))
      (pick 1 (win refl))

last_ticket_example :
    (3 ≤ won.bucket.ticket)
    × ((i : ℕ) → won.pc i ≡ returned → (mutations i).ticket ≤ won.bucket.ticket)
    × ((won.bucket.ticket ≡ 3) ⊎ ((j : ℕ) × (won.bucket.ticket ≡ (mutations j).ticket)))
last_ticket_example = last_ticket won-Reach
