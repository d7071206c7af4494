-- ===== src/Tests/Rings.antt =====
-- The ring: of two cells with one record in it, and of one cell.
use vautlage.Prelude.{
  ℕ, ◌+◌, ◌-◌, ◌≤◌, ◌<◌, ◌≡◌, ◌⊎◌, refl, arith, [], ◌∷◌, List, none, some, true, length, ◌^◌,
}
use vautlage.Errors.{ok}
use vautlage.Record.{blank}
use vautlage.Ring.{
  Ring, init_ring, claim, publish, advance_commit, dequeue, release, read_cell, pending, committed,
}
use vautlage.Ring.Valid.{IsValid, Claimed, Taken, seq_at}
use vautlage.Ring.Claim.{claimed, claimed-IsValid, claimed-Claimed, claim_lem}
use vautlage.Ring.Publish.{stored, at_commit, Advanced, advance_commit_lem, publish_lem}
use vautlage.Ring.Dequeue.{taken, taken-IsValid, dequeue_lem, release_lem}
use vautlage.Ring.Fifo.{Op, put, get, accepted, fifo_run, ring_step, ring_run}
use vautlage.Ring.Models.{Models}
use vautlage.Ring.Refine.{ring_run-refines}
use vautlage.Ring.Init.{init_ring-Models}
use vautlage.Ring.Limits.{IsSingle, IsLast, single_cell_loses, wrapped_stalls}
use vautlage.Tests.Data.{header, bytes, committed_cell, two, two-IsValid, two_queue, two-Models}

abbrev calls : List Op
calls = put header bytes ∷ put header [] ∷ get blank ∷ get blank ∷ get blank ∷ []

ring_run-refines_example : ring_run calls two ≡ some (fifo_run 2 7 calls two_queue)
ring_run-refines_example = ring_run-refines calls two-Models (omega arith)

claim_lem_example :
    ((claim 1 two ≡ some (some 1, claimed two))
      × IsValid (claimed two)
      × Claimed (claimed two) 1
      × (seq_at two 1 ≡ 1))
    ⊎ ((claim 1 two ≡ some (none, two))
        × (2 ≤ two.tail)
        × ((seq_at two (1 - 2) ≡ 1 - 2) ⊎ (seq_at two (1 - 2) ≡ 1 - 2 + 1)))
claim_lem_example = claim_lem 0 two-IsValid (omega arith)

abbrev mine : Ring
mine = claimed two

mine-IsValid : IsValid mine
mine-IsValid = claimed-IsValid two-IsValid (omega arith) refl

mine-Claimed : Claimed mine 1
mine-Claimed = claimed-Claimed two-IsValid refl

publish_lem_example :
    (n : ℕ) × (publish 2 mine 1 header bytes
      ≡ some (length bytes, at_commit (stored mine 1 header bytes) n))
    × Advanced (stored mine 1 header bytes) n
    × (seq_at (stored mine 1 header bytes) 1 ≡ 2)
publish_lem_example = publish_lem 2 mine-IsValid mine-Claimed header bytes (omega arith)

advance_commit_lem_example :
    (n : ℕ) × (advance_commit 2 mine ≡ some (at_commit mine n)) × Advanced mine n
advance_commit_lem_example = advance_commit_lem 2 mine-IsValid (omega arith)

dequeue_lem_example :
    ((two.head < two.commit)
      × (dequeue 1 two blank ≡ some (some 0, read_cell two 0 blank, taken two))
      × IsValid (taken two)
      × Taken (taken two) 0)
    ⊎ ((two.head ≡ two.commit) × (dequeue 1 two blank ≡ some (none, blank, two)))
dequeue_lem_example = dequeue_lem 0 two-IsValid blank

two-Taken : Taken (taken two) 0
two-Taken = record { given = omega arith; recent = omega arith; turn = refl }

release_lem_example : IsValid (release (taken two) 0) × (seq_at (release (taken two) 0) 2 ≡ 2)
release_lem_example = release_lem (taken-IsValid two-IsValid (omega arith)) two-Taken

init_ring-Models_example :
    (s : Ring) × (init_ring two 4096 8 448 3 ≡ ok s)
    × Models s (record { items = []; count = 0 })
    × (s.capacity ≡ 8)
    × (s.epoch ≡ 3)
init_ring-Models_example = init_ring-Models two 4096 3 448 3 (omega arith) (omega arith) refl

abbrev single : Ring
single = record two { cells = λ i. committed_cell 1 1 9; capacity = 1; mask = 0 }

single-IsSingle : IsSingle single
single-IsSingle = record {
  one = refl;
  masked = refl;
  waiting = (refl, refl);
  turn = refl;
  fresh = omega arith;
}

single_cell_loses_example :
    (s : Ring) × (ring_step (put header bytes) single ≡ some (accepted true, s))
    × (committed s ≡ 2)
    × ((t : Ring) × (dequeue 1 s blank ≡ some (none, blank, t)))
single_cell_loses_example = single_cell_loses single-IsSingle header bytes blank

-- A record waits, and tail and commit are at the last position before the wrap.
abbrev last : Ring
last = record two {
  cells = λ i. committed_cell 18446744073709551615 18446744073709551614 9;
  tail = 18446744073709551615;
  commit = 18446744073709551615;
  head = 18446744073709551614;
}

last-IsLast : IsLast last
last-IsLast = record { last = (refl, refl); begun = omega arith; behind = omega arith; free = refl }

wrapped_stalls_example :
    (committed last + 18446744073709551614 + 1 ≡ 2 ^ 64)
    × ((s : Ring) × (ring_step (put header bytes) last ≡ some (accepted true, s))
        × (s.head ≡ 18446744073709551614)
        × (dequeue 1 s blank ≡ some (none, blank, s))
        × (pending s ≡ 0)
        × (committed s ≡ 0))
wrapped_stalls_example = wrapped_stalls last-IsLast header bytes 0 blank
