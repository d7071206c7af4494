-- ===== src/Tests/Threads.antt =====
-- Two producers and a consumer over a ring of two cells.
use vautlage.Prelude.{ℕ, zero, suc, ◌+◌, ◌-◌, ◌≤◌, ◌≡◌, ◌≢◌, ◌⊎◌, inl, inr, some, refl, arith, []}
use mathlib.Core.Path.{subst}
use vautlage.Ring.{index, payload_slice}
use vautlage.Ring.Valid.{seq_at}
use vautlage.Ring.Models.{Models}
use vautlage.Ring.Threads.{Pc, idle, broken}
use vautlage.Ring.Threads.Defs.{held, Helps}
use vautlage.Ring.Threads.Facts.{published_at}
use vautlage.Ring.Threads.Safety.{exclusive_cells, never_broken, whole_record, true_saturation}
use vautlage.Ring.Threads.Quiescence.{IsOutside, logged, commit_not_behind, quiescent-Models}
use vautlage.Tests.Data.{header, bytes}
use vautlage.Tests.Schedule.{put_record, get_record, Run, turns, begin, untouched, untouched-IsNew}

-- Threads 0 and 1 have claimed, and thread 2 is about to find the ring full.
abbrev crowded : Run untouched
crowded =
    turns 2 2 (put_record header [])
      (turns 4 1 (put_record header []) (turns 4 0 (put_record header bytes) (begin untouched)))

crowded_steps : crowded.steps ≡ 10
unfolding turns
crowded_steps = refl

exclusive_cells_example : index crowded.last.mem.ring 0 ≢ index crowded.last.mem.ring 1
unfolding turns
exclusive_cells_example =
    exclusive_cells untouched-IsNew (omega (arith, crowded_steps)) crowded.reach 0 1
      (λ e. omega arith) refl refl

true_saturation_example :
    let ring = crowded.last.mem.ring in
    (2 ≡ ring.tail)
    × (ring.capacity ≤ 2)
    × (((j : ℕ) × (held (crowded.last.pc j) ≡ some (2 - ring.capacity)))
        ⊎ ((ring.head ≤ 2 - ring.capacity)
            × (seq_at ring (2 - ring.capacity) ≡ 2 - ring.capacity + 1)))
unfolding turns
true_saturation_example =
    true_saturation untouched-IsNew (omega (arith, crowded_steps)) crowded.reach 2 refl
      (omega arith)

never_broken_example : crowded.last.pc 2 ≢ broken 0
unfolding turns
never_broken_example = never_broken untouched-IsNew (omega (arith, crowded_steps)) crowded.reach 2 0

-- Thread 1 has published position 1 and returned, before thread 0 has announced position 0.
abbrev early : Run untouched
early = turns 17 1 (put_record header []) (turns 4 0 (put_record header bytes) (begin untouched))

early_steps : early.steps ≡ 21
unfolding turns
early_steps = refl

early_pc : (i : ℕ) → (early.last.pc i ≡ Pc.claim_won 0) ⊎ (early.last.pc i ≡ idle)
unfolding turns
early_pc zero = inl refl
early_pc (suc zero) = inr refl
early_pc (suc (suc i)) = inr (ground arith)

early-IsOutside : (i : ℕ) → IsOutside (early.last.pc i)
early-IsOutside i c h = elim (early_pc i) [
  | inl e ↦ subst (Helps c) e h
  | inr e ↦ subst (Helps c) e h
]

commit_not_behind_example :
    let ring = early.last.mem.ring in
    (ring.commit ≡ ring.tail)
    ⊎ ((j : ℕ) × (held (early.last.pc j) ≡ some ring.commit)
        × (seq_at ring ring.commit ≡ ring.commit))
commit_not_behind_example =
    commit_not_behind untouched-IsNew (omega (arith, early_steps)) early.reach early-IsOutside

-- Then thread 0 publishes and moves the index past both, and thread 2 takes the first record.
abbrev delivering : Run untouched
delivering = turns 14 2 get_record (turns 20 0 (put_record header bytes) early)

delivering_steps : delivering.steps ≡ 55
unfolding turns
delivering_steps = refl

delivering_pc : delivering.last.pc 2 ≡ Pc.holding 0 (published_at delivering.last.mem 0)
unfolding turns payload_slice
delivering_pc = refl

whole_record_example :
    published_at delivering.last.mem 0 ≡ record (published_at delivering.last.mem 0) { shard = 0 }
whole_record_example =
    whole_record untouched-IsNew (omega (arith, delivering_steps)) delivering.reach 2 delivering_pc

-- One producer has published one record, and nobody else has called.
abbrev done : Run untouched
done = turns 20 0 (put_record header bytes) (begin untouched)

done_steps : done.steps ≡ 20
unfolding turns
done_steps = refl

done_pc : (i : ℕ) → done.last.pc i ≡ idle
unfolding turns
done_pc zero = refl
done_pc (suc i) = ground arith

quiescent-Models_example :
    let ring = done.last.mem.ring in
    Models ring
      (record { items = logged done.last.mem ring.head (ring.tail - ring.head); count = ring.tail })
quiescent-Models_example =
    quiescent-Models untouched-IsNew (omega (arith, done_steps)) done.reach done_pc
