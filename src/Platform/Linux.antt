-- ===== src/Platform/Linux.antt =====
-- arena_linux.go.
use vautlage.Prelude.{
  ℕ, ◌/◌, ◌%◌, ◌^◌, not, Option, none, some, ◌||◌, if◌then◌else◌, ◌==◌, bit_or, not64, update,
}
use vautlage.Errors.{Error, config, Result, err}
use vautlage.Config.{int_lt}
use vautlage.Platform.{huge_page_size, Os, Platform, outcome, map_memory, unmap_range}

abbrev sys_map_hugetlb : ℕ
sys_map_hugetlb = 262144

-- 21 << 26
abbrev sys_map_huge2mb : ℕ
sys_map_huge2mb = 1409286144

abbrev sys_madv_hugepage : ℕ
sys_madv_hugepage = 14

abbrev sys_madv_dont_fork : ℕ
sys_madv_dont_fork = 10

abbrev pub huge_flags : {S : Type 0} → Os S → ℕ
huge_flags os = bit_or (bit_or (bit_or os.map_private os.map_anon) sys_map_hugetlb) sys_map_huge2mb

-- The 16 words of the CPU set, all 0 but for the bit of the core.
unfoldable pub cpu_set : ℕ → ℕ → ℕ
cpu_set core = update (λ k. 0) (core / 64) (bit_or 0 (2 ^ (core % 64)))

module _ {S : Type 0} (os : Os S) where
  unfoldable pub sys_map_anon : ℕ → S → Result ℕ × S
  unfolding map_memory
  sys_map_anon length s = map_memory os length (bit_or os.map_private os.map_anon) (not64 0) s

  unfoldable pub sys_map_huge : ℕ → S → Result ℕ × S
  unfolding map_memory
  sys_map_huge length s =
      if length % huge_page_size == 0
      then map_memory os length (huge_flags os) (not64 0) s
      else (err config, s)

  -- The second advice is tried only after the first was taken, and its result is dropped.
  unfoldable pub sys_advise_huge : ℕ → ℕ → S → Option Error × S
  unfolding outcome
  sys_advise_huge p length s =
      let (failed, s') = outcome (os.madvise p length sys_madv_hugepage s) in
      elim failed [
        | some e ↦ (some e, s')
        | none ↦ (none, (os.madvise p length sys_madv_dont_fork s').1)
      ]

  unfoldable pub sys_pin_thread_to_core : ℕ → S → Option Error × S
  unfolding outcome int_lt cpu_set
  sys_pin_thread_to_core core s =
      if int_lt core 0 || not (int_lt core 1024)
      then (some config, s)
      else outcome (os.sched_setaffinity 0 128 (cpu_set core) s)

  abbrev pub linux : Platform S
  linux = record {
    page_size = os.page_size;
    map_anon = sys_map_anon;
    map_huge = sys_map_huge;
    unmap = unmap_range os;
    advise_huge = sys_advise_huge;
    pin = os.mlock;
    unpin = os.munlock;
    pin_thread_to_core = sys_pin_thread_to_core;
    write = os.write;
  }
