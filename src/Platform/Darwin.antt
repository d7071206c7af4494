-- ===== src/Platform/Darwin.antt =====
-- arena_darwin.go.
use vautlage.Prelude.{ℕ, ◌%◌, Option, none, some, if◌then◌else◌, ◌==◌, not64, bit_or}
use vautlage.Errors.{Error, unsupported_platform, config, Result, err}
use vautlage.Platform.{huge_page_size, Os, Platform, outcome, map_memory, unmap_range}

-- 2 << 16
abbrev pub sys_vm_flags_superpage2mb : ℕ
sys_vm_flags_superpage2mb = 131072

abbrev sys_madv_will_need : ℕ
sys_madv_will_need = 3

module _ {S : Type 0} (os : Os S) where
  unfoldable pub sys_map_anon : ℕ → S → Result ℕ × S
  unfolding map_memory
  sys_map_anon length s = map_memory os length (bit_or os.map_private os.map_anon) (not64 0) s

  -- The flag of the superpage stands in the place of the file descriptor.
  unfoldable pub sys_map_huge : ℕ → S → Result ℕ × S
  unfolding map_memory
  sys_map_huge length s =
      if length % huge_page_size == 0
      then map_memory os length (bit_or os.map_private os.map_anon) sys_vm_flags_superpage2mb s
      else (err config, s)

  -- It answers an error in every case.
  unfoldable pub sys_advise_huge : ℕ → ℕ → S → Option Error × S
  unfolding outcome
  sys_advise_huge p length s =
      let (failed, s') = outcome (os.madvise p length sys_madv_will_need s) in
      elim failed [ some e ↦ (some e, s') | none ↦ (some unsupported_platform, s') ]

  unfoldable pub sys_pin_thread_to_core : ℕ → S → Option Error × S
  sys_pin_thread_to_core core s = (some unsupported_platform, s)

  abbrev pub darwin : Platform S
  darwin = record {
    page_size = os.page_size;
    map_anon = sys_map_anon;
    map_huge = sys_map_huge;
    unmap = unmap_range os;
    advise_huge = sys_advise_huge;
    pin = os.mlock;
    unpin = os.munlock;
    pin_thread_to_core = sys_pin_thread_to_core;
    write = os.write;
  }
