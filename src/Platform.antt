-- ===== src/Platform.antt =====
-- What arena.go calls of the platform files: the functions sysMapAnon, sysMapHuge, sysUnmap,
-- sysAdviseHuge, sysPin, sysUnpin and sysPinThreadToCore, and the system calls under them, which are
-- parameters. `S` is the state of the operating system: its address space and its memory. An address
-- is a 64-bit word, nil is 0.
pub mod View
pub mod Linux
pub mod Darwin
pub mod Unsupported
pub mod Manual
pub mod Lawful
pub mod Affinity
use vautlage.Prelude.{ℕ, Option, none, some, if◌then◌else◌, ◌==◌, bit_or}
use vautlage.Errors.{Error, errno, Result, ok, err}

abbrev pub huge_page_size : ℕ
huge_page_size = 2097152

-- syscall: the constants that the source names, and the raw calls with their arguments in the order
-- of the source. mmap answers an address and an error number, the others an error number, and 0
-- stands for none; Mlock and Munlock answer an error that may be nil. The words of a CPU set are a
-- function from their index. `write` is a store of a byte through a pointer.
pub record Os (S : Type 0) : Type 0 where
  pub page_size : ℕ
  pub prot_read : ℕ
  pub prot_write : ℕ
  pub map_private : ℕ
  pub map_anon : ℕ
  pub mmap : ℕ → ℕ → ℕ → ℕ → ℕ → ℕ → S → ℕ × ℕ × S
  pub munmap : ℕ → ℕ → S → ℕ × S
  pub madvise : ℕ → ℕ → ℕ → S → ℕ × S
  pub mlock : ℕ → ℕ → S → Option Error × S
  pub munlock : ℕ → ℕ → S → Option Error × S
  pub sched_setaffinity : ℕ → ℕ → (ℕ → ℕ) → S → ℕ × S
  pub write : ℕ → ℕ → S → S

-- The functions of a platform file, with Getpagesize and the store.
pub record Platform (S : Type 0) : Type 0 where
  pub page_size : ℕ
  pub map_anon : ℕ → S → Result ℕ × S
  pub map_huge : ℕ → S → Result ℕ × S
  pub unmap : ℕ → ℕ → S → Option Error × S
  pub advise_huge : ℕ → ℕ → S → Option Error × S
  pub pin : ℕ → ℕ → S → Option Error × S
  pub unpin : ℕ → ℕ → S → Option Error × S
  pub pin_thread_to_core : ℕ → S → Option Error × S
  pub write : ℕ → ℕ → S → S

module _ {S : Type 0} where
  -- `if errno != 0 { return nil, errno }; return unsafe.Pointer(r), nil`
  unfoldable pub address : ℕ × ℕ × S → Result ℕ × S
  address (r, code, s) = if code == 0 then (ok r, s) else (err (errno code), s)

  -- `if errno != 0 { return errno }; return nil`
  unfoldable pub outcome : ℕ × S → Option Error × S
  outcome (code, s) = if code == 0 then (none, s) else (some (errno code), s)

  -- The mapping of readable and writable memory, with the flags and the file descriptor given.
  unfoldable pub map_memory : Os S → ℕ → ℕ → ℕ → S → Result ℕ × S
  unfolding address
  map_memory os length flags fd s =
      address (os.mmap 0 length (bit_or os.prot_read os.prot_write) flags fd 0 s)

  -- sysUnmap, the same on both platforms that have one.
  unfoldable pub unmap_range : Os S → ℕ → ℕ → S → Option Error × S
  unfolding outcome
  unmap_range os p length s =
      if p == 0
      then (none, s)
      else if length == 0
      then (none, s)
      else outcome (os.munmap p length s)
