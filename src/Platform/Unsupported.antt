-- ===== src/Platform/Unsupported.antt =====
-- arena_unsupported.go: the platform without a backend.
use vautlage.Prelude.{ℕ, Option, some}
use vautlage.Errors.{Error, unsupported_platform, Result, err}
use vautlage.Platform.{Platform}

module _ {S : Type 0} where
  -- sysMapAnon and sysMapHuge.
  abbrev refuse_map : ℕ → S → Result ℕ × S
  refuse_map length s = (err unsupported_platform, s)

  -- sysUnmap, sysAdviseHuge, sysPin and sysUnpin.
  abbrev refuse_range : ℕ → ℕ → S → Option Error × S
  refuse_range p length s = (some unsupported_platform, s)

  abbrev refuse_core : ℕ → S → Option Error × S
  refuse_core core s = (some unsupported_platform, s)

  -- The page size and the store are the host's.
  unfoldable pub unsupported : ℕ → (ℕ → ℕ → S → S) → Platform S
  unsupported page_size write = record {
    page_size = page_size;
    map_anon = refuse_map;
    map_huge = refuse_map;
    unmap = refuse_range;
    advise_huge = refuse_range;
    pin = refuse_range;
    unpin = refuse_range;
    pin_thread_to_core = refuse_core;
    write = write;
  }
