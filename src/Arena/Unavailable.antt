-- ===== src/Arena/Unavailable.antt =====
-- arena.go on the platform of arena_unsupported.go: construction fails, cleanly.
use vautlage.Prelude.{ℕ, ◌≡◌, arith, Bool, not, ◌||◌, if◌then◌else◌, ◌==◌, some}
use vautlage.Errors.{config, unsupported_platform, err}
use vautlage.Layout.{is_pow2}
use vautlage.Platform.Unsupported.{unsupported}
use vautlage.Arena.{new_arena, map_and_trim}

-- Without a backend NewArena answers an error for every request and whatever is required: that the
-- platform is unsupported, unless the request or the page size is refused first. It leaves the system
-- as it was.
pub new_arena-unsupported :
    {S : Type 0} (page_size : ℕ) (write : ℕ → ℕ → S → S) (fuel request : ℕ)
    (require_huge require_pinned : Bool) (s : S)
    → new_arena (unsupported page_size write) fuel request require_huge require_pinned s
      ≡ some (
        err (if (request == 0) || not (is_pow2 page_size) then config else unsupported_platform),
        s,
      )
unfolding new_arena map_and_trim unsupported
new_arena-unsupported page_size write fuel request require_huge require_pinned s = ground arith
