-- ===== src/Config/Idle.antt =====
-- The idle ladder over a whole idle period.
use vautlage.Prelude.{ℕ, zero, suc, ◌+◌, ◌≤◌, ◌<◌, ◌≡◌, ◌⊎◌, inl, arith}
use vautlage.Config.{backoff}

-- The counter after `n` empty rounds in a row.
unfoldable pub idle_after : ℕ → ℕ → ℕ
idle_after zero idle = idle
idle_after (suc n) idle = idle_after n (backoff idle).1

abbrev Climbs : ℕ → ℕ → ℕ → Type 0
Climbs n idle end = ((idle + n ≤ 4096) × (end ≡ idle + n)) ⊎ ((4096 < idle + n) × (end ≡ 4096))

rung : (idle : ℕ) → idle ≤ 4096 → Climbs 1 idle (backoff idle).1
unfolding backoff
rung idle h = ground arith

climb : (n idle : ℕ) → idle ≤ 4096 → Climbs n idle (idle_after n idle)
unfolding idle_after
climb zero idle h = inl (omega arith, omega arith)
climb (suc n) idle h =
    ground (arith, rung idle h, climb n (backoff idle).1 (ground (arith, rung idle h)))

-- A worker whose counter starts at 0 and that finds the ring empty n times in a row has counted
-- min(n, 4096): the counter climbs by one each time and then stays, so it cannot overflow.
pub idle_after_lem :
    (n : ℕ) → ((n ≤ 4096) × (idle_after n 0 ≡ n)) ⊎ ((4096 < n) × (idle_after n 0 ≡ 4096))
idle_after_lem n = omega (arith, climb n 0 (omega arith))
