-- ===== src/Atomics.antt =====
-- atomics.go and padU64 of cacheline.go: one 64-bit word under sequentially consistent operations.
-- A word in memory is its value. An operation returns its result and the value it leaves behind.
use vautlage.Prelude.{ℕ, Bool, true, false, if◌then◌else◌, ◌==◌, add64}

unfoldable pub load : ℕ → ℕ
load v = v

unfoldable pub store : ℕ → ℕ → ℕ
store v x = x

-- The new value is both the result and what the word holds.
unfoldable pub add : ℕ → ℕ → ℕ
add v delta = add64 v delta

unfoldable pub cas : ℕ → ℕ → ℕ → Bool × ℕ
cas v old new = if v == old then (true, new) else (false, v)
