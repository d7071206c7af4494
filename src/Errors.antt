-- ===== src/Errors.antt =====
-- errors.go: the error values of the package, and results that may carry one.
use vautlage.Prelude.{ℕ, ◌≡◌, ◌⊎◌, inl, inr, refl}

-- The constants Err… of errors.go; `errno` is an error number of the operating system.
pub data Error : Type 0 where
  backpressure shard_full payload_too_large closed not_found index_full : Error
  unsupported_platform pin_failed config : Error
  errno : ℕ → Error

pub data Result {ℓ} (A : Type ℓ) : Type ℓ where
  ok : A → Result A
  err : Error → Result A

pub Result-cases {ℓ} :
    {A : Type ℓ} (r : Result A) → ((a : A) × (r ≡ ok a)) ⊎ ((e : Error) × (r ≡ err e))
Result-cases (ok a) = inl (a, refl)
Result-cases (err e) = inr (e, refl)
