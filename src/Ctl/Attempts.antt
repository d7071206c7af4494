-- ===== src/Ctl/Attempts.antt =====
-- cmd/vaultagectl/main.go: what a run of a producer comes to, as a list of attempts.
use vautlage.Prelude.{ℕ, zero, suc, ◌+◌, ◌≡◌, arith, Option, none, some, List, [], ◌∷◌}
use vautlage.Errors.{backpressure, shard_full, Result, ok, err}
use vautlage.Fabric.{Vaultage, publish}

-- `n` keys from `key` on, each one more than the last.
unfoldable pub keys_from : ℕ → ℕ → List ℕ
keys_from key zero = []
keys_from key (suc n) = key ∷ keys_from (suc key) n

-- One call of publish for each key, in order: the answers, and the engine after them.
unfoldable pub publish_all :
    ℕ → ℕ → List ℕ → List ℕ → Vaultage → Option (List (Result ℕ) × Vaultage)
publish_all fuel wall buf [] v = some ([], v)
publish_all fuel wall buf (key ∷ keys) v = elim (publish fuel wall v key buf 0) [
  | none ↦ none
  | some (res, v') ↦ elim (publish_all fuel wall buf keys v') [
    | none ↦ none
    | some (answers, v'') ↦ some (res ∷ answers, v'')
  ]
]

pub publish_all-cons :
    (fuel wall key : ℕ) (buf keys : List ℕ) (v : Vaultage) {res : Result ℕ} {v' v'' : Vaultage}
    {answers : List (Result ℕ)}
    → publish fuel wall v key buf 0 ≡ some (res, v')
    → publish_all fuel wall buf keys v' ≡ some (answers, v'')
    → publish_all fuel wall buf (key ∷ keys) v ≡ some (res ∷ answers, v'')
unfolding publish_all
publish_all-cons fuel wall key buf keys v run rest = ground arith

-- 1 for an answer of the kind, 0 for any other.
abbrev pub is_ticket : Result ℕ → ℕ
is_ticket (ok ticket) = 1
is_ticket (err e) = 0

abbrev pub is_backpressure : Result ℕ → ℕ
is_backpressure (err backpressure) = 1
is_backpressure _ = 0

abbrev pub is_full : Result ℕ → ℕ
is_full (err shard_full) = 1
is_full _ = 0

-- How many answers are of a kind.
unfoldable pub count_of : (Result ℕ → ℕ) → List (Result ℕ) → ℕ
count_of kind [] = 0
count_of kind (res ∷ answers) = kind res + count_of kind answers
