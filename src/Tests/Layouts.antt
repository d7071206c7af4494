-- ===== src/Tests/Layouts.antt =====
-- Address arithmetic, the digest, the gate and the configuration.
use vautlage.Prelude.{
  ℕ, ◌+◌, ◌*◌, ◌^◌, ◌≤◌, ◌<◌, ◌≡◌, ◌⊎◌, inl, refl, arith, List, [], ◌∷◌, some, none,
}
use vautlage.Errors.{config}
use vautlage.Layout.{cell_at, payload_at, cell_stride_for, ring_bytes}
use vautlage.Layout.Matrix.{Fits, cell_stride_for_lem, cell_at_disjoint}
use vautlage.Gate.Latch.{IsLatch, shut, release, reject, Call, apply_all, apply_all-IsLatch}
use vautlage.Config.{Config, normalize}
use vautlage.Config.Normal.{Normalizes, normalize_lem, normalize_diverges}
use vautlage.Tests.Data.{open_gate, settings}

matrix-Fits : Fits 4096 8 448
matrix-Fits = record {
  aligned = refl;
  payload = omega arith;
  room = omega (arith, cell_stride_for_lem 448 (omega arith));
}

cell_at_disjoint_example :
    (payload_at (cell_at 4096 2 (cell_stride_for 448)) + 448 ≤ cell_at 4096 7 (cell_stride_for 448))
    × (payload_at (cell_at 4096 7 (cell_stride_for 448)) + 448 ≤ 4096 + ring_bytes 8 448)
cell_at_disjoint_example = cell_at_disjoint matrix-Fits 2 7 (omega arith) (omega arith)

open_gate-IsLatch : IsLatch open_gate
open_gate-IsLatch = record {
  window = (omega arith, omega arith);
  latched = inl (refl, refl);
  word = omega arith;
}

abbrev busy : List Call
busy = shut ∷ reject ∷ shut ∷ release ∷ release ∷ shut ∷ []

apply_all-IsLatch_example : IsLatch (apply_all busy open_gate)
apply_all-IsLatch_example = apply_all-IsLatch busy open_gate open_gate-IsLatch

abbrev asked : Config
asked = record settings { shards = 6; high_water_pct = 0 }

normalize_lem_example :
    (c' : Config) × (((normalize (63 + 0) 4 asked ≡ some (none, c'))
        × ((k : ℕ) × (c'.shards ≡ 2 ^ k) × (6 ≤ 2 ^ k) × (2 ^ k < 2 * 6))
        × Normalizes (record asked { shards = c'.shards }) c')
      ⊎ (normalize (63 + 0) 4 asked ≡ some (some config, c')))
normalize_lem_example =
    normalize_lem 0 4 6 asked (omega arith) (omega arith) (inl (omega arith, omega arith, refl))
      (omega arith) (omega arith)

normalize_diverges_example :
    normalize 100 4 (record settings { shards = 4611686018427387905 }) ≡ none
normalize_diverges_example =
    normalize_diverges 100 4 (record settings { shards = 4611686018427387905 }) (omega arith)
      (omega arith)
