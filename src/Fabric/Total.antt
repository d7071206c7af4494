-- ===== src/Fabric/Total.antt =====
-- Sums over the shards of the engine, and its data after a write to one of them.
use native.Mathlib.Decide.{ℕ_discrete}
use mathlib.Core.Path.{subst}
use vautlage.Prelude.{
  ℕ, zero, suc, ◌+◌, ◌≤◌, ◌<◌, ◌≡◌, ◌≢◌, refl, ap, arith, update, update_self, update_ne,
}
use vautlage.Fabric.{Vaultage, Shard, put_shard}

unfoldable pub total : ℕ → (ℕ → ℕ) → ℕ
total zero f = 0
total (suc n) f = total n f + f n

-- A field of the shards, summed.
abbrev pub sum_of : (Shard → ℕ) → Vaultage → ℕ
sum_of g v = total v.shard_n (λ i. g (v.shards i))

total_outside :
    (n : ℕ) (g : Shard → ℕ) (shs : ℕ → Shard) (i : ℕ) (sh : Shard)
    → n ≤ i
    → total n (λ j. g (update shs i sh j)) ≡ total n (λ j. g (shs j))
unfolding total
total_outside zero g shs i sh le = refl
total_outside (suc n) g shs i sh le =
    let here : g (update shs i sh n) ≡ g (shs n) = ap g (update_ne shs i n sh (omega arith)) in
    omega (arith, total_outside n g shs i sh (omega arith))

pub total-update :
    (n : ℕ) (g : Shard → ℕ) (shs : ℕ → Shard) (i : ℕ) (sh : Shard)
    → i < n
    → total n (λ j. g (update shs i sh j)) + g (shs i) ≡ total n (λ j. g (shs j)) + g sh
unfolding total
total-update zero g shs i sh lt = absurd (omega arith)
total-update (suc n) g shs i sh lt = elim (ℕ_discrete n i) [
  | yes e ↦
      let here : g (update shs i sh n) ≡ g sh =
        subst (λ k. g (update shs k sh n) ≡ g sh) e (ap g (update_self shs n sh)) in
      let old : g (shs n) ≡ g (shs i) = ap (λ k. g (shs k)) e in
      omega (arith, total_outside n g shs i sh (omega arith))
  | no ne ↦
      let here : g (update shs i sh n) ≡ g (shs n) = ap g (update_ne shs i n sh ne) in
      omega (arith, total-update n g shs i sh (omega arith))
]

pub total_bits : (n : ℕ) (f : ℕ → ℕ) → ((i : ℕ) → i < n → f i ≤ 1) → total n f ≤ n
unfolding total
total_bits zero f h = omega arith
total_bits (suc n) f h =
    omega (arith, h n (omega arith), total_bits n f (λ i lt. h i (omega arith)))

-- The sum after a write to the block of one shard.
pub sum_of-put_shard :
    (g : Shard → ℕ) (v : Vaultage) (sid : ℕ) (sh : Shard)
    → sid < v.shard_n
    → sum_of g (put_shard v sid sh) + g (v.shards sid) ≡ sum_of g v + g sh
unfolding put_shard
sum_of-put_shard g v sid sh lt = total-update v.shard_n g v.shards sid sh lt

pub put_shard_self : (v : Vaultage) (sid : ℕ) (sh : Shard) → (put_shard v sid sh).shards sid ≡ sh
unfolding put_shard
put_shard_self v sid sh = update_self v.shards sid sh

pub put_shard_other :
    (v : Vaultage) (sid : ℕ) (sh : Shard) (i : ℕ)
    → i ≢ sid
    → (put_shard v sid sh).shards i ≡ v.shards i
unfolding put_shard
put_shard_other v sid sh i ne = update_ne v.shards sid i sh ne
