-- ===== src/Fabric/Drain.antt =====
-- Drain: it delivers the records that wait, in the order of the shards and of their queues.
use Prim.Native.Nat.{min}
use vautlage.Prelude.{
  ℕ, zero, suc, ◌+◌, ◌-◌, ◌^◌, ◌≤◌, ◌<◌, ◌≡◌, ◌⊎◌, inl, inr, refl, ap, sym, ◌∙◌, arith, List, [],
  ◌∷◌, ◌++◌, Option, some, true, false, not, ◌||◌, Bool-cases, if◌then◌else◌, add64, length,
}
use vautlage.Record.{Record}
use vautlage.Ring.Fifo.{Fifo}
use vautlage.Ring.Models.{Models}
use vautlage.Config.{int_lt}
use vautlage.Fabric.{Vaultage}
use vautlage.Fabric.Consume.{Scene, deliver, drain_shard}
use vautlage.Fabric.Handed.{tagged, Handed, Handed-none, Handed-cons, deliver_lem}

-- How many of `n` records a Drain delivers that has delivered `total`: all of them, up to a positive max.
unfoldable pub quota : ℕ → ℕ → ℕ → ℕ
unfolding int_lt
quota max total n = if int_lt 0 max then min n (max - total) else n

module _ {W : Type 0} (max : ℕ) (word : max < 2 ^ 64) (h : Option (Record → W → W)) where
  -- A run of the loop of one shard: the records that it delivered and those that it left.
  abbrev pub Drains : ℕ → ℕ → Scene W → Fifo → Option (ℕ × Scene W) → Type 0
  Drains sid total s q end =
      (xs : List Record) × (ys : List Record) × (t : Scene W) × (q.items ≡ xs ++ ys)
      × (end ≡ some (total + length xs, t))
      × (length xs ≡ quota max total (length q.items))
      × Handed h sid s t xs (record { items = ys; count = q.count })

  drain_shard_stop :
      (fuel sid total : ℕ) (s : Scene W)
      → (not (int_lt 0 max) || int_lt total max) ≡ false
      → drain_shard (suc fuel) max h sid total s ≡ some (total, s)
  unfolding drain_shard
  drain_shard_stop fuel sid total s e = ground arith

  drain_shard_break :
      (fuel sid total : ℕ) (s : Scene W) {t : Scene W}
      → (not (int_lt 0 max) || int_lt total max) ≡ true
      → deliver (suc fuel) h sid s ≡ some (false, t)
      → drain_shard (suc fuel) max h sid total s ≡ some (total, t)
  unfolding drain_shard
  drain_shard_break fuel sid total s {t} e f = ground arith

  drain_shard_next :
      (fuel sid total : ℕ) (s : Scene W) {t : Scene W}
      → (not (int_lt 0 max) || int_lt total max) ≡ true
      → deliver (suc fuel) h sid s ≡ some (true, t)
      → drain_shard (suc fuel) max h sid total s ≡ drain_shard fuel max h sid (add64 total 1) t
  unfolding drain_shard
  drain_shard_next fuel sid total s {t} e f = ground arith

  -- The quota, at the two tests of the loop.
  quota_spent :
      (total n : ℕ)
      → total < 2 ^ 63
      → (not (int_lt 0 max) || int_lt total max) ≡ false
      → quota max total n ≡ 0
  unfolding quota int_lt
  quota_spent total n small e = ground arith

  pub quota_none : (total : ℕ) → quota max total 0 ≡ 0
  unfolding quota
  quota_none total = ground arith

  quota_more :
      (total n : ℕ)
      → total < 2 ^ 63
      → (not (int_lt 0 max) || int_lt total max) ≡ true
      → quota max total (suc n) ≡ suc (quota max (total + 1) n)
  unfolding quota int_lt
  quota_more total n small e = ground arith

  pub drain_shard_lem :
      (fuel sid total : ℕ) (s : Scene W) {q : Fifo}
      → Models (s.engine.shards sid).ring q
      → length q.items < fuel
      → total + length q.items < 2 ^ 63
      → Drains sid total s q (drain_shard fuel max h sid total s)
  unfolding drain_shard
  drain_shard_lem zero sid total s m enough small = absurd (omega arith)
  drain_shard_lem (suc fuel) sid total s {q} m enough small =
      elim (Bool-cases (not (int_lt 0 max) || int_lt total max)) [
        | inr spent ↦ (
          [],
          q.items,
          s,
          refl,
          drain_shard_stop fuel sid total s spent ∙ ap (λ n. some (n, s)) (omega arith),
          sym (quota_spent total (length q.items) (omega arith) spent),
          Handed-none h sid s m,
        )
        | inl going ↦ elim (deliver_lem h sid fuel s m) [
          | inl (empty, (t, run, handed)) ↦ (
            [],
            q.items,
            t,
            refl,
            drain_shard_break fuel sid total s going run ∙ ap (λ n. some (n, t)) (omega arith),
            sym (ap (λ xs. quota max total (length xs)) empty ∙ quota_none total),
            handed,
          )
          | inr (x, xs, first, (t, run, handed)) ↦
              let counted : length q.items ≡ suc (length xs) = ap length first in
              let (ys, zs, u, split, end, many, rest) =
                drain_shard_lem fuel sid (total + 1) t handed.models (omega arith) (omega arith) in
              let next : add64 total 1 ≡ total + 1 = omega arith in
              (
                x ∷ ys,
                zs,
                u,
                first ∙ ap (◌∷◌ x) split,
                drain_shard_next fuel sid total s going run
                    ∙ ap (λ n. drain_shard fuel max h sid n t) next
                    ∙ end
                    ∙ ap (λ n. some (n, u)) (omega arith),
                ap suc many
                    ∙ sym (
                        ap (quota max total) counted
                        ∙ quota_more total (length xs) (omega arith) going),
                Handed-cons h sid handed rest,
              )
        ]
      ]

-- What the rings of `n` shards from shard `i` on hold, in the order of a sweep over them.
abbrev pub Waits : ℕ → ℕ → Vaultage → List Record → Type 0
Waits zero i v ys = ys ≡ []
Waits (suc n) i v ys =
    (q : Fifo) × (zs : List Record) × Models (v.shards i).ring q
    × (ys ≡ tagged i q.items ++ zs)
    × Waits n (suc i) v zs

pub Waits-frame :
    (n i : ℕ) (v w : Vaultage) (ys : List Record)
    → ((j : ℕ) → i ≤ j → (w.shards j).ring ≡ (v.shards j).ring)
    → Waits n i v ys
    → Waits n i w ys
Waits-frame zero i v w ys same e = e
Waits-frame (suc n) i v w ys same (q, zs, m, e, rest) = (
  q,
  zs,
  rw (same i (omega arith)) m,
  e,
  Waits-frame n (suc i) v w zs (λ j lt. same j (omega arith)) rest,
)

-- Two queues cut in two, the second one not at all unless the first one is used up.
pub regroup :
    (a b c d : List Record) → (b ≡ []) ⊎ (c ≡ []) → (a ++ b) ++ (c ++ d) ≡ (a ++ c) ++ (b ++ d)
regroup [] [] c d h = refl
regroup [] (x ∷ b) c d (inl e) = absurd (cc)
regroup [] (x ∷ b) [] d (inr e) = refl
regroup [] (x ∷ b) (y ∷ c) d (inr e) = absurd (cc)
regroup (x ∷ a) b c d h = ap (◌∷◌ x) (regroup a b c d h)

pub empty_of_length : (xs : List Record) → length xs ≡ 0 → xs ≡ []
empty_of_length [] e = refl
empty_of_length (x ∷ xs) e = absurd (omega arith)

module _ (max : ℕ) (word : max < 2 ^ 64) where
  pub quota-add :
      (total a b : ℕ)
      → total + (a + b) < 2 ^ 63
      → quota max total (a + b) ≡ quota max total a + quota max (total + quota max total a) b
  unfolding quota int_lt
  quota-add total a b small = ground arith

  pub quota_reached :
      (total a b : ℕ)
      → total + a < 2 ^ 63
      → quota max total a < a
      → quota max (total + quota max total a) b ≡ 0
  unfolding quota int_lt
  quota_reached total a b small lt = ground arith
