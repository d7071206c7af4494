-- ===== src/Fabric/Sweep.antt =====
-- Drain over all shards.
use vautlage.Prelude.{
  ℕ, zero, suc, ◌+◌, ◌^◌, ◌<◌, ◌≡◌, ◌⊎◌, inl, inr, refl, ap, sym, ◌∙◌, arith, List, [], ◌++◌,
  Option, some, length, length-append,
}
use native.Mathlib.Decide.{dec_lt}
use vautlage.Record.{Record}
use vautlage.Fabric.{mark_drained}
use vautlage.Fabric.Consume.{Scene, drain_shard, drain_from, drain}
use vautlage.Fabric.Handed.{
  tagged, length-tagged, tagged-append, handle_all, handle_all-append, Handed, Handed-mark_drained,
}
use vautlage.Fabric.Drain.{
  quota, quota_none, drain_shard_lem, Waits, Waits-frame, regroup, empty_of_length, quota-add,
  quota_reached,
}

module _ {W : Type 0} (max : ℕ) (word : max < 2 ^ 64) (h : Option (Record → W → W)) (fuel : ℕ) where
  -- A sweep over `n` shards from shard `i` on has delivered the first of the records that waited.
  abbrev pub Sweeps : ℕ → ℕ → ℕ → Scene W → List Record → Option (ℕ × Scene W) → Type 0
  Sweeps n i total s all end =
      (xs : List Record) × (ys : List Record) × (t : Scene W) × (all ≡ xs ++ ys)
      × (end ≡ some (total + length xs, t))
      × (length xs ≡ quota max total (length all))
      × (t.world ≡ handle_all h xs s.world)
      × Waits n i t.engine ys
      × ((j : ℕ) → j < i → (t.engine.shards j).ring ≡ (s.engine.shards j).ring)

  drain_from_next :
      (n i total : ℕ) (s : Scene W) {m : ℕ} {t : Scene W}
      → drain_shard fuel max h i total s ≡ some (m, t)
      → drain_from fuel max h (suc n) i total s
        ≡ drain_from fuel max h n (suc i) m (record t { engine = mark_drained t.engine i })
  unfolding drain_from
  drain_from_next n i total s {m} {t} e = ground arith

  drain_from_lem :
      (n i total : ℕ) (s : Scene W) (all : List Record)
      → Waits n i s.engine all
      → length all < fuel
      → total + length all < 2 ^ 63
      → Sweeps n i total s all (drain_from fuel max h n i total s)
  unfolding drain_from handle_all tagged
  drain_from_lem zero i total s all e enough small =
      let nothing : length all ≡ 0 = ap length e in
      let nothing_due : 0 ≡ quota max total (length all) =
        sym (ap (quota max total) nothing ∙ quota_none max word h total) in
      ([], all, s, refl, ap (λ n. some (n, s)) (omega arith), nothing_due, refl, e, λ j lt. refl)
  drain_from_lem (suc n) i total s all (q, zs, m, split, rest) enough small =
      let sizes : length all ≡ length q.items + length zs =
        ap length split
        ∙ length-append (tagged i q.items) zs
        ∙ ap (λ k. k + length zs) (length-tagged i q.items) in
      let (xs, ys, t, cut, run, many, handed) =
        drain_shard_lem max word h fuel i total s m (omega arith) (omega arith) in
      let u : Scene W = record t { engine = mark_drained t.engine i } in
      let handed' : Handed h i s u xs (record { items = ys; count = q.count }) =
        Handed-mark_drained h i handed in
      let counts : length q.items ≡ length xs + length ys = ap length cut ∙ length-append xs ys in
      let still : Waits n (suc i) u.engine zs =
        Waits-frame n (suc i) s.engine u.engine zs (λ j lt. handed'.others j (λ e. omega arith))
          rest in
      let (xs', ys', w, cut', run', many', world', left, kept) =
        drain_from_lem n (suc i) (total + length xs) u zs still (omega arith) (omega arith) in
      let queue : length all ≡ length (xs ++ ys) + length zs =
        sizes ∙ ap (λ (r : List Record). length r + length zs) cut in
      let shares : length (tagged i xs) ≡ length xs = length-tagged i xs in
      let joined : length (tagged i xs ++ xs') ≡ length xs + length xs' =
        length-append (tagged i xs) xs' ∙ ap (λ k. k + length xs') shares in
      let due : length xs + length xs' ≡ quota max total (length all) = sym (
        ap (quota max total) sizes
        ∙ quota-add max word total (length q.items) (length zs) (omega arith)
        ∙ ap (λ k. k + quota max (total + k) (length zs)) (sym many)
        ∙ ap (λ k. length xs + k) (sym many')) in
      let spent : (tagged i ys ≡ []) ⊎ (xs' ≡ []) = elim (dec_lt (length xs) (length q.items)) [
        | yes lt ↦ inr (
            empty_of_length xs' (
              many'
              ∙ ap (λ k. quota max (total + k) (length zs)) many
              ∙ quota_reached max word total (length q.items) (length zs) (omega arith)
                  (rw (sym many) lt)))
        | no ge ↦ inl (ap (tagged i) (empty_of_length ys (omega arith)))
      ] in
      (
        tagged i xs ++ xs',
        tagged i ys ++ ys',
        w,
        split
            ∙ ap (λ r. tagged i r ++ zs) cut
            ∙ ap (λ r. r ++ zs) (tagged-append i xs ys)
            ∙ ap (λ r. (tagged i xs ++ tagged i ys) ++ r) cut'
            ∙ regroup (tagged i xs) (tagged i ys) xs' ys' spent,
        drain_from_next n i total s run ∙ run' ∙ ap (λ k. some (k, w)) (omega arith),
        joined ∙ due,
        world'
            ∙ ap (handle_all h xs') handed'.world
            ∙ sym (handle_all-append h (tagged i xs) xs' s.world),
        (
          record { items = ys; count = q.count },
          ys',
          rw (kept i (omega arith)) handed'.models,
          refl,
          left,
        ),
        λ j lt. kept j (omega arith) ∙ handed'.others j (λ e. omega arith),
      )

  -- Drain returns. When the rings of the shards hold `all`, fewer than 2^63 records, in the order of
  -- the shards and, in a shard, of its queue, it delivers the first of them, all of them or up to a
  -- positive max, calls the handler on each once and in this order, with the record's shard, returns
  -- their number, and the rest stays in the rings, in its order. Fuel above the number of records is
  -- enough.
  pub drain_lem :
      (s : Scene W) (all : List Record)
      → Waits s.engine.shard_n 0 s.engine all
      → length all < fuel
      → length all < 2 ^ 63
      → (xs : List Record) × (ys : List Record) × (t : Scene W) × (all ≡ xs ++ ys)
        × (drain fuel max h s ≡ some (length xs, t))
        × (length xs ≡ quota max 0 (length all))
        × (t.world ≡ handle_all h xs s.world)
        × Waits s.engine.shard_n 0 t.engine ys
  unfolding drain
  drain_lem s all waits enough small =
      let (xs, ys, t, cut, run, many, world, left, kept) =
        drain_from_lem s.engine.shard_n 0 0 s all waits enough (omega arith) in
      (xs, ys, t, cut, run ∙ ap (λ k. some (k, t)) (omega arith), many, world, left)
