-- ===== src/Fabric/Delivery.antt =====
-- The workers and Drain keep the engine sound, and sessions of all the engine's calls.
use native.Mathlib.Decide.{dec_lt}
use vautlage.Prelude.{
  carry_some, Option-cases, ℕ, zero, suc, ◌+◌, ◌≤◌, ◌<◌, ◌≡◌, ◌⊎◌, inl, inr, refl, sym, ◌∙◌, arith,
  Option, none, some, Bool, true, false, not, ◌||◌, ◌&&◌, ◌==◌, Bool-cases, add64,
}
use vautlage.Atomics.{load, add}
use vautlage.Record.{Record}
use vautlage.Ring
use vautlage.Ring.{Ring, release, pending}
use vautlage.Config.{int_lt, backoff}
use vautlage.Fabric.{Vaultage, put_shard, mark_drained}
use vautlage.Fabric.Saturation.{put_shard-IsGated}
use vautlage.Fabric.Tickets.{put_shard-Balance, mark_drained-SameShape}
use vautlage.Fabric.Session.{IsSound, mark_drained-IsSound}
use vautlage.Fabric.Consume.{
  Scene, handle, deliver, batch, worker_round, drain_shard, drain_from, drain, drain_batch,
}

-- A write to a shard's ring and consumption counter.
put_ring-IsSound :
    {v : Vaultage}
    → IsSound v
    → (sid : ℕ) → sid < v.shard_n
    → (r : Ring) (n : ℕ)
    → IsSound (put_shard v sid (record (v.shards sid) { ring = r; consumed = n }))
unfolding put_shard
put_ring-IsSound {v} s sid lt r n = record {
  routed = s.routed;
  gated = put_shard-IsGated s.gated sid (record (v.shards sid) { ring = r; consumed = n }) lt refl;
  balance =
      put_shard-Balance s.balance sid (record (v.shards sid) { ring = r; consumed = n }) lt refl
        refl;
}

module _ {W : Type 0} where
  -- What consumption keeps: the engine stays sound and has as many shards.
  abbrev pub Kept : Vaultage → Scene W → Type 0
  Kept v s = IsSound s.engine × (s.engine.shard_n ≡ v.shard_n)

  deliver-none :
      (fuel : ℕ) (h : Option (Record → W → W)) (sid : ℕ) (s : Scene W)
      → Ring.dequeue fuel (s.engine.shards sid).ring s.rec ≡ none
      → deliver fuel h sid s ≡ none
  unfolding deliver
  deliver-none fuel h sid s e = ground arith

  pub deliver_empty :
      (fuel : ℕ) (h : Option (Record → W → W)) (sid : ℕ) (s : Scene W) {rec : Record} {r : Ring}
      → Ring.dequeue fuel (s.engine.shards sid).ring s.rec ≡ some (none, rec, r)
      → deliver fuel h sid s
        ≡ some (
          false,
          record s {
            engine = put_shard s.engine sid (record (s.engine.shards sid) { ring = r });
            rec = rec;
          },
        )
  unfolding deliver
  deliver_empty fuel h sid s {rec} {r} e = ground arith

  pub deliver_one :
      (fuel : ℕ) (h : Option (Record → W → W)) (sid : ℕ) (s : Scene W) {pos : ℕ} {rec : Record}
      {r : Ring}
      → Ring.dequeue fuel (s.engine.shards sid).ring s.rec ≡ some (some pos, rec, r)
      → deliver fuel h sid s
        ≡ some (
          true,
          record {
            engine = put_shard s.engine sid (record (s.engine.shards sid) {
              ring = release r pos;
              consumed = add (s.engine.shards sid).consumed 1;
            });
            rec = record rec { shard = sid };
            world = handle h (record rec { shard = sid }) s.world;
          },
        )
  unfolding deliver
  deliver_one fuel h sid s {pos} {rec} {r} e = ground arith

  abbrev Continues : Vaultage → Bool → Scene W → Type 0
  Continues v b s = Kept v s

  deliver-Kept :
      (fuel : ℕ) (h : Option (Record → W → W)) (sid : ℕ) (s : Scene W) {b : Bool} {s' : Scene W}
      → IsSound s.engine
      → sid < s.engine.shard_n
      → deliver fuel h sid s ≡ some (b, s')
      → Kept s.engine s'
  unfolding put_shard
  deliver-Kept fuel h sid s {b} {s'} i lt e =
      elim (Option-cases (Ring.dequeue fuel (s.engine.shards sid).ring s.rec)) [
        | inl lost ↦ let stop = sym (deliver-none fuel h sid s lost) ∙ e in absurd (ground arith)
        | inr ((none, rec, r), empty) ↦
            carry_some (Continues s.engine) (sym (deliver_empty fuel h sid s empty) ∙ e)
              (put_ring-IsSound i sid lt r (s.engine.shards sid).consumed, refl)
        | inr ((some pos, rec, r), one) ↦
            carry_some (Continues s.engine) (sym (deliver_one fuel h sid s one) ∙ e) (
              put_ring-IsSound i sid lt (release r pos) (add (s.engine.shards sid).consumed 1),
              refl,
            )
      ]

  abbrev Counted : Vaultage → ℕ → Scene W → Type 0
  Counted v n s = Kept v s

  batch-Kept :
      (fuel : ℕ) (h : Record → W → W) (sid left n : ℕ) (s : Scene W) {n' : ℕ} {s' : Scene W}
      → IsSound s.engine
      → sid < s.engine.shard_n
      → batch fuel h sid left n s ≡ some (n', s')
      → Kept s.engine s'
  unfolding batch
  batch-Kept fuel h sid zero n s i lt e = carry_some (Counted s.engine) e (i, refl)
  batch-Kept fuel h sid (suc left) n s {n'} {s'} i lt e =
      elim (Option-cases (deliver fuel (some h) sid s)) [
        | inl lost ↦ absurd (ground arith)
        | inr ((false, s₁), stop) ↦
            let (i₁, n₁) = deliver-Kept fuel (some h) sid s i lt stop in
            carry_some (Counted s.engine) {a = n} {a' = n'} {b = s₁} {b' = s'} (ground arith)
              (i₁, n₁)
        | inr ((true, s₁), more) ↦
            let (i₁, n₁) = deliver-Kept fuel (some h) sid s i lt more in
            let rest : batch fuel h sid left (suc n) s₁ ≡ some (n', s') = ground arith in
            let (i₂, n₂) = batch-Kept fuel h sid left (suc n) s₁ i₁ (omega arith) rest in
            (i₂, n₂ ∙ n₁)
      ]

  worker_quiet :
      (fuel : ℕ) (h : Record → W → W) (id idle n : ℕ) (s : Scene W) {s₁ : Scene W}
      → batch fuel h id drain_batch 0 s ≡ some (n, s₁)
      → ((o : Option ℕ) × ((worker_round fuel h id idle s
              ≡ some (o, record s₁ { engine = mark_drained s₁.engine id }))
            ⊎ (worker_round fuel h id idle s ≡ some (o, s₁))))
  unfolding worker_round
  worker_quiet fuel h id idle n s {s₁} e = elim (dec_lt 0 n) [
    | yes some_work ↦ (some 0, inl (ground arith))
    | no none_done ↦ elim (Bool-cases (is_over s₁ id)) [
      | inl over ↦ (none, inr (ground arith))
      | inr more ↦ (some (backoff idle).1, inr (ground arith))
    ]
  ]
    where
      is_over : Scene W → ℕ → Bool
      is_over t i = (load t.engine.ctl.running == 0) && (pending (t.engine.shards i).ring == 0)

  worker_lost :
      (fuel : ℕ) (h : Record → W → W) (id idle : ℕ) (s : Scene W)
      → batch fuel h id drain_batch 0 s ≡ none
      → worker_round fuel h id idle s ≡ none
  unfolding worker_round
  worker_lost fuel h id idle s e = ground arith

  cooled-Kept :
      (v : Vaultage) (s : Scene W) (id : ℕ)
      → Kept v s
      → id < v.shard_n
      → Kept v (record s { engine = mark_drained s.engine id })
  cooled-Kept v s id (i, n) lt =
      let shape = mark_drained-SameShape s.engine id in
      (mark_drained-IsSound i id (omega arith), shape.shard_n ∙ n)

  abbrev Returns : Vaultage → Option ℕ → Scene W → Type 0
  Returns v o s = Kept v s

  -- A round of a worker that returns keeps the engine sound.
  pub worker_round-Kept :
      (fuel : ℕ) (h : Record → W → W) (id idle : ℕ) (s : Scene W) {o : Option ℕ} {s' : Scene W}
      → IsSound s.engine
      → id < s.engine.shard_n
      → worker_round fuel h id idle s ≡ some (o, s')
      → Kept s.engine s'
  worker_round-Kept fuel h id idle s {o} {s'} i lt e =
      elim (Option-cases (batch fuel h id drain_batch 0 s)) [
        | inl lost ↦ let stop = sym (worker_lost fuel h id idle s lost) ∙ e in absurd (ground arith)
        | inr ((n, s₁), run) ↦
            let k = batch-Kept fuel h id drain_batch 0 s i lt run in
            elim (worker_quiet fuel h id idle n s run).1 [
              | inl busy ↦
                  carry_some (Returns s.engine) (sym busy ∙ e) (cooled-Kept s.engine s₁ id k lt)
              | inr quiet ↦ carry_some (Returns s.engine) (sym quiet ∙ e) k
            ]
      ]

  drain_shard-Kept :
      (fuel max : ℕ) (h : Option (Record → W → W)) (sid total : ℕ) (s : Scene W) {n' : ℕ}
      {s' : Scene W}
      → IsSound s.engine
      → sid < s.engine.shard_n
      → drain_shard fuel max h sid total s ≡ some (n', s')
      → Kept s.engine s'
  unfolding drain_shard
  drain_shard-Kept zero max h sid total s i lt e = absurd (ground arith)
  drain_shard-Kept (suc fuel) max h sid total s {n'} {s'} i lt e =
      elim (Bool-cases (not (int_lt 0 max) || int_lt total max)) [
        | inr done ↦
            carry_some (Counted s.engine) {a = total} {a' = n'} {b = s} {b' = s'} (ground arith)
              (i, refl)
        | inl going ↦ elim (Option-cases (deliver (suc fuel) h sid s)) [
          | inl lost ↦ absurd (ground arith)
          | inr ((false, s₁), stop) ↦
              let k = deliver-Kept (suc fuel) h sid s i lt stop in
              carry_some (Counted s.engine) {a = total} {a' = n'} {b = s₁} {b' = s'} (ground arith)
                k
          | inr ((true, s₁), more) ↦
              let (i₁, n₁) = deliver-Kept (suc fuel) h sid s i lt more in
              let rest : drain_shard fuel max h sid (add64 total 1) s₁ ≡ some (n', s') =
                ground arith in
              let (i₂, n₂) =
                drain_shard-Kept fuel max h sid (add64 total 1) s₁ i₁ (omega arith) rest in
              (i₂, n₂ ∙ n₁)
        ]
      ]

  drain_from-Kept :
      (fuel max : ℕ) (h : Option (Record → W → W)) (n i total : ℕ) (s : Scene W) {n' : ℕ}
      {s' : Scene W}
      → IsSound s.engine
      → i + n ≤ s.engine.shard_n
      → drain_from fuel max h n i total s ≡ some (n', s')
      → Kept s.engine s'
  unfolding drain_from
  drain_from-Kept fuel max h zero i total s ok₁ le e = carry_some (Counted s.engine) e (ok₁, refl)
  drain_from-Kept fuel max h (suc n) i total s {n'} {s'} ok₁ le e =
      elim (Option-cases (drain_shard fuel max h i total s)) [
        | inl lost ↦ absurd (ground arith)
        | inr ((t, s₁), run) ↦
            let k = drain_shard-Kept fuel max h i total s ok₁ (omega arith) run in
            let (i₂, n₂) = cooled-Kept s.engine s₁ i k (omega arith) in
            let s₂ : Scene W = record s₁ { engine = mark_drained s₁.engine i } in
            let rest : drain_from fuel max h n (suc i) t s₂ ≡ some (n', s') = ground arith in
            let (i₃, n₃) = drain_from-Kept fuel max h n (suc i) t s₂ i₂ (omega arith) rest in
            (i₃, n₃ ∙ n₂)
      ]

  pub drain-Kept :
      (fuel max : ℕ) (h : Option (Record → W → W)) (s : Scene W) {n' : ℕ} {s' : Scene W}
      → IsSound s.engine
      → drain fuel max h s ≡ some (n', s')
      → Kept s.engine s'
  unfolding drain
  drain-Kept fuel max h s i e = drain_from-Kept fuel max h s.engine.shard_n 0 0 s i (omega arith) e
