-- ===== src/Fabric/Snapshot.antt =====
-- stats.go: the counts of a snapshot are the sums over the shards, and its books balance.
use mathlib.Core.Path.{subst}
use vautlage.Prelude.{
  ℕ, zero, suc, ◌+◌, ◌/◌, ◌%◌, ◌^◌, ◌≡◌, refl, ap, sym, ◌∙◌, arith, List, [], ◌∷◌, some,
  if◌then◌else◌, ltb, mul64, length, length-append, Bool-cases, inl, inr,
}
use vautlage.Atomics.{load}
use vautlage.Ring.{pending}
use vautlage.Arena
use vautlage.Arena.{Arena, ArenaStats}
use vautlage.Fabric.{Vaultage, Shard}
use vautlage.Fabric.Total.{total, sum_of}
use vautlage.Fabric.Tickets.{ingested_of, rejected_of}
use vautlage.Fabric.Session.{IsSound}
use vautlage.Fabric.Build.{Handle}
use vautlage.Fabric.Stats.{Stats, shard_stats, count_in, count_shards, stats_start, stats}

unfoldable pub sizes : List Arena → ℕ
sizes [] = 0
sizes (a ∷ xs) = a.size + sizes xs

abbrev pub consumed_of : Shard → ℕ
consumed_of sh = sh.consumed

abbrev pub pending_of : Shard → ℕ
pending_of sh = pending sh.ring

-- What the loop has counted by shard `i`, when `base` bytes were counted before.
record Counts (v : Vaultage) (base i : ℕ) (first s : Stats) : Type 0 where
  ingested : s.ingested ≡ total i (λ j. ingested_of (v.shards j)) % 2 ^ 64
  consumed : s.consumed ≡ total i (λ j. consumed_of (v.shards j)) % 2 ^ 64
  rejected : s.rejected ≡ total i (λ j. rejected_of (v.shards j)) % 2 ^ 64
  pending : s.pending ≡ total i (λ j. pending_of (v.shards j)) % 2 ^ 64
  bytes : s.arena_bytes ≡ base % 2 ^ 64
  many : length s.shard_stats ≡ i
  tickets : s.tickets ≡ first.tickets
  dropped : s.dropped ≡ first.dropped

Counts-next :
    (v : Vaultage) (base i : ℕ) (first s : Stats) (a : Arena) (capacity : ℕ)
    → Counts v base i first s
    → Counts v (base + a.size) (suc i) first (count_in (shard_stats i (v.shards i) a) s capacity).0
unfolding total count_in shard_stats load Arena.stats
Counts-next v base i first s a capacity c = record {
  ingested = omega (arith, c.ingested);
  consumed = omega (arith, c.consumed);
  rejected = omega (arith, c.rejected);
  pending = omega (arith, c.pending);
  bytes = omega (arith, c.bytes);
  many = length-append s.shard_stats (shard_stats i (v.shards i) a ∷ []) ∙ omega (arith, c.many);
  tickets = c.tickets;
  dropped = c.dropped;
}

module _ (v : Vaultage) (first : Stats) where
  count_shards_lem :
      (n i base : ℕ) (xs : List Arena) (s : Stats) (capacity : ℕ)
      → length xs ≡ n
      → Counts v base i first s
      → (s' : Stats) × (capacity' : ℕ) × (count_shards n i v xs s capacity ≡ some (s', capacity'))
        × Counts v (base + sizes xs) (i + n) first s'
  unfolding count_shards sizes
  count_shards_lem zero i base [] s capacity e c =
      let none_more : base ≡ base + 0 = omega arith in
      let last : i ≡ i + 0 = omega arith in
      (
        s,
        capacity,
        refl,
        subst (λ b. Counts v b (i + 0) first s) none_more
            (subst (λ k. Counts v base k first s) last c),
      )
  count_shards_lem zero i base (a ∷ xs) s capacity e c = absurd (omega arith)
  count_shards_lem (suc n) i base [] s capacity e c = absurd (omega arith)
  count_shards_lem (suc n) i base (a ∷ xs) s capacity e c =
      let (s₁, capacity₁) = count_in (shard_stats i (v.shards i) a) s capacity in
      let (s', capacity', run, d) =
        count_shards_lem n (suc i) (base + a.size) xs s₁ capacity₁ (omega arith)
          (Counts-next v base i first s a capacity c) in
      let bytes : base + a.size + sizes xs ≡ base + (a.size + sizes xs) = omega arith in
      let last : suc i + n ≡ i + suc n = omega arith in
      (
        s',
        capacity',
        run,
        subst (λ b. Counts v b (i + suc n) first s') bytes
            (subst (λ k. Counts v (base + a.size + sizes xs) k first s') last d),
      )

Counts-none :
    (v : Vaultage) (ctl : Arena) → Counts v ctl.size 0 (stats_start v ctl) (stats_start v ctl)
unfolding stats_start total Arena.stats
Counts-none v ctl = record {
  ingested = refl;
  consumed = refl;
  rejected = refl;
  pending = refl;
  bytes = omega arith;
  many = refl;
  tickets = refl;
  dropped = refl;
}

stats_run :
    (h : Handle) {ctl : Arena} {s : Stats} {capacity : ℕ}
    → h.ctl_arena ≡ some ctl
    → count_shards h.engine.shard_n 0 h.engine h.arenas (stats_start h.engine ctl) 0
      ≡ some (s, capacity)
    → stats h
      ≡ some (
          if ltb 0 capacity then record s { occupancy_pct = mul64 s.pending 100 / capacity } else s)
unfolding stats
stats_run h e f = ground arith

-- Stats returns on an engine that holds its control arena and one arena for each shard. It counts the
-- records ingested, consumed, rejected and pending, modulo 2^64, as the sums over the shards, and the
-- mapped bytes as the sum over all arenas; it lists every shard.
pub stats_lem :
    (h : Handle) (ctl : Arena)
    → h.ctl_arena ≡ some ctl
    → length h.arenas ≡ h.engine.shard_n
    → (st : Stats) × (stats h ≡ some st)
      × (st.ingested ≡ sum_of ingested_of h.engine % 2 ^ 64)
      × (st.consumed ≡ sum_of consumed_of h.engine % 2 ^ 64)
      × (st.rejected ≡ sum_of rejected_of h.engine % 2 ^ 64)
      × (st.pending ≡ sum_of pending_of h.engine % 2 ^ 64)
      × (st.arena_bytes ≡ (ctl.size + sizes h.arenas) % 2 ^ 64)
      × (length st.shard_stats ≡ h.engine.shard_n)
      × (st.tickets ≡ h.engine.ctl.ticket)
      × (st.dropped ≡ h.engine.ctl.dropped)
unfolding stats_start load
stats_lem h ctl held many =
    let v = h.engine in
    let (s, capacity, run, c) =
      count_shards_lem v (stats_start v ctl) v.shard_n 0 ctl.size h.arenas (stats_start v ctl) 0
        many (Counts-none v ctl) in
    let last : 0 + v.shard_n ≡ v.shard_n = omega arith in
    let c' : Counts v (ctl.size + sizes h.arenas) v.shard_n (stats_start v ctl) s =
      subst (λ k. Counts v (ctl.size + sizes h.arenas) k (stats_start v ctl) s) last c in
    elim (Bool-cases (ltb 0 capacity)) [
      | inl full ↦ (
        _,
        stats_run h held run
            ∙ ap
                (λ b.
                  some
                    (if b then record s { occupancy_pct = mul64 s.pending 100 / capacity } else s))
                full,
        c'.ingested,
        c'.consumed,
        c'.rejected,
        c'.pending,
        c'.bytes,
        c'.many,
        c'.tickets,
        c'.dropped,
      )
      | inr none_left ↦ (
        _,
        stats_run h held run
            ∙ ap
                (λ b.
                  some
                    (if b then record s { occupancy_pct = mul64 s.pending 100 / capacity } else s))
                none_left,
        c'.ingested,
        c'.consumed,
        c'.rejected,
        c'.pending,
        c'.bytes,
        c'.many,
        c'.tickets,
        c'.dropped,
      )
    ]

-- The books of a snapshot balance while the engine is in order: every ticket issued is counted as
-- ingested or as dropped, and what was dropped is what the shards have rejected.
pub stats-IsSound :
    (h : Handle) (ctl : Arena) {st : Stats}
    → h.ctl_arena ≡ some ctl
    → length h.arenas ≡ h.engine.shard_n
    → IsSound h.engine
    → stats h ≡ some st
    → (st.tickets ≡ (st.ingested + st.dropped) % 2 ^ 64) × (st.dropped ≡ st.rejected)
stats-IsSound h ctl {st} held many i run =
    let (st', run', ingested, consumed, rejected, _, _, _, tickets, dropped) =
      stats_lem h ctl held many in
    let same : some st' ≡ some st = sym run' ∙ run in
    let same' : st' ≡ st = cc in
    subst
      (λ (x : Stats). (x.tickets ≡ (x.ingested + x.dropped) % 2 ^ 64) × (x.dropped ≡ x.rejected))
      same' (omega (arith, i.balance.tickets), dropped ∙ i.balance.drops ∙ sym rejected)
