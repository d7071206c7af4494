-- ===== src/Fabric/Tickets.antt =====
-- The books of the engine: every ticket is a record ingested or a record dropped.
use native.Mathlib.Decide.{ℕ_discrete, dec_le}
use mathlib.Core.Path.{subst}
use vautlage.Prelude.{ℕ, ◌+◌, ◌%◌, ◌^◌, ◌<◌, ◌≡◌, ◌⊎◌, inl, inr, refl, ap, sym, ◌∙◌, arith, not64}
use vautlage.Atomics.{add}
use vautlage.Gate.{Gate, shut, release}
use vautlage.Ring.{Ring, occupancy_pct}
use vautlage.Index.{KeyIndex}
use vautlage.Fabric.{Vaultage, Shard, put_shard, mark_saturated, mark_drained, refuse}
use vautlage.Fabric.Total.{sum_of, sum_of-put_shard, put_shard_self, put_shard_other}
use vautlage.Fabric.Outcome.{issued, recorded}

abbrev pub ingested_of : Shard → ℕ
ingested_of sh = sh.ingested

abbrev pub rejected_of : Shard → ℕ
rejected_of sh = sh.rejected

-- `n` tickets have been issued whose call has neither ingested nor dropped them.
pub record Balance (v : Vaultage) (n : ℕ) : Type 0 where
  pub tickets : v.ctl.ticket ≡ (sum_of ingested_of v + v.ctl.dropped + n) % 2 ^ 64
  pub drops : v.ctl.dropped ≡ sum_of rejected_of v % 2 ^ 64

-- A shard's block with another latch, and the counter and the valve that go with it.
abbrev latched : Vaultage → ℕ → ℕ → ℕ → Gate → Vaultage
latched v sid hot saturated gate = record (put_shard v sid (record (v.shards sid) { hot = hot })) {
  ctl = record v.ctl { saturated = saturated };
  valve = gate;
}

abbrev IsLatched : Vaultage → ℕ → Vaultage → Type 0
IsLatched v sid w = (hot saturated : ℕ) × (gate : Gate) × (w ≡ latched v sid hot saturated gate)

mark_saturated-IsLatched : (v : Vaultage) (sid : ℕ) → IsLatched v sid (mark_saturated v sid)
unfolding mark_saturated
mark_saturated-IsLatched v sid = elim (ℕ_discrete (v.shards sid).hot 0) [
  | yes cold ↦ (1, add v.ctl.saturated 1, (shut v.valve).1, ground arith)
  | no hot ↦ ((v.shards sid).hot, v.ctl.saturated, v.valve, ground arith)
]

mark_drained-IsLatched :
    (v : Vaultage) (sid : ℕ) → (mark_drained v sid ≡ v) ⊎ IsLatched v sid (mark_drained v sid)
unfolding mark_drained
mark_drained-IsLatched v sid = elim (ℕ_discrete (v.shards sid).hot 1) [
  | no cold ↦ inl (ground arith)
  | yes hot ↦ elim (dec_le (occupancy_pct (v.shards sid).ring) v.cfg.low_water_pct) [
    | no above ↦ inl (ground arith)
    | yes low ↦ elim (ℕ_discrete (add v.ctl.saturated (not64 0)) 0) [
      | yes last ↦ inr (0, add v.ctl.saturated (not64 0), (release v.valve).1, ground arith)
      | no others ↦ inr (0, add v.ctl.saturated (not64 0), v.valve, ground arith)
    ]
  ]
]

pub put_shard-Balance :
    {v : Vaultage} {n : ℕ}
    → Balance v n
    → (sid : ℕ) (sh : Shard) → sid < v.shard_n
    → sh.ingested ≡ (v.shards sid).ingested
    → sh.rejected ≡ (v.shards sid).rejected
    → Balance (put_shard v sid sh) n
unfolding put_shard
put_shard-Balance {v} {n} b sid sh lt i r = record {
  tickets = omega (arith, b.tickets, sum_of-put_shard ingested_of v sid sh lt);
  drops = omega (arith, b.drops, sum_of-put_shard rejected_of v sid sh lt);
}

latched-Balance :
    {v : Vaultage} {n : ℕ}
    → Balance v n
    → (sid : ℕ) → sid < v.shard_n
    → {w : Vaultage} → IsLatched v sid w
    → Balance w n
unfolding put_shard
latched-Balance {v} {n} b sid lt {w} (hot, saturated, gate, e) =
    let p = put_shard-Balance b sid (record (v.shards sid) { hot = hot }) lt refl refl in
    subst (λ w. Balance w n) (sym e) (record { tickets = p.tickets; drops = p.drops })

pub mark_saturated-Balance :
    {v : Vaultage} {n : ℕ}
    → Balance v n
    → (sid : ℕ) → sid < v.shard_n
    → Balance (mark_saturated v sid) n
mark_saturated-Balance {v} {n} b sid lt = latched-Balance b sid lt (mark_saturated-IsLatched v sid)

pub mark_drained-Balance :
    {v : Vaultage} {n : ℕ}
    → Balance v n
    → (sid : ℕ) → sid < v.shard_n
    → Balance (mark_drained v sid) n
mark_drained-Balance {v} {n} b sid lt = elim (mark_drained-IsLatched v sid) [
  | inl same ↦ subst (λ w. Balance w n) (sym same) b
  | inr l ↦ latched-Balance b sid lt l
]

pub issued-Balance :
    {v : Vaultage}
    → Balance v 0
    → (sid : ℕ) (r : Ring) → sid < v.shard_n
    → Balance (issued v sid r) 1
unfolding put_shard add
issued-Balance {v} b sid r lt =
    let p = put_shard-Balance b sid (record (v.shards sid) { ring = r }) lt refl refl in
    record { tickets = omega (arith, p.tickets); drops = p.drops }

pub recorded-Balance :
    {w : Vaultage}
    → Balance w 1
    → (sid : ℕ) (r : Ring) (x : KeyIndex) → sid < w.shard_n
    → Balance (recorded w sid r x) 0
unfolding put_shard add
recorded-Balance {w} b sid r x lt =
    let next : Shard = record (w.shards sid) {
      ring = r;
      ingested = add (w.shards sid).ingested 1;
      index = x;
    } in
    record {
      tickets = omega (arith, b.tickets, sum_of-put_shard ingested_of w sid next lt);
      drops = omega (arith, b.drops, sum_of-put_shard rejected_of w sid next lt);
    }

pub refuse-Balance :
    {w : Vaultage} → Balance w 1 → (sid : ℕ) → sid < w.shard_n → Balance (refuse w sid) 0
unfolding refuse put_shard add
refuse-Balance {w} b sid lt =
    let next : Shard = record (w.shards sid) { rejected = add (w.shards sid).rejected 1 } in
    let counted : Vaultage = record (put_shard w sid next) {
      ctl = record w.ctl { dropped = add w.ctl.dropped 1 };
    } in
    let p : Balance counted 0 = record {
      tickets = omega (arith, b.tickets, sum_of-put_shard ingested_of w sid next lt);
      drops = omega (arith, b.drops, sum_of-put_shard rejected_of w sid next lt);
    } in
    mark_saturated-Balance p sid lt

-- The shape of the engine, which no call changes.
pub record SameShape (v w : Vaultage) : Type 0 where
  pub shard_n : w.shard_n ≡ v.shard_n
  pub shard_msk : w.shard_msk ≡ v.shard_msk

latched-SameShape : {v : Vaultage} (sid : ℕ) {w : Vaultage} → IsLatched v sid w → SameShape v w
unfolding put_shard
latched-SameShape {v} sid {w} (hot, saturated, gate, e) =
    subst (SameShape v) (sym e) (record { shard_n = refl; shard_msk = refl })

pub mark_saturated-SameShape : (v : Vaultage) (sid : ℕ) → SameShape v (mark_saturated v sid)
mark_saturated-SameShape v sid = latched-SameShape sid (mark_saturated-IsLatched v sid)

pub mark_drained-SameShape : (v : Vaultage) (sid : ℕ) → SameShape v (mark_drained v sid)
mark_drained-SameShape v sid = elim (mark_drained-IsLatched v sid) [
  | inl same ↦ subst (SameShape v) (sym same) (record { shard_n = refl; shard_msk = refl })
  | inr l ↦ latched-SameShape sid l
]

pub refuse-SameShape : (v : Vaultage) (sid : ℕ) → SameShape v (refuse v sid)
unfolding refuse put_shard
refuse-SameShape v sid =
    let s =
      mark_saturated-SameShape
        (record (put_shard v sid
          (record (v.shards sid) { rejected = add (v.shards sid).rejected 1 })) {
            ctl = record v.ctl { dropped = add v.ctl.dropped 1 };
          })
        sid in
    record { shard_n = s.shard_n; shard_msk = s.shard_msk }

-- markSaturated leaves the ring and the index of its shard alone.
pub mark_saturated-shard :
    (v : Vaultage) (sid : ℕ)
    → (((mark_saturated v sid).shards sid).ring ≡ (v.shards sid).ring)
      × (((mark_saturated v sid).shards sid).index ≡ (v.shards sid).index)
unfolding put_shard
mark_saturated-shard v sid =
    let (hot, saturated, gate, e) = mark_saturated-IsLatched v sid in
    let self = put_shard_self v sid (record (v.shards sid) { hot = hot }) in
    let same : (mark_saturated v sid).shards sid ≡ record (v.shards sid) { hot = hot } =
      ap (λ (w : Vaultage). w.shards sid) e ∙ self in
    (ap (λ (sh : Shard). sh.ring) same, ap (λ (sh : Shard). sh.index) same)

-- What markDrained keeps of every shard's ring, and of the control block.
pub record SameRings (v w : Vaultage) : Type 0 where
  pub ring : (i : ℕ) → (w.shards i).ring ≡ (v.shards i).ring
  pub running : w.ctl.running ≡ v.ctl.running

latched-SameRings : {v : Vaultage} (sid : ℕ) {w : Vaultage} → IsLatched v sid w → SameRings v w
unfolding put_shard
latched-SameRings {v} sid {w} (hot, saturated, gate, e) =
    let sh : Shard = record (v.shards sid) { hot = hot } in
    subst (SameRings v) (sym e) (record {
      ring = λ i. elim (ℕ_discrete i sid) [
        | yes same ↦ rw same (ap (λ (x : Shard). x.ring) (put_shard_self v sid sh))
        | no other ↦ ap (λ (x : Shard). x.ring) (put_shard_other v sid sh i other)
      ];
      running = refl;
    })

pub mark_drained-SameRings : (v : Vaultage) (sid : ℕ) → SameRings v (mark_drained v sid)
mark_drained-SameRings v sid = elim (mark_drained-IsLatched v sid) [
  | inl same ↦ subst (SameRings v) (sym same) (record { ring = λ i. refl; running = refl })
  | inr l ↦ latched-SameRings sid l
]
