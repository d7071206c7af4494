-- ===== src/Fabric/Returns.antt =====
-- A call of publish ends.
use native.Mathlib.Decide.{ℕ_discrete}
use mathlib.Core.Path.{subst}
use vautlage.Prelude.{
  Option, ℕ, sym, update_all, Bool, true, false, suc, ◌+◌, ◌^◌, ◌<◌, ◌≡◌, ◌≢◌, inl, inr, ap, ◌∙◌,
  arith, List, some, if◌then◌else◌, length,
}
use vautlage.Errors.{Error, Result}
use vautlage.Atomics.{add}
use vautlage.Record.{checksum32}
use vautlage.Ring
use vautlage.Ring.{Ring, Header, occupancy_pct}
use vautlage.Ring.Valid.{IsValid, seq_at}
use vautlage.Ring.Claim.{claimed, claim_free, claim_full, claimed-IsValid, claimed-Claimed}
use vautlage.Ring.Publish.{Advanced, stored, publish_lem}
use vautlage.Index.{KeyIndex, upsert}
use vautlage.Index.Upsert.{upsert_lem}
use vautlage.Fabric.{
  Vaultage, Shard, route, put_shard, mark_saturated, refuse, now, entry_of, admit, publish,
}
use vautlage.Fabric.Total.{put_shard_self}
use vautlage.Fabric.Outcome.{issued, publish_guards, admit_full, admit_claimed, ingest_done}
use vautlage.Fabric.Reads.{holding}

-- The rings of all shards, each under its shard's number.
abbrev pub AllRings : (ℕ → Ring → Type 0) → Vaultage → Type 0
AllRings Q v = (s : ℕ) → Q s (v.shards s).ring

mark_saturated-ring :
    (v : Vaultage) (sid s : ℕ) → ((mark_saturated v sid).shards s).ring ≡ (v.shards s).ring
unfolding mark_saturated
mark_saturated-ring v sid s = elim (ℕ_discrete s sid) [
  | yes e ↦ rw e (ground arith)
  | no ne ↦ ground arith
]

refuse-ring : (v : Vaultage) (sid s : ℕ) → ((refuse v sid).shards s).ring ≡ (v.shards s).ring
unfolding refuse
refuse-ring v sid s = elim (ℕ_discrete s sid) [
  | yes e ↦ rw e (mark_saturated-ring _ sid sid ∙ ground arith)
  | no ne ↦ mark_saturated-ring _ sid s ∙ ground arith
]

module _ (Q : ℕ → Ring → Type 0) where
  put_shard-AllRings :
      (v : Vaultage) (sid : ℕ) (sh : Shard)
      → Q sid sh.ring
      → AllRings Q v
      → AllRings Q (put_shard v sid sh)
  unfolding put_shard
  put_shard-AllRings v sid sh new all =
      update_all {A = Shard} (λ s x. Q s x.ring) new (λ s ne. all s)

  mark_saturated-AllRings :
      (v : Vaultage) (sid : ℕ) → AllRings Q v → AllRings Q (mark_saturated v sid)
  mark_saturated-AllRings v sid all s = subst (Q s) (sym (mark_saturated-ring v sid s)) (all s)

  tested-AllRings :
      (v : Vaultage) (sid : ℕ) (b : Bool)
      → AllRings Q v
      → AllRings Q (if b then mark_saturated v sid else v)
  tested-AllRings v sid true all = mark_saturated-AllRings v sid all
  tested-AllRings v sid false all = all

  refuse-AllRings : (v : Vaultage) (sid : ℕ) → AllRings Q v → AllRings Q (refuse v sid)
  refuse-AllRings v sid all s = subst (Q s) (sym (refuse-ring v sid s)) (all s)

module _ (fuel wall : ℕ) (v : Vaultage) (key : ℕ) (payload : List ℕ) (flags : ℕ)
    (valid : IsValid (v.shards (route v key)).ring)
    (small : (v.shards (route v key)).ring.tail + 1 + (v.shards (route v key)).ring.capacity
      < 2 ^ 64)
    (enough : (v.shards (route v key)).ring.tail
      < (v.shards (route v key)).ring.commit + fuel) where
  abbrev ring₀ : Ring
  ring₀ = (v.shards (route v key)).ring

  abbrev header : Header
  header = record {
    ticket = add v.ctl.ticket 1;
    key = key;
    timestamp = now wall v;
    flags = flags;
    checksum = if v.cfg.checksums then checksum32 payload else 0;
  }

  abbrev waiting : Vaultage
  waiting = issued v (route v key) (claimed ring₀)

  waiting-shard :
      waiting.shards (route v key) ≡ record (v.shards (route v key)) { ring = claimed ring₀ }
  waiting-shard = put_shard_self _ (route v key) _

  -- The rings after a call, in any case a property that a claim and a publish of the ring keep.
  module _ (Q : ℕ → Ring → Type 0) (all : AllRings Q v)
      (took : IsValid ring₀
        → seq_at ring₀ ring₀.tail ≡ ring₀.tail
        → Q (route v key) (claimed ring₀))
      (announced : (n : ℕ)
        → Advanced (stored (claimed ring₀) ring₀.tail header payload) n
        → Q (route v key) (holding (claimed ring₀) ring₀.tail header payload n)) where
    abbrev Comes : Option (Result ℕ × Vaultage) → Type 0
    Comes call = (res : Result ℕ) × (v' : Vaultage) × (call ≡ some (res, v')) × AllRings Q v'

    -- After the claim nothing stops the call, whatever the index answers.
    stores :
        {n : ℕ} {failed : Option Error} {x : KeyIndex}
        → seq_at ring₀ ring₀.tail ≡ ring₀.tail
        → Ring.publish (suc fuel) (claimed ring₀) ring₀.tail header payload
          ≡ some (length payload, holding (claimed ring₀) ring₀.tail header payload n)
        → upsert
            (suc fuel)
            (v.shards (route v key)).index
            (entry_of
              (add v.ctl.ticket 1)
              key
              ring₀.tail
              (holding (claimed ring₀) ring₀.tail header payload n))
            (holding (claimed ring₀) ring₀.tail header payload n)
          ≡ some (failed, x)
        → Q (route v key) (holding (claimed ring₀) ring₀.tail header payload n)
        → Comes (admit (suc fuel) wall v key payload flags)
    unfolding put_shard Ring.write_cell now
    stores {n} {failed} {x} free run indexed new = (
      _,
      _,
      admit_claimed (suc fuel) wall v key payload flags (claim_free fuel valid small free)
          ∙ ingest_done (suc fuel) wall waiting (route v key) ring₀.tail (add v.ctl.ticket 1) key
              flags payload _
              (ap (λ (sh : Shard). Ring.publish (suc fuel) sh.ring ring₀.tail header payload)
                  waiting-shard
                ∙ run)
              (ap
                  (λ (sh : Shard).
                    upsert (suc fuel) sh.index
                      (entry_of (add v.ctl.ticket 1) key ring₀.tail
                        (holding (claimed ring₀) ring₀.tail header payload n))
                      (holding (claimed ring₀) ring₀.tail header payload n))
                  waiting-shard
                ∙ indexed),
      tested-AllRings Q _ (route v key) _ (
          put_shard-AllRings Q waiting (route v key) _ new (
            put_shard-AllRings Q (record v { ctl = record v.ctl { ticket = add v.ctl.ticket 1 } })
              (route v key) _ (took valid free) all)),
    )

    admits-free :
        key ≢ 0
        → seq_at ring₀ ring₀.tail ≡ ring₀.tail
        → Comes (admit (suc fuel) wall v key payload flags)
    admits-free nz free =
        let (n, run, a, _) =
          publish_lem (suc fuel) (claimed-IsValid valid small free) (claimed-Claimed valid free)
            header payload (omega (arith, enough)) in
        let r : Ring = holding (claimed ring₀) ring₀.tail header payload n in
        elim (upsert_lem fuel (v.shards (route v key)).index
          (entry_of (add v.ctl.ticket 1) key ring₀.tail r) r nz) [
            | inl (x, indexed, _) ↦ stores free run indexed (announced n a)
            | inr (full, _, _) ↦ stores free run full (announced n a)
          ]

    pub publish_ends : Comes (publish (suc fuel) wall v key payload flags)
    publish_ends = elim (publish_guards (suc fuel) wall v key payload flags) [
      | inl (failed, _, run) ↦ (_, _, run, all)
      | inr (inl (_, run)) ↦ (_, _, run, all)
      | inr (inr (nz, _, run)) ↦ elim (ℕ_discrete (seq_at ring₀ ring₀.tail) ring₀.tail) [
        | no busy ↦ (
          _,
          _,
          run ∙ admit_full (suc fuel) wall v key payload flags (claim_full fuel valid busy),
          refuse-AllRings Q _ (route v key) (
              put_shard-AllRings Q (record v { ctl = record v.ctl { ticket = add v.ctl.ticket 1 } })
                (route v key) _ (all (route v key)) all),
        )
        | yes free ↦ let (res, v', end, kept) = admits-free nz free in (res, v', run ∙ end, kept)
      ]
    ]

  -- Whatever the key, the payload and the state of the gate, a call of publish returns, with a ticket or
  -- an error, if the ring of the key's shard is valid, its positions are short of 2 ^ 64, and the fuel
  -- exceeds the number of positions between its commit index and its tail.
  pub publish_returns :
      (res : Result ℕ) × (v' : Vaultage) × (publish (suc fuel) wall v key payload flags
        ≡ some (res, v'))
  publish_returns =
      let (res, v', run, _) = publish_ends (λ _ _. Unit) (λ _. tt) (λ _ _. tt) (λ _ _. tt) in
      (res, v', run)
