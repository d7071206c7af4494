-- ===== src/Fabric/Readback.antt =====
-- Lookup finds what publish has just stored.
use vautlage.Prelude.{
  ℕ, suc, ◌+◌, ◌^◌, ◌≤◌, ◌<◌, ◌≡◌, ◌⊎◌, inl, inr, ap, ◌∙◌, arith, List, Option, none, some,
  if◌then◌else◌, leb, length,
}
use vautlage.Errors.{Error, ok}
use vautlage.Atomics.{add}
use vautlage.Record.{Record, checksum32}
use vautlage.Ring
use vautlage.Ring.{Ring, Header, index, occupancy_pct}
use vautlage.Ring.Claim.{claimed, claim_free, claimed-IsValid, claimed-Claimed}
use vautlage.Ring.Publish.{publish_lem}
use vautlage.Index.{KeyIndex, Entry, upsert}
use vautlage.Index.Find.{probed, Passed}
use vautlage.Index.Upsert.{home, upsert_lem}
use vautlage.Index.Laws.{lookup-upsert}
use vautlage.Fabric.{Vaultage, Shard, put_shard, route, now, mark_saturated, publish, lookup}
use vautlage.Fabric.Total.{put_shard_self}
use vautlage.Fabric.Outcome.{issued, recorded, admit_claimed, ingest_done}
use vautlage.Fabric.Reads.{
  Admits, holding, holding-Addressable, delivered_by, found-holding, publish_admits, tested-Shows,
  lookup_found,
}

-- The entries for the key in its shard's index are of tickets already issued.
abbrev pub IsIssued : Vaultage → ℕ → Type 0
IsIssued v key =
    let x : KeyIndex = (v.shards (route v key)).index in
    (p : ℕ)
    → p < 16
    → (probed x (home x key) p).key ≡ key
    → (probed x (home x key) p).ticket ≤ v.ctl.ticket

module _ (fuel wall : ℕ) {v : Vaultage} {key : ℕ} {payload : List ℕ} (flags : ℕ)
    (a : Admits v key payload)
    (enough : (v.shards (route v key)).ring.tail < (v.shards (route v key)).ring.commit + fuel)
    (number : v.ctl.ticket + 1 < 2 ^ 64) where
  abbrev ring₀ : Ring
  ring₀ = (v.shards (route v key)).ring

  abbrev index₀ : KeyIndex
  index₀ = (v.shards (route v key)).index

  -- The header that the record of this call gets.
  abbrev pub header : Header
  header = record {
    ticket = add v.ctl.ticket 1;
    key = key;
    timestamp = now wall v;
    flags = flags;
    checksum = if v.cfg.checksums then checksum32 payload else 0;
  }

  abbrev waiting : Vaultage
  waiting = issued v (route v key) (claimed ring₀)

  waiting-shard :
      waiting.shards (route v key) ≡ record (v.shards (route v key)) { ring = claimed ring₀ }
  waiting-shard = put_shard_self _ (route v key) _

  -- The call reaches the ring, which hands it the tail, and then the index.
  published :
      (n : ℕ) × (Ring.publish (suc fuel) (claimed ring₀) ring₀.tail header payload
        ≡ some (length payload, holding (claimed ring₀) ring₀.tail header payload n))
  published =
      let (n, run, _, _) =
        publish_lem (suc fuel) (claimed-IsValid a.ring a.small a.free)
          (claimed-Claimed a.ring a.free) header payload (omega (arith, enough)) in
      (n, run)

  -- The ring and the index entry that result.
  abbrev ring₁ : ℕ → Ring
  ring₁ n = holding (claimed ring₀) ring₀.tail header payload n

  abbrev entry₁ : Entry
  entry₁ = record { key = key; ticket = add v.ctl.ticket 1; slot = index ring₀ ring₀.tail }

  finished :
      {n : ℕ} {failed : Option Error} {x : KeyIndex}
      → Ring.publish (suc fuel) (claimed ring₀) ring₀.tail header payload
        ≡ some (length payload, ring₁ n)
      → upsert (suc fuel) index₀ entry₁ (ring₁ n) ≡ some (failed, x)
      → publish (suc fuel) wall v key payload flags
        ≡ some (
          ok (add v.ctl.ticket 1),
          if leb v.cfg.high_water_pct (occupancy_pct (ring₁ n))
              then mark_saturated (recorded waiting (route v key) (ring₁ n) x) (route v key)
              else recorded waiting (route v key) (ring₁ n) x,
        )
  unfolding put_shard Ring.write_cell now
  finished {n} {failed} {x} run indexed =
      publish_admits (suc fuel) wall flags a
      ∙ admit_claimed (suc fuel) wall v key payload flags (claim_free fuel a.ring a.small a.free)
      ∙ ingest_done (suc fuel) wall waiting (route v key) ring₀.tail (add v.ctl.ticket 1) key flags
          payload _
          (ap (λ (sh : Shard). Ring.publish (suc fuel) sh.ring ring₀.tail header payload)
              waiting-shard
            ∙ run)
          (ap (λ (sh : Shard). upsert (suc fuel) sh.index entry₁ (ring₁ n)) waiting-shard ∙ indexed)

  -- A record that passes the guards while its shard, whose ring is valid with cursors short of 2 ^ 64,
  -- has a free cell is accepted, whatever other producers have in flight, if the index entries for its
  -- key are of tickets already issued and the fuel exceeds what the ring holds uncommitted: publish returns, with the next ticket. Lookup of its key then delivers
  -- exactly this record, with the payload, flags and ticket of the call; only if all 16 buckets of the
  -- key's probe sequence hold other keys may the record be missing from the index.
  pub publish-lookup :
      IsIssued v key
      → (rec : Record)
      → (v' : Vaultage) × (publish (suc fuel) wall v key payload flags
          ≡ some (ok (add v.ctl.ticket 1), v'))
        × ((lookup v' key rec ≡ (
          none,
          record (delivered_by ring₀ ring₀.tail header payload rec) { shard = route v key },
        ))
            ⊎ Passed index₀ (home index₀ key) key 16)
  unfolding Ring.write_cell add
  publish-lookup old rec =
      let (n, run) = published in
      elim (upsert_lem fuel index₀ entry₁ (ring₁ n) a.keyed) [
        | inr (full, passed, _) ↦ (_, finished run full, inr passed)
        | inl (x, indexed, _) ↦ (
          _,
          finished run indexed,
          inl (
              lookup_found v _ key (ring₁ n) x rec a.keyed
                (tested-Shows v (route v key) (claimed ring₀) (ring₁ n) x
                  (leb v.cfg.high_water_pct (occupancy_pct (ring₁ n))))
                (lookup-upsert fuel index₀ entry₁ (ring₁ n) a.keyed (omega arith)
                    (λ p lt same. omega (arith, old p lt same))
                    (holding-Addressable (claimed-IsValid a.ring a.small a.free) ring₀.tail header
                      payload n (omega (arith, a.fits, a.cap)))
                    indexed rec
                  ∙ ap (λ o. (none, o))
                      (found-holding (claimed-IsValid a.ring a.small a.free) ring₀.tail header
                        payload n rec))),
        )
      ]
