-- ===== src/Fabric/Outcome.antt =====
-- How a call of publish ends.
use native.Mathlib.Decide.{ℕ_discrete, dec_lt}
use vautlage.Prelude.{
  carry_some, Option-cases, ℕ, ◌≤◌, ◌<◌, ◌≡◌, ◌≢◌, ◌⊎◌, inl, inr, sym, ◌∙◌, arith, List, Option,
  none, some, Bool, true, false, Bool-cases, leb, if◌then◌else◌, length,
}
use vautlage.Errors.{
  Error, config, payload_too_large, closed, backpressure, shard_full, Result, ok, err,
}
use vautlage.Atomics.{add}
use vautlage.Gate.{is_closed, reject}
use vautlage.Record.{checksum32}
use vautlage.Ring
use vautlage.Ring.{Ring, Header, claim, occupancy_pct}
use vautlage.Index.{KeyIndex, upsert}
use vautlage.Fabric.{
  Vaultage, Shard, put_shard, route, now, mark_saturated, refuse, entry_of, ingest, admit, publish,
}

-- The engine after the ticket was issued and the claim has left `r` as the ring.
abbrev pub issued : Vaultage → ℕ → Ring → Vaultage
issued v sid r =
    put_shard (record v { ctl = record v.ctl { ticket = add v.ctl.ticket 1 } }) sid
      (record (v.shards sid) { ring = r })

-- The engine after the record was published into ring `r`, and `x` is the index.
abbrev pub recorded : Vaultage → ℕ → Ring → KeyIndex → Vaultage
recorded w sid r x =
    put_shard w sid
      (record (w.shards sid) { ring = r; ingested = add (w.shards sid).ingested 1; index = x })

-- The ways a call of publish with route `sid` ends.
pub data Publishes (v : Vaultage) (sid : ℕ) : Result ℕ → Vaultage → Type 0 where
  refused : (e : Error) → Publishes v sid (err e) v
  frozen : Publishes v sid (err backpressure) (record v { valve = reject v.valve })
  full : (r : Ring) → Publishes v sid (err shard_full) (refuse (issued v sid r) sid)
  kept :
      (r r' : Ring) (x : KeyIndex)
      → Publishes v sid (ok (add v.ctl.ticket 1)) (recorded (issued v sid r) sid r' x)
  kept_hot :
      (r r' : Ring) (x : KeyIndex)
      → Publishes v sid
          (ok (add v.ctl.ticket 1))
          (mark_saturated (recorded (issued v sid r) sid r' x) sid)

module _ (fuel wall : ℕ) (w : Vaultage) (sid pos ticket key flags : ℕ) (payload : List ℕ)
    (sum : ℕ) where
  abbrev pub header_of : Header
  header_of = record {
    ticket = ticket;
    key = key;
    timestamp = now wall w;
    flags = flags;
    checksum = sum;
  }

  pub ingest-none :
      Ring.publish fuel (w.shards sid).ring pos header_of payload ≡ none
      → ingest fuel wall w sid pos ticket key flags payload sum ≡ none
  unfolding ingest
  ingest-none e = ground arith

  ingest_lost :
      {n : ℕ} {r : Ring}
      → Ring.publish fuel (w.shards sid).ring pos header_of payload ≡ some (n, r)
      → upsert fuel (w.shards sid).index (entry_of ticket key pos r) r ≡ none
      → ingest fuel wall w sid pos ticket key flags payload sum ≡ none
  unfolding ingest
  ingest_lost {n} {r} e f = ground arith

  pub ingest_done :
      {n : ℕ} {r : Ring} {failed : Option Error} {x : KeyIndex}
      → Ring.publish fuel (w.shards sid).ring pos header_of payload ≡ some (n, r)
      → upsert fuel (w.shards sid).index (entry_of ticket key pos r) r ≡ some (failed, x)
      → ingest fuel wall w sid pos ticket key flags payload sum
        ≡ some (
          ok ticket,
          if leb w.cfg.high_water_pct (occupancy_pct r)
              then mark_saturated (recorded w sid r x) sid
              else recorded w sid r x,
        )
  unfolding ingest
  ingest_done {n} {r} {failed} {x} e f = ground arith

module _ (v : Vaultage) (sid : ℕ) (r : Ring) where
  -- After the saturation test, whichever way it went.
  tested :
      (r' : Ring) (x : KeyIndex) (b : Bool)
      → Publishes v sid (ok (add v.ctl.ticket 1)) (
          if b
          then mark_saturated (recorded (issued v sid r) sid r' x) sid
          else recorded (issued v sid r) sid r' x)
  tested r' x true = kept_hot r r' x
  tested r' x false = kept r r' x

  ingest-Publishes :
      (fuel wall pos key flags : ℕ) (payload : List ℕ) (sum : ℕ) {res : Result ℕ} {v' : Vaultage}
      → ingest fuel wall (issued v sid r) sid pos (add v.ctl.ticket 1) key flags payload sum
        ≡ some (res, v')
      → Publishes v sid res v'
  ingest-Publishes fuel wall pos key flags payload sum {res} {v'} e =
      elim (Option-cases (Ring.publish fuel sh.ring pos header payload)) [
        | inl lost ↦
            let stop =
              sym (ingest-none fuel wall w sid pos ticket key flags payload sum lost) ∙ e in
            absurd (ground arith)
        | inr ((n, r'), published) ↦
            elim (Option-cases (upsert fuel sh.index (entry_of ticket key pos r') r')) [
              | inl lost ↦
                  let stop =
                    sym
                      (ingest_lost fuel wall w sid pos ticket key flags payload sum published lost)
                    ∙ e in
                  absurd (ground arith)
              | inr ((failed, x), indexed) ↦
                  carry_some (Publishes v sid)
                    (sym (
                        ingest_done fuel wall w sid pos ticket key flags payload sum published
                          indexed)
                      ∙ e)
                    (tested r' x (leb w.cfg.high_water_pct (occupancy_pct r')))
            ]
      ]
    where
      w : Vaultage
      w = issued v sid r

      sh : Shard
      sh = w.shards sid

      ticket : ℕ
      ticket = add v.ctl.ticket 1

      header : Header
      header = header_of fuel wall w sid pos ticket key flags payload sum

module _ (fuel wall : ℕ) (v : Vaultage) (key : ℕ) (payload : List ℕ) (flags : ℕ) where
  abbrev pub sum_for : ℕ
  sum_for = if v.cfg.checksums then checksum32 payload else 0

  admit-none :
      claim fuel (v.shards (route v key)).ring ≡ none → admit fuel wall v key payload flags ≡ none
  unfolding admit
  admit-none e = ground arith

  pub admit_full :
      {r : Ring}
      → claim fuel (v.shards (route v key)).ring ≡ some (none, r)
      → admit fuel wall v key payload flags
        ≡ some (err shard_full, refuse (issued v (route v key) r) (route v key))
  unfolding admit
  admit_full {r} e = ground arith

  pub admit_claimed :
      {r : Ring} {pos : ℕ}
      → claim fuel (v.shards (route v key)).ring ≡ some (some pos, r)
      → admit fuel wall v key payload flags
        ≡ ingest fuel wall
            (issued v (route v key) r)
            (route v key)
            pos
            (add v.ctl.ticket 1)
            key
            flags
            payload
            sum_for
  unfolding admit
  admit_claimed {r} {pos} e = ground arith

  admit-Publishes :
      {res : Result ℕ} {v' : Vaultage}
      → admit fuel wall v key payload flags ≡ some (res, v')
      → Publishes v (route v key) res v'
  admit-Publishes {res} {v'} e = elim (Option-cases (claim fuel (v.shards (route v key)).ring)) [
    | inl none_yet ↦ let stop = sym (admit-none none_yet) ∙ e in absurd (ground arith)
    | inr ((none, r), busy) ↦
        carry_some (Publishes v (route v key)) (sym (admit_full busy) ∙ e) (full r)
    | inr ((some pos, r), claimed) ↦
        ingest-Publishes v (route v key) r fuel wall pos key flags payload sum_for
          (sym (admit_claimed claimed) ∙ e)
  ]

  -- The guards, in the order of the code.
  pub data Refusal : Error → Type 0 where
    zero_key : key ≡ 0 → Refusal config
    long : key ≢ 0 → v.payload_cap < length payload → Refusal payload_too_large
    stopped : key ≢ 0 → length payload ≤ v.payload_cap → v.ctl.running ≡ 0 → Refusal closed
    shut :
        key ≢ 0
        → length payload ≤ v.payload_cap
        → v.ctl.running ≢ 0
        → is_closed v.valve ≡ true
        → Refusal backpressure

  -- What the guards decide.
  pub publish_guards :
      ((e : Error) × Refusal e × (publish fuel wall v key payload flags ≡ some (err e, v)))
      ⊎ (Refusal backpressure
          × (publish fuel wall v key payload flags
              ≡ some (err backpressure, record v { valve = reject v.valve })))
      ⊎ ((key ≢ 0)
          × (is_closed v.valve ≡ false)
          × (publish fuel wall v key payload flags ≡ admit fuel wall v key payload flags))
  unfolding publish
  publish_guards = elim (ℕ_discrete key 0) [
    | yes z ↦ inl (config, zero_key z, ground arith)
    | no nz ↦ elim (dec_lt v.payload_cap (length payload)) [
      | yes l ↦ inl (payload_too_large, long nz l, ground arith)
      | no nl ↦ elim (ℕ_discrete v.ctl.running 0) [
        | yes s ↦ inl (closed, stopped nz (omega arith) s, ground arith)
        | no ns ↦ elim (Bool-cases (is_closed v.valve)) [
          | inl c ↦ inr (inl (shut nz (omega arith) ns c, ground arith))
          | inr o ↦ inr (inr (nz, o, ground arith))
        ]
      ]
    ]
  ]

  -- A call of publish that returns has ended in one of these ways.
  pub publish-Publishes :
      {res : Result ℕ} {v' : Vaultage}
      → publish fuel wall v key payload flags ≡ some (res, v')
      → Publishes v (route v key) res v'
  publish-Publishes {res} {v'} e = elim publish_guards [
    | inl (failed, _, run) ↦ carry_some (Publishes v (route v key)) (sym run ∙ e) (refused failed)
    | inr (inl (_, run)) ↦ carry_some (Publishes v (route v key)) (sym run ∙ e) frozen
    | inr (inr (_, _, run)) ↦ admit-Publishes (sym run ∙ e)
  ]
