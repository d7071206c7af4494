-- ===== src/Fabric/Reads.antt =====
-- Publish, then Lookup, through the ring and the index.
use native.Mathlib.Nat.{mod-lt}
use vautlage.Prelude.{
  ℕ, ◌+◌, ◌^◌, ◌≤◌, ◌<◌, ◌≡◌, ◌≢◌, refl, ap, sym, ◌∙◌, arith, List, none, Bool, true, false,
  if◌then◌else◌, length, bit_and, bit_or,
}
use vautlage.Prelude.Bits.{bit_or-one, bit_and-one}
use vautlage.Atomics.{add}
use vautlage.Gate.{is_closed}
use vautlage.Record.{Record}
use vautlage.Ring
use vautlage.Ring.{Ring, Cell, Header, index, cell, fill, occupancy_pct, payload_slice}
use vautlage.Ring.Valid.{IsValid, seq_at, index_eq}
use vautlage.Ring.Publish.{stored, at_commit}
use vautlage.Ring.Entries.{cell-write_self, payload-fill}
use vautlage.Index.{KeyIndex, Entry, upsert}
use vautlage.Index
use vautlage.Index.Lookup.{Addressable, found}
use vautlage.Fabric.{Vaultage, Shard, put_shard, route, mark_saturated, admit, publish, lookup}
use vautlage.Fabric.Total.{put_shard_self}
use vautlage.Fabric.Outcome.{issued, recorded}
use vautlage.Fabric.Tickets.{mark_saturated-shard, mark_saturated-SameShape}

-- The ring after the record of `pos` is published and the commit index stands at `n`.
abbrev pub holding : Ring → ℕ → Header → List ℕ → ℕ → Ring
holding r pos h payload n = at_commit (stored r pos h payload) n

-- What Lookup delivers of the record with this header and payload.
abbrev pub delivered_by : Ring → ℕ → Header → List ℕ → Record → Record
delivered_by r pos h payload rec = record rec {
  ticket = h.ticket;
  timestamp = h.timestamp;
  key = h.key;
  epoch = r.epoch;
  checksum = h.checksum;
  flags = bit_or h.flags 1;
  slot = index r pos;
  payload = payload;
}

module _ {r : Ring} (v : IsValid r) (pos : ℕ) (h : Header) (payload : List ℕ) (n : ℕ) where
  -- The cell that the index entry points at.
  held : (holding r pos h payload n).cells (index r pos) ≡ (fill r pos h payload).1
  unfolding cell Ring.write_cell
  held = cell-write_self r pos (fill r pos h payload).1

  fill-committed : bit_and (fill r pos h payload).1.flags 1 ≢ 0
  unfolding fill
  fill-committed e = ground (arith, bit_or-one h.flags, bit_and-one (bit_or h.flags 1))

  fill-len : (fill r pos h payload).1.len ≡ length payload
  unfolding fill
  fill-len = ground arith

  pub holding-Addressable :
      length payload ≤ r.payload_cap → Addressable (holding r pos h payload n) (index r pos) h.key
  unfolding fill Ring.write_cell
  holding-Addressable fits = record {
    within =
        omega (arith, index_eq v pos, v.many, mod-lt pos {m = r.capacity} (omega (arith, v.many)));
    keyed = ap (λ (c : Cell). c.key) held;
    committed = λ e. fill-committed (ap (λ (c : Cell). bit_and c.flags 1) (sym held) ∙ e);
    sized = omega (arith, ap (λ (c : Cell). c.len) held, fill-len);
  }

  pub found-holding :
      (rec : Record)
      → found (holding r pos h payload n) (index r pos) h.key rec ≡ delivered_by r pos h payload rec
  unfolding fill
  found-holding rec =
      ap
        (λ (c : Cell). record rec {
          ticket = c.ticket;
          timestamp = c.timestamp;
          key = h.key;
          epoch = c.epoch;
          checksum = c.checksum;
          flags = c.flags;
          slot = index r pos;
          payload = payload_slice c c.len;
        })
        held
      ∙ ap
          (λ p. record rec {
            ticket = h.ticket;
            timestamp = h.timestamp;
            key = h.key;
            epoch = r.epoch;
            checksum = h.checksum;
            flags = bit_or h.flags 1;
            slot = index r pos;
            payload = p;
          })
          (payload-fill r pos h payload)

-- The call passes the guards of publish, and the ring of its shard has a free cell.
pub record Admits (v : Vaultage) (key : ℕ) (payload : List ℕ) : Type 0 where
  pub keyed : key ≢ 0
  pub fits : length payload ≤ v.payload_cap
  pub running : v.ctl.running ≢ 0
  pub opened : is_closed v.valve ≡ false
  pub ring : IsValid (v.shards (route v key)).ring
  pub cap : (v.shards (route v key)).ring.payload_cap ≡ v.payload_cap
  pub small :
      (v.shards (route v key)).ring.tail + 1 + (v.shards (route v key)).ring.capacity < 2 ^ 64
  pub free :
      seq_at (v.shards (route v key)).ring (v.shards (route v key)).ring.tail
      ≡ (v.shards (route v key)).ring.tail

pub publish_admits :
    (fuel wall : ℕ) {v : Vaultage} {key : ℕ} {payload : List ℕ} (flags : ℕ)
    → Admits v key payload
    → publish fuel wall v key payload flags ≡ admit fuel wall v key payload flags
unfolding publish
publish_admits fuel wall {v} {key} {payload} flags a =
    ground (arith, a.keyed, a.fits, a.running, a.opened)

-- An engine whose shard `sid` has this ring and index.
abbrev Shows : Vaultage → Vaultage → ℕ → Ring → KeyIndex → Type 0
Shows v w sid r x =
    ((w.shards sid).ring ≡ r) × ((w.shards sid).index ≡ x) × (w.shard_msk ≡ v.shard_msk)

recorded-Shows :
    (v : Vaultage) (sid : ℕ) (r₀ r : Ring) (x : KeyIndex)
    → Shows v (recorded (issued v sid r₀) sid r x) sid r x
unfolding put_shard
recorded-Shows v sid r₀ r x =
    let self = put_shard_self (issued v sid r₀) sid (record ((issued v sid r₀).shards sid) {
      ring = r;
      ingested = add ((issued v sid r₀).shards sid).ingested 1;
      index = x;
    }) in
    (ap (λ (sh : Shard). sh.ring) self, ap (λ (sh : Shard). sh.index) self, refl)

pub tested-Shows :
    (v : Vaultage) (sid : ℕ) (r₀ r : Ring) (x : KeyIndex) (b : Bool)
    → let w = recorded (issued v sid r₀) sid r x in
      Shows v (if b then mark_saturated w sid else w) sid r x
tested-Shows v sid r₀ r x false = recorded-Shows v sid r₀ r x
tested-Shows v sid r₀ r x true =
    let w : Vaultage = recorded (issued v sid r₀) sid r x in
    let s : Shows v w sid r x = recorded-Shows v sid r₀ r x in
    let m = mark_saturated-shard w sid in
    (m.0 ∙ s.0, m.1 ∙ s.1, (mark_saturated-SameShape w sid).shard_msk ∙ s.2)

pub lookup_found :
    (v w : Vaultage) (key : ℕ) (r : Ring) (x : KeyIndex) (rec : Record) {out : Record}
    → key ≢ 0
    → Shows v w (route v key) r x
    → Index.lookup x key r rec ≡ (none, out)
    → lookup w key rec ≡ (none, record out { shard = route v key })
unfolding lookup route
lookup_found v w key r x rec {out} nz (ring, index, mask) e = ground arith
