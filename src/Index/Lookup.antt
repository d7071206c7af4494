-- ===== src/Index/Lookup.antt =====
-- lookup: what an answer says of the matrix, and how answers fare under upsert.
use native.Mathlib.Decide.{ℕ_discrete}
use vautlage.Prelude.{
  ℕ, zero, suc, ◌+◌, ◌≤◌, ◌<◌, ◌≡◌, ◌≢◌, refl, ap, arith, ◌∙◌, sym, false, none, some, bit_and,
}
use vautlage.Errors.{config, not_found}
use vautlage.Record.{Record, flag_committed}
use vautlage.Ring.{Ring, Cell, payload_slice}
use vautlage.Index.{Bucket, KeyIndex, is_dead, resolve, probe_from, lookup}
use vautlage.Index.Find.{probed, Passed}
use vautlage.Index.Upsert.{home}

-- The record that cell `slot` holds, as lookup copies it out.
abbrev pub found : Ring → ℕ → ℕ → Record → Record
found r slot key rec =
    let c : Cell = r.cells slot in
    record rec {
      ticket = c.ticket;
      timestamp = c.timestamp;
      key = key;
      epoch = c.epoch;
      checksum = c.checksum;
      flags = c.flags;
      slot = slot;
      payload = payload_slice c c.len;
    }

-- Cell `slot` holds a committed record of `key` that fits its payload region.
pub record Addressable (r : Ring) (slot key : ℕ) : Type 0 where
  pub within : slot < r.capacity
  pub keyed : (r.cells slot).key ≡ key
  pub committed : bit_and (r.cells slot).flags flag_committed ≢ 0
  pub sized : (r.cells slot).len ≤ r.payload_cap

pub resolve_sound :
    (b : Bucket) (key : ℕ) (r : Ring) (rec : Record) {out : Record}
    → resolve b key r rec ≡ (none, out)
    → Addressable r b.slot key × (out ≡ found r b.slot key rec) × (is_dead b key r ≡ false)
unfolding resolve is_dead
resolve_sound b key r rec e = ground arith

pub resolve-found :
    (b : Bucket) (key : ℕ) (r : Ring) (rec : Record)
    → b.ticket ≢ 0
    → Addressable r b.slot key
    → resolve b key r rec ≡ (none, found r b.slot key rec)
unfolding resolve
resolve-found b key r rec nz a = ground arith

pub probe_next :
    (x : KeyIndex) (h key : ℕ) (r : Ring) (rec : Record) (n p : ℕ)
    → (probed x h p).key ≢ 0
    → (probed x h p).key ≢ key
    → probe_from x h key r rec (suc n) p ≡ probe_from x h key r rec n (suc p)
unfolding probe_from
probe_next x h key r rec n p nz ne = ground arith

pub probe_hit :
    (x : KeyIndex) (h key : ℕ) (r : Ring) (rec : Record) (n p : ℕ)
    → key ≢ 0
    → (probed x h p).key ≡ key
    → probe_from x h key r rec (suc n) p ≡ resolve (probed x h p) key r rec
unfolding probe_from
probe_hit x h key r rec n p nz e = ground arith

pub probe_end :
    (x : KeyIndex) (h key : ℕ) (r : Ring) (rec : Record) (n p : ℕ)
    → (probed x h p).key ≡ 0
    → probe_from x h key r rec (suc n) p ≡ (some not_found, rec)
unfolding probe_from
probe_end x h key r rec n p e = ground arith

pub lookup_probe :
    (x : KeyIndex) (key : ℕ) (r : Ring) (rec : Record)
    → key ≢ 0
    → lookup x key r rec ≡ probe_from x (home x key) key r rec 16 0
unfolding lookup
lookup_probe x key r rec nz = ground arith

-- The answer of a probe sequence comes from a bucket that holds the key.
probe_sound :
    (x : KeyIndex) (h key : ℕ) (r : Ring) (rec : Record) (n p : ℕ) {out : Record}
    → key ≢ 0
    → probe_from x h key r rec n p ≡ (none, out)
    → (slot : ℕ) × Addressable r slot key × (out ≡ found r slot key rec)
unfolding probe_from
probe_sound x h key r rec zero p nz e = absurd (cc)
probe_sound x h key r rec (suc n) p nz e = elim (ℕ_discrete (probed x h p).key 0) [
  | yes z ↦ let stop = sym (probe_end x h key r rec n p z) ∙ e in absurd (ground arith)
  | no other ↦ elim (ℕ_discrete (probed x h p).key key) [
    | yes hit ↦
        let (a, same, alive) =
          resolve_sound (probed x h p) key r rec (sym (probe_hit x h key r rec n p nz hit) ∙ e) in
        ((probed x h p).slot, a, same)
    | no ne ↦
        probe_sound x h key r rec n (suc p) nz (sym (probe_next x h key r rec n p other ne) ∙ e)
  ]
]

lookup_zero : (x : KeyIndex) (r : Ring) (rec : Record) → lookup x 0 r rec ≡ (some config, rec)
unfolding lookup
lookup_zero x r rec = refl

-- Whatever the table holds, an answer of lookup is a committed record of the key that was asked for,
-- read from a cell of the matrix whose own header carries that key, and its payload fits the cell.
pub lookup_sound :
    (x : KeyIndex) (key : ℕ) (r : Ring) (rec : Record) {out : Record}
    → lookup x key r rec ≡ (none, out)
    → Addressable r out.slot key × (out ≡ found r out.slot key rec) × (key ≢ 0)
lookup_sound x key r rec {out} e = elim (ℕ_discrete key 0) [
  | yes z ↦ let refused = sym (lookup_zero x r rec) ∙ rw z at e in absurd (ground arith)
  | no nz ↦
      let (slot, a, same) =
        probe_sound x (home x key) key r rec 16 0 nz (sym (lookup_probe x key r rec nz) ∙ e) in
      let at_slot : slot ≡ out.slot = ap (λ (o : Record). o.slot) (sym same) in
      (rw at_slot at a, rw at_slot at same, nz)
]

-- The first bucket of a probe sequence that holds the key decides.
pub probe_reaches :
    (x : KeyIndex) (h key : ℕ) (r : Ring) (rec : Record) (j n p : ℕ)
    → key ≢ 0
    → (probed x h j).key ≡ key
    → Passed x h key j
    → p ≤ j
    → j < p + n
    → probe_from x h key r rec n p ≡ resolve (probed x h j) key r rec
probe_reaches x h key r rec j zero p nz hit passed lo hi = absurd (omega arith)
probe_reaches x h key r rec j (suc n) p nz hit passed lo hi = elim (ℕ_discrete p j) [
  | yes e ↦ rw e (probe_hit x h key r rec n j nz hit)
  | no ne ↦
      probe_next x h key r rec n p (passed p (omega arith)).0 (passed p (omega arith)).1
      ∙ probe_reaches x h key r rec j n (suc p) nz hit passed (omega arith) (omega arith)
]
