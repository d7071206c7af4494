-- ===== src/Index/Laws.antt =====
-- upsert and lookup together.
use native.Mathlib.Decide.{ℕ_discrete}
use mathlib.Core.Path.{subst}
use vautlage.Prelude.{
  carry_some, ℕ, zero, suc, ◌<◌, ◌≡◌, ◌≢◌, inl, inr, refl, ap, arith, ◌∙◌, sym, false, none, some,
  update, bit_and, add64, update_self, update_ne,
}
use vautlage.Record.{Record}
use vautlage.Ring.{Ring}
use vautlage.Index.{
  Bucket, KeyIndex, Entry, at, is_dead, hash_key, resolve, probe_from, lookup, upsert,
}
use vautlage.Index.Find.{probed, Passed, Stored}
use vautlage.Index.Upsert.{home, upsert_lem}
use vautlage.Index.Lookup.{
  Addressable, found, resolve_sound, resolve-found, probe_next, probe_hit, probe_end, lookup_probe,
  probe_reaches,
}

upsert-Stored :
    (fuel : ℕ) (x : KeyIndex) {x' : KeyIndex} (e : Entry) (r : Ring)
    → e.key ≢ 0
    → upsert (suc fuel) x e r ≡ some (none, x')
    → Stored x x' (home x e.key) e r
upsert-Stored fuel x {x'} e r nz run = elim (upsert_lem fuel x e r nz) [
  | inl (y, run', s) ↦ carry_some (λ o z. Stored x z (home x e.key) e r) (sym run' ∙ run) s
  | inr (full, _, _) ↦ let ended = sym full ∙ run in absurd (ground arith)
]

module _ {x x' : KeyIndex} {h : ℕ} {e : Entry} {r : Ring} (s : Stored x x' h e r) where
  at_same : (g p : ℕ) → at x' g p ≡ at x g p
  at_same g p = ap (λ m. bit_and (add64 g p) m) s.mask

  home_same : (key : ℕ) → home x' key ≡ home x key
  home_same key = ap (λ m. bit_and (hash_key key) m) s.mask

  probed_same : (g p : ℕ) → probed x' g p ≡ update x.table (at x h s.probe) s.bucket (at x g p)
  probed_same g p =
      ap (λ i. x'.table i) (at_same g p) ∙ ap (λ (t : ℕ → Bucket). t (at x g p)) s.table

  -- The buckets after the call, along any probe sequence.
  probed-hit : (g p : ℕ) → at x g p ≡ at x h s.probe → probed x' g p ≡ s.bucket
  probed-hit g p same =
      probed_same g p
      ∙ ap (λ i. update x.table (at x h s.probe) s.bucket i) same
      ∙ update_self x.table (at x h s.probe) s.bucket

  probed-miss : (g p : ℕ) → at x g p ≢ at x h s.probe → probed x' g p ≡ probed x g p
  probed-miss g p other =
      probed_same g p ∙ update_ne x.table (at x h s.probe) (at x g p) s.bucket other

  Passed-stored : Passed x' h e.key s.probe
  Passed-stored p lt =
      let same : probed x' h p ≡ probed x h p = probed-miss h p (s.apart p lt) in
      let old : ((probed x h p).key ≢ 0) × ((probed x h p).key ≢ e.key) = s.passed p lt in
      rw same old

  -- A bucket of another key that is passed on the way stays one.
  passed_again :
      (g key p : ℕ)
      → e.key ≢ 0
      → key ≢ e.key
      → (probed x g p).key ≢ 0
      → (probed x g p).key ≢ key
      → ((probed x' g p).key ≢ 0) × ((probed x' g p).key ≢ key)
  passed_again g key p ez other nz ne = elim (ℕ_discrete (at x g p) (at x h s.probe)) [
    | yes hit ↦
        let now : (probed x' g p).key ≡ e.key =
          ap (λ (b : Bucket). b.key) (probed-hit g p hit) ∙ s.newest.0 in
        (λ z. ez (sym now ∙ z), λ z. other (sym z ∙ now))
    | no miss ↦
        let now : (probed x' g p).key ≡ (probed x g p).key =
          ap (λ (b : Bucket). b.key) (probed-miss g p miss) in
        (λ z. nz (sym now ∙ z), λ z. ne (sym now ∙ z))
  ]

  -- The bucket written is not one that answers for another key.
  answers_elsewhere :
      (g key p : ℕ)
      → key ≢ 0
      → key ≢ e.key
      → (probed x g p).key ≡ key
      → is_dead (probed x g p) key r ≡ false
      → at x g p ≢ at x h s.probe
  answers_elsewhere g key p nz other hit alive same =
      let here : probed x g p ≡ probed x h s.probe = ap (λ i. x.table i) same in
      let held : (probed x h s.probe).key ≡ key = ap (λ (b : Bucket). b.key) (sym here) ∙ hit in
      elim s.victim [
        | inl z ↦ nz (sym held ∙ z)
        | inr (inl own) ↦ other (sym held ∙ own)
        | inr (inr dead) ↦
            let both : is_dead (probed x h s.probe) (probed x h s.probe).key r
                ≡ is_dead (probed x g p) key r =
              ap (λ (b : Bucket). is_dead b b.key r) (sym here)
              ∙ ap (λ k. is_dead (probed x g p) k r) hit in
            ground arith
      ]

  probe-frame :
      (g key : ℕ) (rec : Record) (n p : ℕ) {out : Record}
      → e.key ≢ 0
      → key ≢ 0
      → key ≢ e.key
      → probe_from x g key r rec n p ≡ (none, out)
      → probe_from x' g key r rec n p ≡ (none, out)
  unfolding probe_from
  probe-frame g key rec zero p ez nz other run = absurd (ground arith)
  probe-frame g key rec (suc n) p {out} ez nz other run = elim (ℕ_discrete (probed x g p).key 0) [
    | yes z ↦ let stop = sym (probe_end x g key r rec n p z) ∙ run in absurd (ground arith)
    | no held ↦ elim (ℕ_discrete (probed x g p).key key) [
      | yes hit ↦
          let answer = sym (probe_hit x g key r rec n p nz hit) ∙ run in
          let (_, _, alive) = resolve_sound (probed x g p) key r rec answer in
          let same : probed x' g p ≡ probed x g p =
            probed-miss g p (answers_elsewhere g key p nz other hit alive) in
          probe_hit x' g key r rec n p nz (ap (λ (b : Bucket). b.key) same ∙ hit)
          ∙ ap (λ b. resolve b key r rec) same
          ∙ answer
      | no ne ↦
          let (nz', ne') = passed_again g key p ez other held ne in
          probe_next x' g key r rec n p nz' ne'
          ∙ probe-frame g key rec n (suc p) ez nz other
              (sym (probe_next x g key r rec n p held ne) ∙ run)
    ]
  ]

-- Every entry for the key that is in its probe sequence is older.
abbrev pub IsNewer : KeyIndex → Entry → Type 0
IsNewer x e =
    (p : ℕ)
    → p < 16
    → (probed x (home x e.key) p).key ≡ e.key
    → (probed x (home x e.key) p).ticket < e.ticket

-- What is in the bucket that was written is the new entry.
bucket-IsNewer :
    {x x' : KeyIndex} {e : Entry} {r : Ring} (s : Stored x x' (home x e.key) e r)
    → IsNewer x e
    → (s.bucket.ticket ≡ e.ticket) × (s.bucket.slot ≡ e.slot)
bucket-IsNewer s newer = elim s.newest.1 [
  | inl kept ↦ kept
  | inr (same, old, _) ↦ let lt = newer s.probe s.below same in absurd (omega arith)
]

-- After upsert has accepted an entry that is newer than what the index has for its key, and whose
-- cell holds a committed record of that key, lookup answers with exactly that record.
pub lookup-upsert :
    (fuel : ℕ) (x : KeyIndex) {x' : KeyIndex} (e : Entry) (r : Ring)
    → e.key ≢ 0
    → e.ticket ≢ 0
    → IsNewer x e
    → Addressable r e.slot e.key
    → upsert (suc fuel) x e r ≡ some (none, x')
    → (rec : Record) → lookup x' e.key r rec ≡ (none, found r e.slot e.key rec)
lookup-upsert fuel x {x'} e r kz tz newer a run rec =
    let s : Stored x x' (home x e.key) e r = upsert-Stored fuel x e r kz run in
    let (ticket, slot) = bucket-IsNewer s newer in
    let h = home x e.key in
    let now : probed x' h s.probe ≡ s.bucket = probed-hit s h s.probe refl in
    let held : (probed x' h s.probe).key ≡ e.key = ap (λ (b : Bucket). b.key) now ∙ s.newest.0 in
    lookup_probe x' e.key r rec kz
    ∙ ap (λ g. probe_from x' g e.key r rec 16 0) (home_same s e.key)
    ∙ probe_reaches x' h e.key r rec s.probe 16 0 kz held (Passed-stored s) (omega arith) s.below
    ∙ ap (λ b. resolve b e.key r rec) now
    ∙ resolve-found s.bucket e.key r rec (λ z. tz (sym ticket ∙ z))
        (subst (λ i. Addressable r i e.key) (sym slot) a)
    ∙ ap (λ i. (none, found r i e.key rec)) slot

-- Storing an entry never loses another key: whatever lookup answers for a key other than the one
-- that upsert has stored, it answers the same afterwards, in the same matrix.
pub lookup-upsert_other :
    (fuel : ℕ) (x : KeyIndex) {x' : KeyIndex} (e : Entry) (r : Ring)
    → e.key ≢ 0
    → upsert (suc fuel) x e r ≡ some (none, x')
    → (key : ℕ) (rec : Record) {out : Record} → key ≢ 0
    → key ≢ e.key
    → lookup x key r rec ≡ (none, out)
    → lookup x' key r rec ≡ (none, out)
lookup-upsert_other fuel x {x'} e r ez run key rec nz other answer =
    let s : Stored x x' (home x e.key) e r = upsert-Stored fuel x e r ez run in
    lookup_probe x' key r rec nz
    ∙ ap (λ g. probe_from x' g key r rec 16 0) (home_same s key)
    ∙ probe-frame s (home x key) key rec 16 0 ez nz other
        (sym (lookup_probe x key r rec nz) ∙ answer)
