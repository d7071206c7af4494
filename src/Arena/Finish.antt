-- ===== src/Arena/Finish.antt =====
-- arena.go: NewArena from the check of the alignment on: what it opens, and what it takes back.
use mathlib.Core.Path.{subst}
use vautlage.Prelude.{
  ℕ, ◌+◌, ◌*◌, ◌%◌, ◌^◌, ◌<◌, ◌≡◌, ◌⊎◌, inl, inr, refl, ap, sym, ◌∙◌, arith, none, some, Bool, true,
  false, add64, Bool-cases, Option-cases,
}
use vautlage.Errors.{Error, config, pin_failed, Result, ok, err}
use vautlage.Layout.{is_aligned}
use vautlage.Layout.Align.{is_aligned_iff}
use vautlage.Platform.{Platform, huge_page_size}
use vautlage.Platform.View.{View, within, Same, Maps}
use vautlage.Platform.Manual.{IsLawful}
use vautlage.Arena.{Arena, stride_of, prefault, pin_span, finish}
use vautlage.Arena.Slack.{undo_bit, page_le}
use vautlage.Arena.Prefault.{prefault_lem}

module _ {S : Type 0} (p : Platform S) (v : View S) (s₀ : S) where
  -- An arena that was opened from `s₀`: its window is the one new mapping, and has been stored to once
  -- in each stride of prefault.
  pub record Opened (require_pinned : Bool) (a : Arena) (t : S) : Type 0 where
    pub aligned : a.base % huge_page_size ≡ 0
    pub raw : a.raw ≡ a.base
    pub raw_size : a.raw_size ≡ a.size
    pub maps : Maps v p.page_size a.base a.size s₀ t
    pub resident :
        (k : ℕ) → k * stride_of p a < a.size → v.touched t (add64 a.base (k * stride_of p a)) ≡ true
    pub pinned : require_pinned ≡ true → a.pinned ≡ true

  -- The mappings are what they were, or a munmap failed.
  abbrev pub Restored : S → Type 0
  Restored t = (v.failures s₀ < v.failures t) ⊎ Same v s₀ t

  pub Same-Restored : {t : S} → Same v s₀ t → Restored t
  Same-Restored e = inr e

  -- The end of a construction whose window has this size and these pages.
  abbrev pub Ends : Bool → ℕ → Bool → Result Arena → S → Type 0
  Ends require_pinned size native (ok a) t =
      Opened require_pinned a t
      × (a.size ≡ size)
      × (a.huge_native ≡ native)
      × (a.page_size ≡ p.page_size)
  Ends require_pinned size native (err e) t = Restored t

module _ {S : Type 0} (p : Platform S) (fuel : ℕ) (require_pinned : Bool) (a : Arena) where
  -- The results of the pin.
  pin_span_ok :
      (s : S)
      → (p.pin a.base a.size s).0 ≡ none
      → pin_span p require_pinned a s ≡ (ok (record a { pinned = true }), (p.pin a.base a.size s).1)
  unfolding pin_span
  pin_span_ok s e = ground arith

  pin_span_soft :
      (s : S) {e : Error}
      → (p.pin a.base a.size s).0 ≡ some e
      → require_pinned ≡ false
      → pin_span p require_pinned a s ≡ (ok a, (p.pin a.base a.size s).1)
  unfolding pin_span
  pin_span_soft s e r = ground arith

  pin_span_err :
      (s : S) {e : Error}
      → (p.pin a.base a.size s).0 ≡ some e
      → require_pinned ≡ true
      → pin_span p require_pinned a s
        ≡ (err pin_failed, (p.unmap a.raw a.raw_size (p.pin a.base a.size s).1).1)
  unfolding pin_span
  pin_span_err s e r = ground arith

  finish_err :
      (s : S)
      → is_aligned a.base huge_page_size ≡ false
      → finish p fuel require_pinned a s ≡ some (err config, (p.unmap a.raw a.raw_size s).1)
  unfolding finish
  finish_err s e = ground arith

  finish_ok :
      (s : S) {t : S}
      → is_aligned a.base huge_page_size ≡ true
      → prefault p fuel a s ≡ some t
      → finish p fuel require_pinned a s ≡ some (pin_span p require_pinned a t)
  unfolding finish
  finish_ok s e f = ground arith

module _ {S : Type 0} {p : Platform S} {v : View S} (l : IsLawful p v) {s₀ : S} where
  pub Maps-Same :
      {b n : ℕ} {s t : S} → Maps v p.page_size b n s₀ s → Same v s t → Maps v p.page_size b n s₀ t
  Maps-Same m e = record {
    place = m.place;
    paged = m.paged;
    room = m.room;
    free = m.free;
    mapped = λ x. e.mapped x ∙ m.mapped x;
    failures = e.failures ∙ m.failures;
  }

  -- sysUnmap takes a new mapping back.
  pub release_lem :
      (b n : ℕ) {s : S}
      → Maps v p.page_size b n s₀ s
      → n % p.page_size ≡ 0
      → Restored p v s₀ (p.unmap b n s).1
  release_lem b n {s} m whole = elim (Option-cases (p.unmap b n s).0) [
    | inl done ↦
        let u = l.unmap_ok m.place m.paged whole (ap (λ o. (o, (p.unmap b n s).1)) done) in
        inr (record {
          mapped = λ x.
              u.mapped x
              ∙ undo_bit (v.mapped s x) (v.mapped s₀ x) (within b n x) (m.mapped x) (m.free x);
          failures = u.failures ∙ m.failures;
        })
    | inr (e, failed) ↦
        let u = l.unmap_err (ap (λ o. (o, (p.unmap b n s).1)) failed) in
        inl (omega (arith, u.failures, m.failures))
  ]

  module _ (fuel : ℕ) (require_pinned : Bool) (a : Arena) where
    pin_span_lem :
        (s : S)
        → a.size % p.page_size ≡ 0
        → a.page_size ≡ p.page_size
        → Opened p v s₀ false a s
        → Ends p v s₀ require_pinned a.size a.huge_native
            (pin_span p require_pinned a s).0
            (pin_span p require_pinned a s).1
    unfolding pin_span
    pin_span_lem s whole pages o =
        let same = l.pin a.base a.size s in
        let keeps = l.pin_keeps a.base a.size s in
        let s₁ = (p.pin a.base a.size s).1 in
        let E : Result Arena × S → Type 0 =
          λ x. Ends p v s₀ require_pinned a.size a.huge_native x.0 x.1 in
        elim (Option-cases (p.pin a.base a.size s).0) [
          | inl done ↦ subst E (sym (pin_span_ok p fuel require_pinned a s done)) (
            record {
              aligned = o.aligned;
              raw = o.raw;
              raw_size = o.raw_size;
              maps = Maps-Same o.maps same;
              resident = λ k lt. keeps (add64 a.base (k * stride_of p a)) (o.resident k lt);
              pinned = λ e. refl;
            },
            refl,
            refl,
            pages,
          )
          | inr (e, failed) ↦ elim (Bool-cases require_pinned) [
            | inl hard ↦
                subst E (sym (pin_span_err p fuel require_pinned a s failed hard))
                  (rw (o.raw, o.raw_size) (release_lem a.base a.size (Maps-Same o.maps same) whole))
            | inr soft ↦ subst E (sym (pin_span_soft p fuel require_pinned a s failed soft)) (
              record {
                aligned = o.aligned;
                raw = o.raw;
                raw_size = o.raw_size;
                maps = Maps-Same o.maps same;
                resident = λ k lt. keeps (add64 a.base (k * stride_of p a)) (o.resident k lt);
                pinned = λ e. absurd (cc);
              },
              refl,
              refl,
              pages,
            )
          ]
        ]

    pub finish_lem :
        (s : S)
        → a.raw ≡ a.base
        → a.raw_size ≡ a.size
        → a.page_size ≡ p.page_size
        → 0 < p.page_size
        → a.size % p.page_size ≡ 0
        → a.size + huge_page_size < 2 ^ 64
        → a.size < fuel
        → Maps v p.page_size a.base a.size s₀ s
        → (res : Result Arena) × (t : S) × (finish p fuel require_pinned a s ≡ some (res, t))
          × Ends p v s₀ require_pinned a.size a.huge_native res t
    finish_lem s raw raw_size pages pos whole small enough m =
        elim (Bool-cases (is_aligned a.base huge_page_size)) [
          | inr off ↦ (
            _,
            _,
            finish_err p fuel require_pinned a s off,
            rw (raw, raw_size) (release_lem a.base a.size m whole),
          )
          | inl on ↦
              let (t, run, same, touches) =
                prefault_lem l a fuel s (omega arith) (rw pages (page_le p.page_size l.page)) small
                  enough in
              let line : a.base % huge_page_size ≡ 0 =
                (is_aligned_iff a.base 21 (omega arith)).0 on in
              let opened : Opened p v s₀ false a t = record {
                aligned = line;
                raw = raw;
                raw_size = raw_size;
                maps = Maps-Same m same;
                resident = touches;
                pinned = λ e. absurd (cc);
              } in
              (_, _, finish_ok p fuel require_pinned a s on run, pin_span_lem t whole pages opened)
        ]
