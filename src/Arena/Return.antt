-- ===== src/Arena/Return.antt =====
-- Several arenas that were opened one after the other: closing all of them gives back what they map.
use vautlage.Prelude.{
  ℕ, ◌%◌, ◌≤◌, ◌<◌, ◌≡◌, ◌⊎◌, inl, inr, refl, ap, sym, ◌∙◌, arith, List, [], ◌∷◌, ◌++◌, Bool, true,
  false, not, ◌&&◌, ◌||◌,
}
use vautlage.Platform.{Platform, huge_page_size}
use vautlage.Platform.View.{View, within, Same, Unmaps}
use vautlage.Platform.Manual.{IsLawful}
use vautlage.Arena.{Arena, close}
use vautlage.Arena.Slack.{undo_bit, whole_pages}
use vautlage.Arena.Finish.{Restored, Opened}
use vautlage.Arena.Trim.{unmap_lem}
use vautlage.Arena.Release.{unpinned, close_open, unpinned-Same}
use vautlage.Arena.Owned.{release_all, IsHeld, covers, covers-snoc, Apart, Apart-snoc, Owned}

or_false : (b : Bool) → b ≡ (b || false)
or_false b = ground arith

or_snoc : (m c w : Bool) → ((m || c) || w) ≡ (m || (c || w))
or_snoc m c w = ground arith

-- What is left of a set of bytes without its first window.
tail_bit :
    (t s m w c : Bool)
    → t ≡ (s && not w)
    → s ≡ (m || (w || c))
    → (w ≡ true → (m || c) ≡ false)
    → t ≡ (m || c)
tail_bit t s m true c e f h = let g = h refl in ground arith
tail_bit t s m false c e f h = ground arith

module _ {S : Type 0} {p : Platform S} {v : View S} (l : IsLawful p v) where
  pub Opened-IsHeld :
      {rp : Bool} {a : Arena} {s t : S}
      → Opened p v s rp a t
      → a.size % huge_page_size ≡ 0
      → IsHeld p a
  Opened-IsHeld {rp} {a} o whole = record {
    place = o.maps.place;
    paged = o.maps.paged;
    whole = whole_pages p.page_size a.size l.page whole;
    raw = o.raw;
    raw_size = o.raw_size;
  }

  -- Close of an arena takes its window out of the mapping, or its munmap fails.
  close_lem :
      (a : Arena) (s : S)
      → IsHeld p a
      → Unmaps v a.base a.size s (close p a s).2 ⊎ (v.failures s < v.failures (close p a s).2)
  close_lem a s h =
      let u = unpinned p a s in
      let same = unpinned-Same l a s in
      rw (close_open p a s h.place h.raw h.raw_size)
        (elim (unmap_lem l a.base a.size u (h.place, h.paged, h.whole)) [
          | inl (done, w) ↦ inl (record {
            mapped = λ x. w.mapped x ∙ ap (λ b. b && not (within a.base a.size x)) (same.mapped x);
            failures = w.failures ∙ same.failures;
          })
          | inr (e, failed, w) ↦ inr (omega (arith, w.failures, same.failures))
        ])

  close_failures : (a : Arena) (s : S) → IsHeld p a → v.failures s ≤ v.failures (close p a s).2
  close_failures a s h = elim (close_lem a s h) [
    | inl w ↦ omega (arith, w.failures)
    | inr more ↦ omega arith
  ]

  -- Closing all of them.
  release_failures :
      (m : ℕ → Bool) (xs : List Arena) (s : S)
      → Apart p m xs
      → v.failures s ≤ v.failures (release_all p xs s)
  unfolding release_all
  release_failures m [] s u = omega arith
  release_failures m (a ∷ xs) s (h, free, rest) =
      let first = close_failures a s h in
      let later = release_failures m xs (close p a s).2 rest in omega arith

module _ {S : Type 0} {p : Platform S} {v : View S} (l : IsLawful p v) {s₀ : S} where
  pub Owned-none : {s : S} → Same v s₀ s → Owned p v s₀ [] s
  unfolding covers
  Owned-none e = record {
    apart = tt;
    mapped = λ x. e.mapped x ∙ or_false (v.mapped s₀ x);
    failures = e.failures;
  }

  pub Owned-Same : {xs : List Arena} {s t : S} → Owned p v s₀ xs s → Same v s t → Owned p v s₀ xs t
  Owned-Same o e = record {
    apart = o.apart;
    mapped = λ x. e.mapped x ∙ o.mapped x;
    failures = e.failures ∙ o.failures;
  }

  pub Owned-snoc :
      {xs : List Arena} {rp : Bool} {a : Arena} {s t : S}
      → Owned p v s₀ xs s
      → Opened p v s rp a t
      → a.size % huge_page_size ≡ 0
      → Owned p v s₀ (xs ++ a ∷ []) t
  Owned-snoc {xs} {rp} {a} o w whole = record {
    apart =
        Apart-snoc p (v.mapped s₀) xs a o.apart (Opened-IsHeld l w whole)
          (λ x inside. sym (o.mapped x) ∙ w.maps.free x inside);
    mapped = λ x.
        w.maps.mapped x
        ∙ ap (λ b. b || within a.base a.size x) (o.mapped x)
        ∙ or_snoc (v.mapped s₀ x) (covers xs x) (within a.base a.size x)
        ∙ ap (λ b. v.mapped s₀ x || b) (sym (covers-snoc xs a x));
    failures = w.maps.failures ∙ o.failures;
  }

  pub release_all-Restored :
      (xs : List Arena) (s : S) → Owned p v s₀ xs s → Restored p v s₀ (release_all p xs s)
  unfolding release_all covers
  release_all-Restored [] s o =
      inr (record {
        mapped = λ x. o.mapped x ∙ sym (or_false (v.mapped s₀ x));
        failures = o.failures;
      })
  release_all-Restored (a ∷ xs) s o =
      let (h, free, rest) = o.apart in
      elim (close_lem l a s h) [
        | inl w ↦ release_all-Restored xs (close p a s).2 (record {
          apart = rest;
          mapped = λ x.
              tail_bit (v.mapped (close p a s).2 x) (v.mapped s x) (v.mapped s₀ x)
                (within a.base a.size x) (covers xs x) (w.mapped x) (o.mapped x) (free x);
          failures = w.failures ∙ o.failures;
        })
        | inr more ↦
            let later = release_failures l (v.mapped s₀) xs (close p a s).2 rest in
            inl (omega (arith, o.failures))
      ]

  -- Closing all of them after a call that gave its own back.
  pub release_after :
      {xs : List Arena} {s t : S}
      → Owned p v s₀ xs s
      → Restored p v s t
      → Restored p v s₀ (release_all p xs t)
  release_after {xs} {s} {t} o (inl more) =
      let later = release_failures l (v.mapped s₀) xs t o.apart in inl (omega (arith, o.failures))
  release_after {xs} {s} {t} o (inr same) = release_all-Restored xs t (Owned-Same o same)

  -- A last arena, opened before the others.
  pub close-Restored :
      {rp : Bool} {a : Arena} {s₁ t : S}
      → Opened p v s₀ rp a s₁
      → a.size % huge_page_size ≡ 0
      → Restored p v s₁ t
      → Restored p v s₀ (close p a t).2
  close-Restored {rp} {a} {s₁} {t} o whole (inl more) =
      let later = close_failures l a t (Opened-IsHeld l o whole) in
      inl (omega (arith, o.maps.failures))
  close-Restored {rp} {a} {s₁} {t} o whole (inr same) =
      elim (close_lem l a t (Opened-IsHeld l o whole)) [
        | inl w ↦ inr (record {
          mapped = λ x.
              w.mapped x
              ∙ undo_bit (v.mapped t x) (v.mapped s₀ x) (within a.base a.size x)
                  (same.mapped x ∙ o.maps.mapped x) (o.maps.free x);
          failures = w.failures ∙ same.failures ∙ o.maps.failures;
        })
        | inr more ↦ inl (omega (arith, same.failures, o.maps.failures))
      ]
