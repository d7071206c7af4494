-- ===== src/Platform/View.antt =====
-- An abstract view of the operating system: which bytes are mapped, which have been stored to, and
-- how many calls of munmap have failed.
use vautlage.Prelude.{
  ℕ, suc, ◌+◌, ◌%◌, ◌^◌, ◌≤◌, ◌≡◌, ◌≢◌, Bool, true, false, not, ◌&&◌, ◌||◌, ltb, leb, refl, ap, sym,
  ◌∙◌,
}

pub record View (S : Type 0) : Type 0 where
  pub mapped : S → ℕ → Bool
  pub touched : S → ℕ → Bool
  pub failures : S → ℕ

-- Whether the address `a` is one of the `n` bytes from `p` on.
abbrev pub within : ℕ → ℕ → ℕ → Bool
within p n a = leb p a && ltb a (p + n)

module _ {S : Type 0} (v : View S) where
  -- No mapping has changed, and no munmap has failed.
  pub record Same (s t : S) : Type 0 where
    pub mapped : (a : ℕ) → v.mapped t a ≡ v.mapped s a
    pub failures : v.failures t ≡ v.failures s

  -- `n` bytes at a page boundary that were free are mapped.
  pub record Maps (page p n : ℕ) (s t : S) : Type 0 where
    pub place : p ≢ 0
    pub paged : p % page ≡ 0
    pub room : p + n ≤ 2 ^ 64
    pub free : (a : ℕ) → within p n a ≡ true → v.mapped s a ≡ false
    pub mapped : (a : ℕ) → v.mapped t a ≡ (v.mapped s a || within p n a)
    pub failures : v.failures t ≡ v.failures s

  pub record Unmaps (p n : ℕ) (s t : S) : Type 0 where
    pub mapped : (a : ℕ) → v.mapped t a ≡ (v.mapped s a && not (within p n a))
    pub failures : v.failures t ≡ v.failures s

  -- A munmap that failed.
  pub record Refuses (s t : S) : Type 0 where
    pub mapped : (a : ℕ) → v.mapped t a ≡ v.mapped s a
    pub failures : v.failures t ≡ suc (v.failures s)

  -- What has been stored to stays so.
  abbrev pub Keeps : S → S → Type 0
  Keeps s t = (a : ℕ) → v.touched s a ≡ true → v.touched t a ≡ true

  pub Same-refl : (s : S) → Same s s
  Same-refl s = record { mapped = λ a. refl; failures = refl }

  pub Same-trans : {s t u : S} → Same s t → Same t u → Same s u
  Same-trans p q = record {
    mapped = λ a. q.mapped a ∙ p.mapped a;
    failures = q.failures ∙ p.failures;
  }

  pub Same-Maps : {page p n : ℕ} {s t u : S} → Same s t → Maps page p n t u → Maps page p n s u
  Same-Maps {page} {p} {n} q m = record {
    place = m.place;
    paged = m.paged;
    room = m.room;
    free = λ a inside. sym (q.mapped a) ∙ m.free a inside;
    mapped = λ a. m.mapped a ∙ ap (λ b. b || within p n a) (q.mapped a);
    failures = m.failures ∙ q.failures;
  }
