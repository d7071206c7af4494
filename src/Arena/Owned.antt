-- ===== src/Arena/Owned.antt =====
-- Several arenas that were opened one after the other: what they map. release_all is teardownArenas of fabric.go.
use vautlage.Prelude.{ℕ, ◌%◌, ◌≡◌, ◌≢◌, refl, arith, List, [], ◌∷◌, ◌++◌, Bool, true, false, ◌||◌}
use vautlage.Platform.{Platform}
use vautlage.Platform.View.{View, within}
use vautlage.Arena.{Arena, close}

module _ {S : Type 0} (p : Platform S) where
  -- The loop of teardownArenas.
  unfoldable pub release_all : List Arena → S → S
  release_all [] s = s
  release_all (a ∷ xs) s = let (failed, a', s') = close p a s in release_all xs s'

  pub record IsHeld (a : Arena) : Type 0 where
    pub place : a.base ≢ 0
    pub paged : a.base % p.page_size ≡ 0
    pub whole : a.size % p.page_size ≡ 0
    pub raw : a.raw ≡ a.base
    pub raw_size : a.raw_size ≡ a.size

unfoldable pub covers : List Arena → ℕ → Bool
covers [] x = false
covers (a ∷ xs) x = within a.base a.size x || covers xs x

pub covers-snoc :
    (xs : List Arena) (a : Arena) (x : ℕ)
    → covers (xs ++ a ∷ []) x ≡ (covers xs x || within a.base a.size x)
unfolding covers
covers-snoc [] a x = ground arith
covers-snoc (b ∷ bs) a x = ground (arith, covers-snoc bs a x)

-- The bits of a byte of window `b`, when the window `a` is free where m, b and bs are.
clear_bit :
    (m b bs a : Bool)
    → b ≡ true
    → (m || bs) ≡ false
    → (a ≡ true → (m || (b || bs)) ≡ false)
    → (m || (bs || a)) ≡ false
clear_bit m b bs true e f h = let g = h refl in absurd (ground arith)
clear_bit m b bs false e f h = ground arith

-- A byte that is free where b is too is free.
free_bit : (m b bs : Bool) → (m || (b || bs)) ≡ false → (m || bs) ≡ false
free_bit m b bs h = ground arith

module _ {S : Type 0} (p : Platform S) where
  -- Windows that share no byte with each other or with what `m` says is mapped.
  abbrev pub Apart : (ℕ → Bool) → List Arena → Type 0
  Apart m [] = Unit
  Apart m (a ∷ xs) =
      IsHeld p a
      × ((x : ℕ) → within a.base a.size x ≡ true → (m x || covers xs x) ≡ false)
      × Apart m xs

  pub Apart-snoc :
      (m : ℕ → Bool) (xs : List Arena) (a : Arena)
      → Apart m xs
      → IsHeld p a
      → ((x : ℕ) → within a.base a.size x ≡ true → (m x || covers xs x) ≡ false)
      → Apart m (xs ++ a ∷ [])
  unfolding covers
  Apart-snoc m [] a u h free = (h, free, tt)
  Apart-snoc m (b ∷ bs) a (hb, fb, rest) h free = (
    hb,
    λ x inside. rw (covers-snoc bs a x) (
        clear_bit (m x) (within b.base b.size x) (covers bs x) (within a.base a.size x) inside
          (fb x inside) (free x)),
    Apart-snoc m bs a rest h
        (λ x inside. free_bit (m x) (within b.base b.size x) (covers bs x) (free x inside)),
  )

module _ {S : Type 0} (p : Platform S) (v : View S) (s₀ : S) where
  -- The system has gained the windows of these arenas and nothing else.
  pub record Owned (xs : List Arena) (s : S) : Type 0 where
    pub apart : Apart p (v.mapped s₀) xs
    pub mapped : (x : ℕ) → v.mapped s x ≡ (v.mapped s₀ x || covers xs x)
    pub failures : v.failures s ≡ v.failures s₀
