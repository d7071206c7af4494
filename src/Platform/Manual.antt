-- ===== src/Platform/Manual.antt =====
-- What the manuals of mmap, munmap, madvise and mlock say of the calls that the platform files make,
-- and what arena.go relies on of a platform.
use vautlage.Prelude.{ℕ, ◌%◌, ◌≡◌, ◌≢◌, ◌⊎◌, none, some, true, bit_or, not64}
use vautlage.Errors.{Error, ok, err}
use vautlage.Platform.{huge_page_size, Os, Platform}
use vautlage.Platform.View.{View, Same, Maps, Unmaps, Refuses, Keeps}

module _ {S : Type 0} (os : Os S) (v : View S) (huge_flags huge_fd : ℕ) where
  -- The two requests for memory of a platform file.
  abbrev pub Requests : ℕ → ℕ → Type 0
  Requests flags fd =
      ((flags ≡ bit_or os.map_private os.map_anon) × (fd ≡ not64 0))
      ⊎ ((flags ≡ huge_flags) × (fd ≡ huge_fd))

  -- A request in huge pages is for whole ones, since mmap rounds the length of any other up.
  abbrev pub Whole : ℕ → ℕ → Type 0
  Whole flags n = (flags ≡ bit_or os.map_private os.map_anon) ⊎ (n % huge_page_size ≡ 0)

  -- mmap maps free whole pages and never at address 0, munmap removes exactly the pages of its range,
  -- a call that fails changes no mapping, and the other calls never do. mlock loses no contents.
  pub record Manual : Type 0 where
    pub page : huge_page_size % os.page_size ≡ 0
    pub mmap_ok :
        {n prot flags fd r : ℕ} {s t : S}
        → Requests flags fd
        → n % os.page_size ≡ 0
        → Whole flags n
        → os.mmap 0 n prot flags fd 0 s ≡ (r, 0, t)
        → Maps v os.page_size r n s t
    pub mmap_err :
        {n prot flags fd r code : ℕ} {s t : S}
        → os.mmap 0 n prot flags fd 0 s ≡ (r, code, t)
        → code ≢ 0
        → Same v s t
    pub munmap_ok :
        {p n : ℕ} {s t : S}
        → p % os.page_size ≡ 0
        → n % os.page_size ≡ 0
        → os.munmap p n s ≡ (0, t)
        → Unmaps v p n s t
    pub munmap_err :
        {p n code : ℕ} {s t : S} → os.munmap p n s ≡ (code, t) → code ≢ 0 → Refuses v s t
    pub madvise : (p n advice : ℕ) (s : S) → Same v s (os.madvise p n advice s).1
    pub mlock : (p n : ℕ) (s : S) → Same v s (os.mlock p n s).1
    pub mlock_keeps : (p n : ℕ) (s : S) → Keeps v s (os.mlock p n s).1
    pub munlock : (p n : ℕ) (s : S) → Same v s (os.munlock p n s).1
    pub write : (a b : ℕ) (s : S) → Same v s (os.write a b s)
    pub write_touches : (a b : ℕ) (s : S) → v.touched (os.write a b s) a ≡ true
    pub write_keeps : (a b : ℕ) (s : S) → Keeps v s (os.write a b s)

module _ {S : Type 0} (p : Platform S) (v : View S) where
  -- What arena.go relies on.
  pub record IsLawful : Type 0 where
    pub page : huge_page_size % p.page_size ≡ 0
    pub map_anon_ok :
        {n r : ℕ} {s t : S}
        → n % p.page_size ≡ 0
        → p.map_anon n s ≡ (ok r, t)
        → Maps v p.page_size r n s t
    pub map_anon_err : {n : ℕ} {e : Error} {s t : S} → p.map_anon n s ≡ (err e, t) → Same v s t
    pub map_huge_ok :
        {n r : ℕ} {s t : S}
        → n % p.page_size ≡ 0
        → p.map_huge n s ≡ (ok r, t)
        → Maps v p.page_size r n s t
    pub map_huge_err : {n : ℕ} {e : Error} {s t : S} → p.map_huge n s ≡ (err e, t) → Same v s t
    pub unmap_ok :
        {a n : ℕ} {s t : S}
        → a ≢ 0
        → a % p.page_size ≡ 0
        → n % p.page_size ≡ 0
        → p.unmap a n s ≡ (none, t)
        → Unmaps v a n s t
    pub unmap_err : {a n : ℕ} {e : Error} {s t : S} → p.unmap a n s ≡ (some e, t) → Refuses v s t
    pub advise_huge : (a n : ℕ) (s : S) → Same v s (p.advise_huge a n s).1
    pub pin : (a n : ℕ) (s : S) → Same v s (p.pin a n s).1
    pub pin_keeps : (a n : ℕ) (s : S) → Keeps v s (p.pin a n s).1
    pub unpin : (a n : ℕ) (s : S) → Same v s (p.unpin a n s).1
    pub write : (a b : ℕ) (s : S) → Same v s (p.write a b s)
    pub write_touches : (a b : ℕ) (s : S) → v.touched (p.write a b s) a ≡ true
    pub write_keeps : (a b : ℕ) (s : S) → Keeps v s (p.write a b s)
