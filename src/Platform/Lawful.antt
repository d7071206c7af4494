-- ===== src/Platform/Lawful.antt =====
-- Both platform files provide what arena.go relies on.
use mathlib.Core.Path.{subst}
use native.Mathlib.Decide.{ℕ_discrete}
use vautlage.Prelude.{
  ℕ, ◌%◌, ◌≡◌, ◌≢◌, ◌⊎◌, inl, inr, refl, sym, arith, none, some, Bool, true, false, if◌then◌else◌,
  ◌==◌, bit_or, not64,
}
use vautlage.Errors.{Error, config, Result, ok, err}
use vautlage.Platform.{huge_page_size, Os, address, outcome, map_memory, unmap_range}
use vautlage.Platform.Linux
use vautlage.Platform.Linux.{linux}
use vautlage.Platform.Darwin
use vautlage.Platform.Darwin.{darwin}
use vautlage.Platform.View.{View, Same, Maps, Unmaps, Refuses, Same-refl, Same-trans}
use vautlage.Platform.Manual.{Manual, IsLawful, Requests, Whole}

module _ {S : Type 0} where
  address_ok : (x : ℕ × ℕ × S) {r : ℕ} {t : S} → address x ≡ (ok r, t) → x ≡ (r, 0, t)
  unfolding address
  address_ok (r, code, s) e = ground arith

  address_err :
      (x : ℕ × ℕ × S) {e : Error} {t : S}
      → address x ≡ (err e, t)
      → (r : ℕ) × (code : ℕ) × (x ≡ (r, code, t)) × (code ≢ 0)
  unfolding address
  address_err (r, code, s) e = (r, code, ground arith, ground arith)

  outcome-none : (x : ℕ × S) {t : S} → outcome x ≡ (none, t) → x ≡ (0, t)
  unfolding outcome
  outcome-none (code, s) e = ground arith

  outcome-some :
      (x : ℕ × S) {e : Error} {t : S}
      → outcome x ≡ (some e, t)
      → (code : ℕ) × (x ≡ (code, t)) × (code ≢ 0)
  unfolding outcome
  outcome-some (code, s) e = (code, ground arith, ground arith)

  outcome-state : (x : ℕ × S) → (outcome x).1 ≡ x.1
  unfolding outcome
  outcome-state (code, s) = ground arith

module _ {S : Type 0} {os : Os S} {v : View S} {huge_flags huge_fd : ℕ}
    (m : Manual os v huge_flags huge_fd) where
  map_memory_ok :
      (n flags fd : ℕ) {r : ℕ} {s t : S}
      → Requests os v huge_flags huge_fd flags fd
      → n % os.page_size ≡ 0
      → Whole os v huge_flags huge_fd flags n
      → map_memory os n flags fd s ≡ (ok r, t)
      → Maps v os.page_size r n s t
  unfolding map_memory
  map_memory_ok n flags fd {r} {s} q paged whole e =
      m.mmap_ok q paged whole (address_ok (os.mmap 0 n _ flags fd 0 s) e)

  map_memory_err :
      (n flags fd : ℕ) {x : Error} {s t : S} → map_memory os n flags fd s ≡ (err x, t) → Same v s t
  unfolding map_memory
  map_memory_err n flags fd {x} {s} e =
      let (r, code, called, failed) = address_err (os.mmap 0 n _ flags fd 0 s) e in
      m.mmap_err called failed

  unmap_range_ok :
      (a n : ℕ) {s t : S}
      → a ≢ 0
      → a % os.page_size ≡ 0
      → n % os.page_size ≡ 0
      → unmap_range os a n s ≡ (none, t)
      → Unmaps v a n s t
  unfolding unmap_range
  unmap_range_ok a n {s} {t} ne p q e = elim (ℕ_discrete n 0) [
    | yes z ↦
        let same : s ≡ t = ground arith in
        subst (Unmaps v a n s) same (record { mapped = λ b. ground arith; failures = refl })
    | no nz ↦ m.munmap_ok p q (outcome-none (os.munmap a n s) (ground arith))
  ]

  unmap_range_err :
      (a n : ℕ) {x : Error} {s t : S} → unmap_range os a n s ≡ (some x, t) → Refuses v s t
  unfolding unmap_range
  unmap_range_err a n {x} {s} {t} e =
      let failed : outcome (os.munmap a n s) ≡ (some x, t) = ground arith in
      let (code, called, failed) = outcome-some (os.munmap a n s) failed in
      m.munmap_err called failed

  -- sysMapHuge refuses a length that is not whole huge pages without a call.
  guarded_whole :
      (n : ℕ) (x : Result ℕ × S) (s : S) {r : ℕ} {t : S}
      → (if n % huge_page_size == 0 then x else (err config, s)) ≡ (ok r, t)
      → n % huge_page_size ≡ 0
  guarded_whole n x s e = ground arith

  guarded_ok :
      (b : Bool) (x : Result ℕ × S) (s : S) {r : ℕ} {t : S}
      → (if b then x else (err config, s)) ≡ (ok r, t)
      → x ≡ (ok r, t)
  guarded_ok true x s e = e
  guarded_ok false x s e = absurd (ground arith)

  guarded_err :
      (b : Bool) (x : Result ℕ × S) (s : S) {y : Error} {t : S}
      → (if b then x else (err config, s)) ≡ (err y, t)
      → (x ≡ (err y, t)) ⊎ (s ≡ t)
  guarded_err true x s e = inl e
  guarded_err false x s e = inr (ground arith)

  map_huge-Same :
      (b : Bool) (n flags fd : ℕ) (s : S) {y : Error} {t : S}
      → (if b then map_memory os n flags fd s else (err config, s)) ≡ (err y, t)
      → Same v s t
  map_huge-Same b n flags fd s e = elim (guarded_err b (map_memory os n flags fd s) s e) [
    | inl called ↦ map_memory_err n flags fd called
    | inr same ↦ subst (Same v s) same (Same-refl v s)
  ]

  linux_advise : (a n : ℕ) (s : S) → Same v s (Linux.sys_advise_huge os a n s).1
  unfolding Linux.sys_advise_huge outcome
  linux_advise a n s =
      let first = m.madvise a n 14 s in
      let second = m.madvise a n 10 (os.madvise a n 14 s).1 in
      elim (ℕ_discrete (os.madvise a n 14 s).0 0) [
        | yes z ↦
            let ends : (Linux.sys_advise_huge os a n s).1
                ≡ (os.madvise a n 10 (os.madvise a n 14 s).1).1 =
              ground arith in
            subst (Same v s) (sym ends) (Same-trans v first second)
        | no nz ↦
            let ends : (Linux.sys_advise_huge os a n s).1 ≡ (os.madvise a n 14 s).1 =
              ground arith in
            subst (Same v s) (sym ends) first
      ]

  darwin_advise : (a n : ℕ) (s : S) → Same v s (Darwin.sys_advise_huge os a n s).1
  unfolding Darwin.sys_advise_huge outcome
  darwin_advise a n s =
      let ends : (Darwin.sys_advise_huge os a n s).1 ≡ (os.madvise a n 3 s).1 = ground arith in
      subst (Same v s) (sym ends) (m.madvise a n 3 s)

-- Over system calls that keep to their manuals, the functions of arena_linux.go are what arena.go
-- relies on, for requests of whole pages: a mapping is of free whole pages not at address 0, also one
-- from the pool of huge pages, where sysMapHuge lets no length through that mmap would round up;
-- sysUnmap takes exactly its range out, an empty one too; an error changes no mapping, and advice,
-- pins and stores never do.
pub linux-IsLawful :
    {S : Type 0} {os : Os S} {v : View S}
    → Manual os v (Linux.huge_flags os) (not64 0)
    → IsLawful (linux os) v
unfolding Linux.sys_map_anon Linux.sys_map_huge
linux-IsLawful {S} {os} {v} m = record {
  page = m.page;
  map_anon_ok = λ paged e. map_memory_ok m _ _ _ (inl (refl, refl)) paged (inl refl) e;
  map_anon_err = λ e. map_memory_err m _ _ _ e;
  map_huge_ok = λ {n} {r} {s} paged e.
      map_memory_ok m n _ _ (inr (refl, refl)) paged (inr (guarded_whole m n _ s e))
        (guarded_ok m _ _ s e);
  map_huge_err = λ {n} {e = x} {s} e. map_huge-Same m _ n _ _ s e;
  unmap_ok = λ {a} {n} ne p q e. unmap_range_ok m a n ne p q e;
  unmap_err = λ {a} {n} e. unmap_range_err m a n e;
  advise_huge = linux_advise m;
  pin = m.mlock;
  pin_keeps = m.mlock_keeps;
  unpin = m.munlock;
  write = m.write;
  write_touches = m.write_touches;
  write_keeps = m.write_keeps;
}

-- The same of arena_darwin.go, whose huge mapping is asked for in the place of the file descriptor.
pub darwin-IsLawful :
    {S : Type 0} {os : Os S} {v : View S}
    → Manual os v (bit_or os.map_private os.map_anon) Darwin.sys_vm_flags_superpage2mb
    → IsLawful (darwin os) v
unfolding Darwin.sys_map_anon Darwin.sys_map_huge
darwin-IsLawful {S} {os} {v} m = record {
  page = m.page;
  map_anon_ok = λ paged e. map_memory_ok m _ _ _ (inl (refl, refl)) paged (inl refl) e;
  map_anon_err = λ e. map_memory_err m _ _ _ e;
  map_huge_ok = λ {n} {r} {s} paged e.
      map_memory_ok m n _ _ (inr (refl, refl)) paged (inr (guarded_whole m n _ s e))
        (guarded_ok m _ _ s e);
  map_huge_err = λ {n} {e = x} {s} e. map_huge-Same m _ n _ _ s e;
  unmap_ok = λ {a} {n} ne p q e. unmap_range_ok m a n ne p q e;
  unmap_err = λ {a} {n} e. unmap_range_err m a n e;
  advise_huge = darwin_advise m;
  pin = m.mlock;
  pin_keeps = m.mlock_keeps;
  unpin = m.munlock;
  write = m.write;
  write_touches = m.write_touches;
  write_keeps = m.write_keeps;
}
