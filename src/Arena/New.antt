-- ===== src/Arena/New.antt =====
-- arena.go: NewArena opens a window of whole huge pages, or leaves no mapping behind.
use mathlib.Core.Path.{subst}
use native.Mathlib.Decide.{ℕ_discrete}
use vautlage.Prelude.{
  ℕ, ◌+◌, ◌*◌, ◌%◌, ◌^◌, ◌≤◌, ◌<◌, ◌≡◌, ◌⊎◌, inl, inr, refl, ap, sym, ◌∙◌, arith, Option, none,
  some, Bool, true, false, add64, Bool-cases, if◌then◌else◌,
}
use vautlage.Errors.{config, Result, ok, err, Result-cases}
use vautlage.Layout.{align_up, is_pow2}
use vautlage.Layout.Align.{align_up_lem}
use vautlage.Platform.{Platform, huge_page_size}
use vautlage.Platform.View.{View, Same, Same-trans, Same-Maps, Same-refl, Maps}
use vautlage.Platform.Manual.{IsLawful}
use vautlage.Arena.{Arena, trim, advise, finish, window, map_and_trim, new_arena}
use vautlage.Arena.Slack.{whole_pages}
use vautlage.Arena.Finish.{Restored, Same-Restored, Opened, Ends, Maps-Same, finish_lem}
use vautlage.Arena.Trim.{trim_lem, Trimmed}
use vautlage.Arena.Branches.{
  pow2_pos, advise_eq, map_err, trim_err, trim_ok, new_config, new_native, new_required,
  new_trimmed,
}

module _ {S : Type 0} {p : Platform S} {v : View S} (l : IsLawful p v) (s₀ : S) (fuel : ℕ)
    (require_pinned : Bool) where
  -- A construction of a window of `size` bytes returns, and ends in one of the two ways.
  abbrev Builds : ℕ → Bool → Option (Result Arena × S) → Type 0
  Builds size native end =
      (res : Result Arena) × (t : S) × (end ≡ some (res, t))
      × Ends p v s₀ require_pinned size native res t

  advise_lem :
      (base size : ℕ) (s : S)
      → 0 < p.page_size
      → size % p.page_size ≡ 0
      → size + huge_page_size < 2 ^ 64
      → size < fuel
      → Maps v p.page_size base size s₀ s
      → Builds size false (advise p fuel false require_pinned (window p base size false) s)
  advise_lem base size s pos whole small enough m =
      let a = window p base size false in
      let m' = Maps-Same l m (l.advise_huge base size s) in
      let s₁ = (p.advise_huge base size s).1 in
      subst (Builds size false) (sym (advise_eq p fuel require_pinned a s))
        (elim (p.advise_huge base size s).0
          as (λ o. Builds size false (
            if (elim o [ none ↦ true | some e ↦ false ])
            then finish p fuel require_pinned (record a { huge_advised = true }) s₁
            else finish p fuel require_pinned a s₁)) [
              | none ↦
                  finish_lem l fuel require_pinned (record a { huge_advised = true }) s₁ refl refl
                    refl pos whole small enough m'
              | some e ↦
                  finish_lem l fuel require_pinned a s₁ refl refl refl pos whole small enough m'
            ])

  map_and_trim_lem :
      (size : ℕ) (s : S)
      → 0 < p.page_size
      → size % huge_page_size ≡ 0
      → size + huge_page_size < 2 ^ 64
      → size < fuel
      → Same v s₀ s
      → Builds size false (map_and_trim p fuel size false require_pinned s)
  map_and_trim_lem size s pos whole small enough same =
      let n = add64 size huge_page_size in
      let s₁ = (p.map_anon n s).1 in
      elim (Result-cases (p.map_anon n s).0) [
        | inr (e, failed) ↦
            let left = l.map_anon_err (ap (λ r. (r, s₁)) failed) in
            (
              _,
              _,
              map_err p fuel require_pinned size false s failed,
              Same-Restored p v s₀ (Same-trans v same left),
            )
        | inl (raw, done) ↦
            let e : n ≡ size + huge_page_size = omega arith in
            let raw_map =
              l.map_anon_ok (whole_pages p.page_size n l.page (omega arith))
                (ap (λ r. (r, s₁)) done) in
            let trimmed =
              trim_lem l raw size whole small
                (subst (λ k. Maps v p.page_size raw k s₀ s₁) e (Same-Maps v same raw_map)) in
            elim (Result-cases (trim p raw size s₁).0) [
              | inr (e, failed) ↦ (
                _,
                _,
                trim_err p fuel require_pinned size false s done failed,
                subst (λ r. Trimmed l size s₀ r (trim p raw size s₁).1) failed trimmed,
              )
              | inl (base, cut) ↦
                  subst (Builds size false)
                    (sym (trim_ok p fuel require_pinned size false s done cut))
                    (advise_lem base size (trim p raw size s₁).1 pos
                      (whole_pages p.page_size size l.page whole) small enough
                      (subst (λ r. Trimmed l size s₀ r (trim p raw size s₁).1) cut trimmed))
            ]
      ]

module _ {S : Type 0} (p : Platform S) (v : View S) (request : ℕ)
    (require_huge require_pinned : Bool) (s : S) where
  -- What NewArena promises: an arena of whole huge pages for the request, or an error and no mapping.
  abbrev pub Built : Result Arena → S → Type 0
  Built (ok a) t =
      Opened p v s require_pinned a t
      × (a.size % huge_page_size ≡ 0)
      × (request ≤ a.size)
      × (a.size < request + huge_page_size)
      × (a.page_size ≡ p.page_size)
      × (require_huge ≡ true → a.huge_native ≡ true)
  Built (err e) t = Restored p v s t

module _ {S : Type 0} {p : Platform S} {v : View S} (l : IsLawful p v) where
  built :
      (request size : ℕ) (rh rp native : Bool) (s : S)
      → size % huge_page_size ≡ 0
      → request ≤ size
      → size < request + huge_page_size
      → (rh ≡ true → native ≡ true)
      → {end : Option (Result Arena × S)} → Builds l s 0 rp size native end
      → (res : Result Arena) × (t : S) × (end ≡ some (res, t)) × Built p v request rh rp s res t
  built request size rh rp native s whole above below huge (ok a, t, run, (o, e, n, g)) = (
    ok a,
    t,
    run,
    (o, ap (λ k. k % huge_page_size) e ∙ whole, omega arith, omega arith, g, λ h. n ∙ huge h),
  )
  built request size rh rp native s whole above below huge (err e, t, run, r) = (err e, t, run, r)

  -- NewArena returns, for a request that leaves two huge pages of the address space: fuel for a loop
  -- over its bytes is enough. If it answers an arena, the window starts at a boundary of 2 MiB, is the
  -- least number of whole huge pages for the request, is the one mapping that the system gained, was
  -- free before, and has been stored to once in every stride from its start, where the stride is the
  -- page size, and 2 MiB when the huge mapping or the advice was accepted; it is pinned if that was
  -- required, and from the pool of huge pages if that was. If it answers an error, no mapping was gained, or a munmap
  -- failed.
  pub new_arena_lem :
      (fuel request : ℕ) (require_huge require_pinned : Bool) (s : S)
      → request + 2 * huge_page_size < 2 ^ 64
      → request + huge_page_size ≤ fuel
      → (res : Result Arena) × (t : S) × (new_arena p fuel request require_huge require_pinned s
          ≡ some (res, t))
        × Built p v request require_huge require_pinned s res t
  new_arena_lem fuel request rh rp s small enough =
      let size = align_up request huge_page_size in
      let (whole, above, below) = align_up_lem request 21 (omega arith) (omega arith) in
      let s₁ = (p.map_huge size s).1 in
      let none_gained : Restored p v s s = inr (Same-refl v s) in
      let refused : (request ≡ 0) ⊎ (is_pow2 p.page_size ≡ false)
          → (res : Result Arena) × (t : S) × (new_arena p fuel request rh rp s ≡ some (res, t))
            × Built p v request rh rp s res t =
        λ h. (err config, s, new_config p fuel rp request rh s h, none_gained) in
      elim (ℕ_discrete request 0) [
        | yes z ↦ refused (inl z)
        | no ne ↦ elim (Bool-cases (is_pow2 p.page_size)) [
          | inr odd ↦ refused (inr odd)
          | inl pow ↦
              let pos : 0 < p.page_size = pow2_pos p.page_size pow in
              let paged = whole_pages p.page_size size l.page whole in
              elim (Result-cases (p.map_huge size s).0) [
                | inl (base, done) ↦
                    let m = l.map_huge_ok paged (ap (λ r. (r, s₁)) done) in
                    subst
                      (λ end.
                        (res : Result Arena) × (t : S) × (end ≡ some (res, t))
                        × Built p v request rh rp s res t)
                      (sym (new_native p fuel rp request rh s ne pow done))
                      (built request size rh rp true s whole above below (λ h. refl)
                        (finish_lem l fuel rp (window p base size true) s₁ refl refl refl pos paged
                          (omega arith) (omega arith) m))
                | inr (e, failed) ↦
                    let same = l.map_huge_err (ap (λ r. (r, s₁)) failed) in
                    elim (Bool-cases rh) [
                      | inl hard ↦ (
                        _,
                        _,
                        new_required p fuel rp request rh s ne pow failed hard,
                        Same-Restored p v s same,
                      )
                      | inr soft ↦
                          subst
                            (λ end.
                              (res : Result Arena) × (t : S) × (end ≡ some (res, t))
                              × Built p v request rh rp s res t)
                            (sym (new_trimmed p fuel rp request rh s ne pow failed soft))
                            (built request size rh rp false s whole above below (λ h. absurd (cc))
                              (map_and_trim_lem l s fuel rp size s₁ pos whole (omega arith)
                                (omega arith) same))
                    ]
              ]
        ]
      ]
