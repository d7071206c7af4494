-- ===== src/Arena/Branches.antt =====
-- arena.go: NewArena, branch by branch.
use vautlage.Prelude.{
  ℕ, ◌<◌, ◌≡◌, ◌≢◌, ◌⊎◌, inl, inr, arith, none, some, Bool, true, false, add64, Option-cases,
  if◌then◌else◌,
}
use vautlage.Errors.{Error, config, ok, err}
use vautlage.Layout.{align_up, is_pow2}
use vautlage.Platform.{Platform, huge_page_size}
use vautlage.Arena.{Arena, trim, advise, finish, window, map_and_trim, new_arena}

module _ {S : Type 0} (p : Platform S) (fuel : ℕ) (require_pinned : Bool) where
  pub advise_eq :
      (a : Arena) (s : S)
      → advise p fuel false require_pinned a s ≡ (
          if (elim (p.advise_huge a.base a.size s).0 [ none ↦ true | some e ↦ false ])
          then finish p fuel require_pinned
              (record a { huge_advised = true })
              (p.advise_huge a.base a.size s).1
          else finish p fuel require_pinned a (p.advise_huge a.base a.size s).1)
  unfolding advise
  advise_eq a s = elim (Option-cases (p.advise_huge a.base a.size s).0) [
    | inl e ↦ ground arith
    | inr (x, e) ↦ ground arith
  ]

  pub map_err :
      (size : ℕ) (rh : Bool) (s : S) {e : Error}
      → (p.map_anon (add64 size huge_page_size) s).0 ≡ err e
      → map_and_trim p fuel size rh require_pinned s
        ≡ some (err e, (p.map_anon (add64 size huge_page_size) s).1)
  unfolding map_and_trim
  map_err size rh s e = ground arith

  pub trim_err :
      (size : ℕ) (rh : Bool) (s : S) {raw : ℕ} {e : Error}
      → (p.map_anon (add64 size huge_page_size) s).0 ≡ ok raw
      → let x = trim p raw size (p.map_anon (add64 size huge_page_size) s).1 in
        x.0 ≡ err e → map_and_trim p fuel size rh require_pinned s ≡ some (err e, x.1)
  unfolding map_and_trim
  trim_err size rh s e f = ground arith

  pub trim_ok :
      (size : ℕ) (rh : Bool) (s : S) {raw base : ℕ}
      → (p.map_anon (add64 size huge_page_size) s).0 ≡ ok raw
      → let x = trim p raw size (p.map_anon (add64 size huge_page_size) s).1 in
        x.0 ≡ ok base
        → map_and_trim p fuel size rh require_pinned s
          ≡ advise p fuel rh require_pinned (window p base size false) x.1
  unfolding map_and_trim
  trim_ok size rh s e f = ground arith

  pub new_config :
      (request : ℕ) (rh : Bool) (s : S)
      → (request ≡ 0) ⊎ (is_pow2 p.page_size ≡ false)
      → new_arena p fuel request rh require_pinned s ≡ some (err config, s)
  unfolding new_arena
  new_config request rh s h = ground arith

  module _ (request : ℕ) (rh : Bool) (s : S) (ne : request ≢ 0)
      (pow : is_pow2 p.page_size ≡ true) where
    pub new_native :
        {base : ℕ}
        → (p.map_huge (align_up request huge_page_size) s).0 ≡ ok base
        → new_arena p fuel request rh require_pinned s
          ≡ finish p fuel require_pinned
              (window p base (align_up request huge_page_size) true)
              (p.map_huge (align_up request huge_page_size) s).1
    unfolding new_arena
    new_native e = ground arith

    pub new_required :
        {e : Error}
        → (p.map_huge (align_up request huge_page_size) s).0 ≡ err e
        → rh ≡ true
        → new_arena p fuel request rh require_pinned s
          ≡ some (err e, (p.map_huge (align_up request huge_page_size) s).1)
    unfolding new_arena
    new_required e h = ground arith

    pub new_trimmed :
        {e : Error}
        → (p.map_huge (align_up request huge_page_size) s).0 ≡ err e
        → rh ≡ false
        → new_arena p fuel request rh require_pinned s
          ≡ map_and_trim p fuel
              (align_up request huge_page_size)
              false
              require_pinned
              (p.map_huge (align_up request huge_page_size) s).1
    unfolding new_arena
    new_trimmed e h = ground arith

pub pow2_pos : (n : ℕ) → is_pow2 n ≡ true → 0 < n
unfolding is_pow2
pow2_pos n e = ground arith
