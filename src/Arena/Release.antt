-- ===== src/Arena/Release.antt =====
-- arena.go: Close takes back what NewArena has mapped, and nothing when it is called again.
use vautlage.Prelude.{
  ℕ, ◌+◌, ◌*◌, ◌^◌, ◌≤◌, ◌<◌, ◌≡◌, ◌≢◌, ◌⊎◌, inl, inr, refl, sym, ◌∙◌, arith, none, some, Bool,
  false, Bool-cases, if◌then◌else◌, carry_some,
}
use vautlage.Errors.{ok}
use vautlage.Platform.{Platform, huge_page_size}
use vautlage.Platform.View.{View, Same, Same-refl, Same-trans}
use vautlage.Platform.Manual.{IsLawful}
use vautlage.Arena.{Arena, new_arena, close}
use vautlage.Arena.Slack.{whole_pages}
use vautlage.Arena.Finish.{Maps-Same, release_lem}
use vautlage.Arena.New.{Built, new_arena_lem}

module _ {S : Type 0} (p : Platform S) where
  -- Close of an arena that is open.
  abbrev pub unpinned : Arena → S → S
  unpinned a s = if a.pinned then (p.unpin a.base a.size s).1 else s

  abbrev pub gone : Arena → Arena
  gone a = record a { base = 0; raw = 0; size = 0; raw_size = 0; pinned = false }

  pub close_open :
      (a : Arena) (s : S)
      → a.base ≢ 0
      → a.raw ≡ a.base
      → a.raw_size ≡ a.size
      → close p a s ≡ (
        (p.unmap a.base a.size (unpinned a s)).0,
        gone a,
        (p.unmap a.base a.size (unpinned a s)).1,
      )
  unfolding close
  close_open a s ne raw size = ground arith

  pub close_gone : (a : Arena) (s : S) → a.base ≡ 0 → close p a s ≡ (none, a, s)
  unfolding close
  close_gone a s e = ground arith

module _ {S : Type 0} {p : Platform S} {v : View S} (l : IsLawful p v) where
  pub unpinned-Same : (a : Arena) (s : S) → Same v s (unpinned p a s)
  unpinned-Same a s = elim (Bool-cases a.pinned) [
    | inl e ↦ rw e (l.unpin a.base a.size s)
    | inr e ↦ rw e (Same-refl v s)
  ]

  -- An arena that NewArena has opened, for a request that leaves two huge pages of the address space and
  -- with fuel for its bytes, is taken back: after any use that changes no mapping, Close
  -- leaves what was mapped before NewArena, or a munmap has failed; and then it has nothing left to do,
  -- so a second Close answers no error and changes nothing.
  pub new_arena-close :
      (fuel request : ℕ) (require_huge require_pinned : Bool) (s : S) {a : Arena} {t u : S}
      → request + 2 * huge_page_size < 2 ^ 64
      → request + huge_page_size ≤ fuel
      → new_arena p fuel request require_huge require_pinned s ≡ some (ok a, t)
      → Same v t u
      → let (failed, a', w) = close p a u in
        ((v.failures s < v.failures w) ⊎ Same v s w) × (close p a' w ≡ (none, a', w))
  new_arena-close fuel request rh rp s {a} {t} {u} small enough run used =
      let (res, t', run', ends) = new_arena_lem l fuel request rh rp s small enough in
      let ends' : Built p v request rh rp s (ok a) t =
        carry_some (Built p v request rh rp s) (sym run' ∙ run) ends in
      let (o, whole, _, _, _, _) = ends' in
      let m = Maps-Same l o.maps (Same-trans v used (unpinned-Same a u)) in
      let back = release_lem l a.base a.size m (whole_pages p.page_size a.size l.page whole) in
      rw (close_open p a u o.maps.place o.raw o.raw_size)
        (back, close_gone p (gone p a) (p.unmap a.base a.size (unpinned p a u)).1 refl)
