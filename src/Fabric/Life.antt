-- ===== src/Fabric/Life.antt =====
-- fabric.go: the life of an engine's arenas, from New to Close.
use mathlib.Core.Path.{subst}
use vautlage.Prelude.{
  ℕ, ◌%◌, ◌+◌, ◌*◌, ◌^◌, ◌≤◌, ◌<◌, ◌≡◌, ◌⊎◌, inl, inr, refl, ap, sym, ◌∙◌, arith, List, [], ◌∷◌,
  Option, none, some, true, false, carry_some, length,
}
use vautlage.Errors.{Error, Result, ok, err, Result-cases}
use vautlage.Gate.{Gate, init_gate}
use vautlage.Config.{Config, normalize}
use vautlage.Platform.{Platform, huge_page_size}
use vautlage.Platform.View.{View, Same, Same-refl}
use vautlage.Platform.Manual.{IsLawful}
use vautlage.Arena.{Arena, close}
use vautlage.Arena.Finish.{Restored, Opened}
use vautlage.Arena.New.{Built, new_arena_lem}
use vautlage.Arena.Owned.{Owned, release_all}
use vautlage.Arena.Return.{Owned-none, Owned-Same, release_all-Restored, close-Restored}
use vautlage.Fabric.Build.{
  Handle, blank_engine, build, new, zero_gate, close_arenas, close_engine, first,
}
use vautlage.Fabric.Built.{
  Builds, build_shards_lem, arena_span, ctl_span, ctl_bytes, ctl_bytes-span, span-blank_engine,
  new_refused, new_gated, build_no_ctl, build_no_shards, build_done, handle_of,
}

module _ {S : Type 0} (p : Platform S) (w : View S) (c : Config) (s : S) where
  -- What New promises of its arenas: the control arena, and then one for each shard, or an error and
  -- nothing gained.
  abbrev pub Constructs : Result Handle → S → Type 0
  Constructs (ok h) t =
      (ctl : Arena) × (s₁ : S) × (h.ctl_arena ≡ some ctl)
      × Opened p w s c.require_pinned ctl s₁
      × (ctl.size % huge_page_size ≡ 0)
      × Owned p w s₁ h.arenas t
      × (length h.arenas ≡ c.shards)
      × (h.closed ≡ false)
  Constructs (err e) t = Restored p w s t

module _ {S : Type 0} (p : Platform S) where
  close_arenas-state :
      (xs : List Arena) (failed : Option Error) (s : S)
      → (close_arenas p xs failed s).1 ≡ release_all p xs s
  unfolding close_arenas release_all
  close_arenas-state [] failed s = refl
  close_arenas-state (a ∷ xs) failed s =
      close_arenas-state xs (first p failed (close p a s).0) (close p a s).2

  close_engine_state :
      (h : Handle) (ctl : Arena) (s : S)
      → h.closed ≡ false
      → h.ctl_arena ≡ some ctl
      → (close_engine p h s).2 ≡ (close p ctl (release_all p h.arenas s)).2
  unfolding close_engine
  close_engine_state h ctl s live held =
      let shut : (close_engine p h s).2 ≡ (close p ctl (close_arenas p h.arenas none s).1).2 =
        ground arith in
      shut ∙ ap (λ x. (close p ctl x).2) (close_arenas-state h.arenas none s)

  close_marks :
      (h : Handle) (ctl : Arena) (s : S)
      → h.closed ≡ false
      → h.ctl_arena ≡ some ctl
      → (close_engine p h s).1.closed ≡ true
  unfolding close_engine
  close_marks h ctl s live held = ground arith

  close_closed : (h : Handle) (s : S) → h.closed ≡ true → close_engine p h s ≡ (none, h, s)
  unfolding close_engine
  close_closed h s e = ground arith

module _ {S : Type 0} {p : Platform S} {w : View S} (l : IsLawful p w) where
  build_lem :
      (fuel : ℕ) (c : Config) (epoch clock : ℕ) (s : S) (gate : Gate)
      → arena_span c + 2 * huge_page_size < 2 ^ 64
      → arena_span c + huge_page_size ≤ fuel
      → ctl_span c + 2 * huge_page_size < 2 ^ 64
      → ctl_span c + huge_page_size ≤ fuel
      → (res : Result Handle) × (t : S) × (build p fuel c gate epoch clock s ≡ some (res, t))
        × Constructs p w c s res t
  build_lem fuel c epoch clock s gate fits enough fits_ctl enough_ctl =
      let v = blank_engine c gate epoch clock in
      let bytes = span-blank_engine c gate epoch clock in
      let asked = ctl_bytes-span c (omega arith) in
      let (res, s₁, run, ends) =
        new_arena_lem l fuel (ctl_bytes c) false c.require_pinned s (omega (arith, asked))
          (omega (arith, asked)) in
      elim (Result-cases res) [
        | inr (e, failed) ↦ (
          _,
          _,
          build_no_ctl p fuel c epoch clock gate s (run ∙ ap (λ r. some (r, s₁)) failed),
          subst (λ r. Built p w (ctl_bytes c) false c.require_pinned s r s₁) failed ends,
        )
        | inl (ctl, made) ↦
            let run' = run ∙ ap (λ r. some (r, s₁)) made in
            let (opened, whole, holds, _, _, _) : Built p w (ctl_bytes c) false c.require_pinned s
                (ok ctl) s₁ =
              subst (λ r. Built p w (ctl_bytes c) false c.require_pinned s r s₁) made ends in
            let (res', s₂, build_run, parts) =
              build_shards_lem l fuel s₁ ctl c.shards 0 v [] s₁ (omega (arith, bytes))
                (omega (arith, bytes)) (omega (arith, asked)) (Owned-none l (Same-refl w s₁)) in
            elim (Result-cases res') [
              | inr (e, failed) ↦ (
                _,
                _,
                build_no_shards p fuel c epoch clock gate s run'
                    (build_run ∙ ap (λ r. some (r, s₂)) failed),
                close-Restored l opened whole
                    (subst (λ r. Builds l fuel s₁ (0 + c.shards) r s₂) failed parts),
              )
              | inl ((v', xs), done) ↦
                  let (owned, many) : Builds l fuel s₁ (0 + c.shards) (ok (v', xs)) s₂ =
                    subst (λ r. Builds l fuel s₁ (0 + c.shards) r s₂) done parts in
                  (
                    ok (handle_of c v' xs ctl),
                    s₂,
                    build_done p fuel c epoch clock gate s run'
                        (build_run ∙ ap (λ r. some (r, s₂)) done),
                    (ctl, s₁, refl, opened, whole, owned, omega arith, refl),
                  )
            ]
      ]

  -- New returns and does not fault, for a configuration that normalize accepts as `c`, if its cells at
  -- their stride and its buckets, and its control blocks, each with two huge pages more, take fewer than
  -- 2 ^ 64 bytes, counted without a wrap: fuel for a loop over the bytes of an arena is enough. If it answers an engine, the system has gained the windows of the control
  -- arena and of one arena for each shard, which share no byte with each other or with what was mapped,
  -- and nothing else; if it answers an error, every arena is given back, or a munmap failed.
  pub new_lem :
      (fuel gomaxprocs : ℕ) (cfg c : Config) (epoch clock : ℕ) (s : S)
      → normalize fuel gomaxprocs cfg ≡ some (none, c)
      → arena_span c + 2 * huge_page_size < 2 ^ 64
      → arena_span c + huge_page_size ≤ fuel
      → ctl_span c + 2 * huge_page_size < 2 ^ 64
      → ctl_span c + huge_page_size ≤ fuel
      → (res : Result Handle) × (t : S) × (new p fuel gomaxprocs cfg epoch clock s ≡ some (res, t))
        × Constructs p w c s res t
  new_lem fuel gomaxprocs cfg c epoch clock s valid fits enough fits_ctl enough_ctl =
      elim (Result-cases (init_gate zero_gate c.high_water_pct c.low_water_pct)) [
        | inr (e, bad) ↦ (
          err e,
          s,
          new_refused p fuel c epoch clock gomaxprocs cfg s valid bad,
          inr (Same-refl w s),
        )
        | inl (gate, good) ↦
            let start = new_gated p fuel c epoch clock gomaxprocs cfg s valid good in
            let (res, t, run, ends) =
              build_lem fuel c epoch clock s gate fits enough fits_ctl enough_ctl in
            (res, t, start ∙ run, ends)
      ]

  -- An engine that New has made, for a configuration whose cells, buckets and control blocks fit as
  -- new_lem asks and with the fuel that it asks, is taken down by Close: after any use that changes no
  -- mapping, Close leaves what was mapped before New, or a munmap has failed. A second Close answers no
  -- error and changes nothing.
  pub new-close_engine :
      (fuel gomaxprocs : ℕ) (cfg c : Config) (epoch clock : ℕ) (s : S) {h : Handle} {t u : S}
      → normalize fuel gomaxprocs cfg ≡ some (none, c)
      → arena_span c + 2 * huge_page_size < 2 ^ 64
      → arena_span c + huge_page_size ≤ fuel
      → ctl_span c + 2 * huge_page_size < 2 ^ 64
      → ctl_span c + huge_page_size ≤ fuel
      → new p fuel gomaxprocs cfg epoch clock s ≡ some (ok h, t)
      → Same w t u
      → let (failed, h', x) = close_engine p h u in
        ((w.failures s < w.failures x) ⊎ Same w s x) × (close_engine p h' x ≡ (none, h', x))
  new-close_engine fuel gomaxprocs cfg c epoch clock s {h} {t} {u} valid fits enough fits_ctl
        enough_ctl run used =
      let (res, t', run', ends) =
        new_lem fuel gomaxprocs cfg c epoch clock s valid fits enough fits_ctl enough_ctl in
      let ends' : Constructs p w c s (ok h) t =
        carry_some (Constructs p w c s) (sym run' ∙ run) ends in
      let (ctl, s₁, held, opened, whole, owned, _, live) = ends' in
      let freed = release_all-Restored l h.arenas u (Owned-Same l owned used) in
      (
        subst (λ x. (w.failures s < w.failures x) ⊎ Same w s x)
            (sym (close_engine_state p h ctl u live held)) (close-Restored l opened whole freed),
        close_closed p (close_engine p h u).1 (close_engine p h u).2
            (close_marks p h ctl u live held),
      )
