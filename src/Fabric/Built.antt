-- ===== src/Fabric/Built.antt =====
-- fabric.go: New gives back every arena when it fails, and Close does when it succeeded.
use mathlib.Core.Path.{subst}
use vautlage.Prelude.{
  ℕ, zero, suc, ◌+◌, ◌*◌, ◌^◌, ◌≤◌, ◌<◌, ◌≡◌, inl, inr, refl, ap, ◌∙◌, arith, List, [], ◌∷◌, ◌++◌,
  Option, none, some, false, if◌then◌else◌, add64, mul64, length, length-append,
}
use vautlage.Errors.{Error, Result, ok, err, Result-cases}
use vautlage.Layout.{cell_stride_for}
use vautlage.Gate.{Gate, init_gate}
use vautlage.Index.{index_bucket_size}
use vautlage.Config.{Config, normalize, int_lt}
use vautlage.Platform.{Platform, huge_page_size}
use vautlage.Platform.View.{View}
use vautlage.Platform.Manual.{IsLawful}
use vautlage.Arena.{Arena, new_arena, close}
use vautlage.Arena.Finish.{Restored}
use vautlage.Arena.New.{Built, new_arena_lem}
use vautlage.Arena.Owned.{Owned, release_all}
use vautlage.Arena.Return.{Owned-snoc, release_all-Restored, release_after}
use vautlage.Fabric.{Vaultage}
use vautlage.Fabric.Build.{
  Handle, lay_out, shard_bytes, build_shards, blank_engine, build, new, ctl_header, shard_stride,
  zero_gate,
}
use vautlage.Fabric.LayOut.{
  laid, lay_out_ends, lay_out_lem, span, shard_bytes-span, span-Room, span-put_shard,
}

module _ {S : Type 0} (p : Platform S) (fuel : ℕ) where
  abbrev pub shard_arena : Vaultage → S → Option (Result Arena × S)
  shard_arena v s = new_arena p fuel (shard_bytes v) v.cfg.require_huge_pages v.cfg.require_pinned s

  pub build_failed :
      (ctl : Arena) (n i : ℕ) (v : Vaultage) (xs : List Arena) (s : S) {e : Error} {t : S}
      → shard_arena v s ≡ some (err e, t)
      → build_shards p fuel ctl (suc n) i v xs s ≡ some (err e, release_all p xs t)
  unfolding build_shards
  build_failed ctl n i v xs s e = ground arith

  pub build_refused :
      (ctl : Arena) (n i : ℕ) (v : Vaultage) (xs : List Arena) (s : S) {a : Arena} {e : Error}
      {t : S}
      → shard_arena v s ≡ some (ok a, t)
      → lay_out ctl a i v ≡ some (err e)
      → build_shards p fuel ctl (suc n) i v xs s ≡ some (err e, release_all p (xs ++ a ∷ []) t)
  unfolding build_shards
  build_refused ctl n i v xs s e f = ground arith

  pub build_faults :
      (ctl : Arena) (n i : ℕ) (v : Vaultage) (xs : List Arena) (s : S) {a : Arena} {t : S}
      → shard_arena v s ≡ some (ok a, t)
      → lay_out ctl a i v ≡ none
      → build_shards p fuel ctl (suc n) i v xs s ≡ none
  unfolding build_shards
  build_faults ctl n i v xs s e f = ground arith

  pub build_next :
      (ctl : Arena) (n i : ℕ) (v : Vaultage) (xs : List Arena) (s : S) {a : Arena} {v' : Vaultage}
      {t : S}
      → shard_arena v s ≡ some (ok a, t)
      → lay_out ctl a i v ≡ some (ok v')
      → build_shards p fuel ctl (suc n) i v xs s
        ≡ build_shards p fuel ctl n (suc i) v' (xs ++ a ∷ []) t
  unfolding build_shards
  build_next ctl n i v xs s e f = ground arith

module _ {S : Type 0} {p : Platform S} {w : View S} (l : IsLawful p w) (fuel : ℕ) (s₀ : S) where
  -- Either every shard has its arena, and the system has gained these alone, or all is given back.
  abbrev pub Builds : ℕ → Result (Vaultage × List Arena) → S → Type 0
  Builds n (ok (v, xs)) t = Owned p w s₀ xs t × (length xs ≡ n)
  Builds n (err e) t = Restored p w s₀ t

  pub build_shards_lem :
      (ctl : Arena) (n i : ℕ) (v : Vaultage) (xs : List Arena) (s : S)
      → span v + 2 * huge_page_size < 2 ^ 64
      → span v + huge_page_size ≤ fuel
      → ctl_header + shard_stride * (i + n) ≤ ctl.size
      → Owned p w s₀ xs s
      → (res : Result (Vaultage × List Arena)) × (t : S) × (build_shards p fuel ctl n i v xs s
          ≡ some (res, t))
        × Builds (length xs + n) res t
  unfolding build_shards
  build_shards_lem ctl zero i v xs s small enough blocks o = (ok (v, xs), s, refl, (o, omega arith))
  build_shards_lem ctl (suc n) i v xs s small enough blocks o =
      let bytes = shard_bytes-span v (omega arith) in
      let (res, t, run, ends) =
        new_arena_lem l fuel (shard_bytes v) v.cfg.require_huge_pages v.cfg.require_pinned s
          (omega (arith, bytes)) (omega (arith, bytes)) in
      elim (Result-cases res) [
        | inr (e, failed) ↦
            let back : Restored p w s t =
              subst
                (λ r. Built p w (shard_bytes v) v.cfg.require_huge_pages v.cfg.require_pinned s r t)
                failed ends in
            (
              _,
              _,
              build_failed p fuel ctl n i v xs s (run ∙ ap (λ r. some (r, t)) failed),
              release_after l o back,
            )
        | inl (a, built) ↦
            let run' = run ∙ ap (λ r. some (r, t)) built in
            let (opened, whole, holds, _, _, _) : Built p w (shard_bytes v) v.cfg.require_huge_pages
                v.cfg.require_pinned s (ok a) t =
              subst
                (λ r. Built p w (shard_bytes v) v.cfg.require_huge_pages v.cfg.require_pinned s r t)
                built ends in
            let o' = Owned-snoc l o opened whole in
            let (laid_out, ran) =
              lay_out_ends ctl a i v
                (span-Room ctl a i v (omega arith) (omega arith) (omega (arith, bytes))) in
            elim (Result-cases laid_out) [
              | inr (e, refused) ↦ (
                _,
                _,
                build_refused p fuel ctl n i v xs s run' (ran ∙ ap some refused),
                release_all-Restored l (xs ++ a ∷ []) t o',
              )
              | inl (v', done) ↦
                  let done' = ran ∙ ap some done in
                  let (ring, index, _, same, _) = lay_out_lem ctl a i v done' in
                  let kept : span v' ≡ span v =
                    ap (λ x. span x) same ∙ span-put_shard v i (laid a i ring index) in
                  let (res', u, rest, ends') =
                    build_shards_lem ctl n (suc i) v' (xs ++ a ∷ []) t (omega (arith, kept))
                      (omega (arith, kept)) (omega arith) o' in
                  let count : length (xs ++ a ∷ []) + n ≡ length xs + suc n =
                    ap (λ k. k + n) (length-append xs (a ∷ [])) ∙ omega arith in
                  (
                    res',
                    u,
                    build_next p fuel ctl n i v xs s run' done' ∙ rest,
                    subst (λ k. Builds k res' u) count ends',
                  )
            ]
      ]

-- The bytes of a shard's cells and buckets and of the control blocks, without a wrap.
abbrev pub arena_span : Config → ℕ
arena_span c =
    c.cells_per_shard * cell_stride_for c.payload_capacity
    + c.cells_per_shard * c.index_buckets_per_cell * index_bucket_size

abbrev pub ctl_span : Config → ℕ
ctl_span c = ctl_header + shard_stride * c.shards

-- The size that New asks of the control arena.
abbrev pub ctl_bytes : Config → ℕ
ctl_bytes c = add64 ctl_header (mul64 shard_stride c.shards)

pub ctl_bytes-span : (c : Config) → ctl_span c < 2 ^ 64 → ctl_bytes c ≡ ctl_span c
ctl_bytes-span c small = omega arith

pub span-blank_engine :
    (c : Config) (gate : Gate) (epoch clock : ℕ)
    → span (blank_engine c gate epoch clock) ≡ arena_span c
unfolding blank_engine
span-blank_engine c gate epoch clock = refl

abbrev pub handle_of : Config → Vaultage → List Arena → Arena → Handle
handle_of c v xs ctl = record {
  engine = v;
  arenas = xs;
  ctl_arena = some ctl;
  closed = false;
  workers = if c.consumer then c.shards else 0;
  ticker = int_lt 0 c.coarse_clock;
}

module _ {S : Type 0} (p : Platform S) (fuel : ℕ) (c : Config) (epoch clock : ℕ) where
  pub new_refused :
      (gomaxprocs : ℕ) (cfg : Config) (s : S) {e : Error}
      → normalize fuel gomaxprocs cfg ≡ some (none, c)
      → init_gate zero_gate c.high_water_pct c.low_water_pct ≡ err e
      → new p fuel gomaxprocs cfg epoch clock s ≡ some (err e, s)
  unfolding new
  new_refused gomaxprocs cfg s e f = ground arith

  pub new_gated :
      (gomaxprocs : ℕ) (cfg : Config) (s : S) {gate : Gate}
      → normalize fuel gomaxprocs cfg ≡ some (none, c)
      → init_gate zero_gate c.high_water_pct c.low_water_pct ≡ ok gate
      → new p fuel gomaxprocs cfg epoch clock s ≡ build p fuel c gate epoch clock s
  unfolding new
  new_gated gomaxprocs cfg s e f = ground arith

  module _ (gate : Gate) (s : S) where
    pub build_no_ctl :
        {e : Error} {s₁ : S}
        → new_arena p fuel (ctl_bytes c) false c.require_pinned s ≡ some (err e, s₁)
        → build p fuel c gate epoch clock s ≡ some (err e, s₁)
    unfolding build
    build_no_ctl e = ground arith

    pub build_no_shards :
        {ctl : Arena} {e : Error} {s₁ s₂ : S}
        → new_arena p fuel (ctl_bytes c) false c.require_pinned s ≡ some (ok ctl, s₁)
        → build_shards p fuel ctl c.shards 0 (blank_engine c gate epoch clock) [] s₁
          ≡ some (err e, s₂)
        → build p fuel c gate epoch clock s ≡ some (err e, (close p ctl s₂).2)
    unfolding build
    build_no_shards e f = ground arith

    pub build_done :
        {ctl : Arena} {v : Vaultage} {xs : List Arena} {s₁ s₂ : S}
        → new_arena p fuel (ctl_bytes c) false c.require_pinned s ≡ some (ok ctl, s₁)
        → build_shards p fuel ctl c.shards 0 (blank_engine c gate epoch clock) [] s₁
          ≡ some (ok (v, xs), s₂)
        → build p fuel c gate epoch clock s ≡ some (ok (handle_of c v xs ctl), s₂)
    unfolding build
    build_done e f = ground arith
