-- ===== src/Arena/Prefault.antt =====
-- arena.go: prefault stores to each page of the span, and ends.
use mathlib.Core.Path.{subst}
use native.Mathlib.Nat.{mul-le-mul_right, mul-le-mul_left, suc-mul, zero-add}
use native.Mathlib.Decide.{dec_lt, ℕ_discrete}
use vautlage.Prelude.{
  ℕ, zero, suc, ◌+◌, ◌-◌, ◌*◌, ◌^◌, ◌≤◌, ◌<◌, ◌≡◌, ap, ◌∙◌, arith, some, true, add64,
}
use vautlage.Platform.{Platform, huge_page_size}
use vautlage.Platform.View.{View, Same, Keeps, Same-refl, Same-trans}
use vautlage.Platform.Manual.{IsLawful}
use vautlage.Arena.{Arena, touch, prefault, stride_of}

rounds : (size stride fuel : ℕ) → 0 < stride → size < fuel → size + stride ≤ 0 + fuel * stride
rounds size stride fuel pos lt =
    let all : suc size * stride ≤ fuel * stride = mul-le-mul_right stride lt in
    let one_each : size * 1 ≤ size * stride = mul-le-mul_left size pos in
    let row : suc size * stride ≡ size * stride + stride = suc-mul size stride in omega arith

module _ {S : Type 0} {p : Platform S} {v : View S} (l : IsLawful p v) (a : Arena) where
  touch_end :
      (fuel stride off : ℕ) (s : S) → a.size ≤ off → touch p (suc fuel) stride a off s ≡ some s
  unfolding touch
  touch_end fuel stride off s le = ground arith

  touch_next :
      (fuel stride off : ℕ) (s : S)
      → off < a.size
      → touch p (suc fuel) stride a off s
        ≡ touch p fuel stride a (add64 off stride) (p.write (add64 a.base off) 0 s)
  unfolding touch
  touch_next fuel stride off s lt = ground arith

  -- From `s` to `t` a store was made at every multiple of the stride from `off` on, and no mapping changed.
  abbrev Touches : ℕ → ℕ → S → S → Type 0
  Touches stride off s t =
      Same v s t
      × Keeps v s t
      × ((k : ℕ) → off + k * stride < a.size → v.touched t (add64 a.base (off + k * stride)) ≡ true)

  touch_lem :
      (fuel stride off : ℕ) (s : S)
      → 0 < stride
      → a.size + stride < 2 ^ 64
      → off < a.size + stride
      → a.size + stride ≤ off + fuel * stride
      → (t : S) × (touch p fuel stride a off s ≡ some t) × Touches stride off s t
  unfolding touch
  touch_lem zero stride off s pos small near enough = absurd (omega arith)
  touch_lem (suc fuel) stride off s pos small near enough = elim (dec_lt off a.size) [
    | no le ↦ (
      s,
      touch_end fuel stride off s (omega arith),
      (Same-refl v s, λ b h. h, λ k lt. absurd (omega arith)),
    )
    | yes lt ↦
        let s₁ = p.write (add64 a.base off) 0 s in
        let e : add64 off stride ≡ off + stride = omega arith in
        let (t, run, (same, keeps, touches)) =
          touch_lem fuel stride (off + stride) s₁ pos small (omega arith) (omega arith) in
        (
          t,
          touch_next fuel stride off s lt ∙ ap (λ o. touch p fuel stride a o s₁) e ∙ run,
          (
            Same-trans v (l.write (add64 a.base off) 0 s) same,
            λ b h. keeps b (l.write_keeps (add64 a.base off) 0 s b h),
            λ k inside. elim (ℕ_discrete k 0) [
              | yes z ↦
                  let first : off + k * stride ≡ off = ground arith in
                  rw first (keeps (add64 a.base off) (l.write_touches (add64 a.base off) 0 s))
              | no nz ↦
                  let later : off + k * stride ≡ off + stride + (k - 1) * stride =
                    let pre : k ≡ suc (k - 1) = omega arith in
                    let row : k * stride ≡ (k - 1) * stride + stride =
                      ap (λ n. n * stride) pre ∙ suc-mul (k - 1) stride in
                    omega arith in
                  rw later (touches (k - 1) (omega arith))
            ],
          ),
        )
  ]

  -- prefault returns: fuel above the size is enough. It changes no mapping, and stores to the first
  -- byte of each page of the span, of the host's size or, on huge pages, of 2 MiB.
  pub prefault_lem :
      (fuel : ℕ) (s : S)
      → 0 < a.page_size
      → a.page_size ≤ huge_page_size
      → a.size + huge_page_size < 2 ^ 64
      → a.size < fuel
      → (t : S) × (prefault p fuel a s ≡ some t)
        × Same v s t
        × ((k : ℕ)
            → k * stride_of p a < a.size
            → v.touched t (add64 a.base (k * stride_of p a)) ≡ true)
  unfolding prefault
  prefault_lem fuel s pos most small enough =
      let pos' : 0 < stride_of p a = ground arith in
      let (t, run, (same, keeps, touches)) =
        touch_lem fuel (stride_of p a) 0 s pos' (ground arith) (omega arith)
          (rounds a.size (stride_of p a) fuel pos' enough) in
      (
        t,
        run,
        same,
        λ k lt.
            subst (λ o. v.touched t (add64 a.base o) ≡ true) (zero-add (k * stride_of p a))
              (touches k (omega arith)),
      )
