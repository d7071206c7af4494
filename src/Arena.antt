-- ===== src/Arena.antt =====
-- arena.go: an arena over the functions of a platform. A call that the source makes for its effect
-- alone, and whose error it drops, is its state here.
pub mod Slack
pub mod Prefault
pub mod Finish
pub mod Trim
pub mod Branches
pub mod New
pub mod Release
pub mod Unavailable
pub mod Owned
pub mod Return
use vautlage.Prelude.{
  ℕ, zero, suc, ◌+◌, Option, none, some, Bool, true, false, not, ◌||◌, if◌then◌else◌, ◌==◌, ltb,
  add64, sub64,
}
use vautlage.Errors.{Error, config, pin_failed, Result, ok, err}
use vautlage.Layout.{is_pow2, is_aligned, align_up}
use vautlage.Platform.{Platform, huge_page_size}

pub record Arena : Type 0 where
  pub base : ℕ
  pub size : ℕ
  pub raw : ℕ
  pub raw_size : ℕ
  pub page_size : ℕ
  pub huge_native : Bool
  pub huge_advised : Bool
  pub pinned : Bool

pub record ArenaStats : Type 0 where
  pub base : ℕ
  pub size : ℕ
  pub mapped_size : ℕ
  pub page_size : ℕ
  pub huge_page_aligned : Bool
  pub huge_pages_native : Bool
  pub huge_pages_advise : Bool
  pub pinned : Bool

-- At.
unfoldable pub at : Arena → ℕ → ℕ
at a off = add64 a.base off

unfoldable pub stats : Arena → ArenaStats
unfolding is_aligned
stats a = record {
  base = a.base;
  size = a.size;
  mapped_size = a.raw_size;
  page_size = a.page_size;
  huge_page_aligned = is_aligned a.base huge_page_size;
  huge_pages_native = a.huge_native;
  huge_pages_advise = a.huge_advised;
  pinned = a.pinned;
}

module _ {S : Type 0} (p : Platform S) where
  -- The loop of prefault from the offset `off` on.
  unfoldable pub touch : ℕ → ℕ → Arena → ℕ → S → Option S
  touch zero stride a off s = none
  touch (suc fuel) stride a off s =
      let rest = touch fuel stride a (add64 off stride) (p.write (add64 a.base off) 0 s) in
      if ltb off a.size then rest else some s

  abbrev pub stride_of : Arena → ℕ
  stride_of a = if a.huge_native || a.huge_advised then huge_page_size else a.page_size

  unfoldable pub prefault : ℕ → Arena → S → Option S
  prefault fuel a s = touch fuel (stride_of a) a 0 s

  -- NewArena from the pin on.
  unfoldable pub pin_span : Bool → Arena → S → Result Arena × S
  pin_span require_pinned a s =
      let (failed, s₁) = p.pin a.base a.size s in
      let s₂ = (p.unmap a.raw a.raw_size s₁).1 in
      elim failed [
        | none ↦ (ok (record a { pinned = true }), s₁)
        | some e ↦ if require_pinned then (err pin_failed, s₂) else (ok a, s₁)
      ]

  -- NewArena from the check of the alignment on.
  unfoldable pub finish : ℕ → Bool → Arena → S → Option (Result Arena × S)
  finish fuel require_pinned a s =
      let touched = prefault fuel a s in
      if not (is_aligned a.base huge_page_size)
      then some (err config, (p.unmap a.raw a.raw_size s).1)
      else elim touched [ none ↦ none | some s₁ ↦ some (pin_span require_pinned a s₁) ]

  -- `if slack > 0`, sysUnmap of the slack.
  abbrev pub drop_slack : ℕ → ℕ → S → Option Error × S
  drop_slack q slack s = if ltb 0 slack then p.unmap q slack s else (none, s)

  -- Tier 2 from the trimmed window on: the advice and the rest.
  unfoldable pub advise : ℕ → Bool → Bool → Arena → S → Option (Result Arena × S)
  advise fuel require_huge require_pinned a s =
      let (failed, s₁) = p.advise_huge a.base a.size s in
      let go = finish fuel require_pinned (record a { huge_advised = true }) s₁ in
      let go_on = finish fuel require_pinned a s₁ in
      elim failed [
        | none ↦ go
        | some e ↦ if require_huge then some (err e, (p.unmap a.base a.size s₁).1) else go_on
      ]

  -- The release of the two slacks of a mapping at `raw`: the address of the window, or the error.
  unfoldable pub cut : ℕ → ℕ → ℕ → ℕ → ℕ → S → Result ℕ × S
  cut raw raw_size size head tail s =
      let (head_failed, s₁) = drop_slack raw head s in
      let (tail_failed, s₂) = drop_slack (add64 raw (add64 head size)) tail s₁ in
      elim head_failed [
        | some e ↦ (err e, (p.unmap raw raw_size s₁).1)
        | none ↦ elim tail_failed [
          | some e ↦ (err e, (p.unmap (add64 raw head) size s₂).1)
          | none ↦ (ok (add64 raw head), s₂)
        ]
      ]

  -- The slacks of a raw mapping, and their release.
  unfoldable pub trim : ℕ → ℕ → S → Result ℕ × S
  trim raw size s =
      let raw_size = add64 size huge_page_size in
      let head = sub64 (align_up raw huge_page_size) raw in
      let tail = sub64 (sub64 raw_size head) size in cut raw raw_size size head tail s

  abbrev pub window : ℕ → ℕ → Bool → Arena
  window base size native = record {
    base = base;
    size = size;
    raw = base;
    raw_size = size;
    page_size = p.page_size;
    huge_native = native;
    huge_advised = false;
    pinned = false;
  }

  -- Tier 2.
  unfoldable pub map_and_trim : ℕ → ℕ → Bool → Bool → S → Option (Result Arena × S)
  map_and_trim fuel size require_huge require_pinned s =
      let (mapped, s₁) = p.map_anon (add64 size huge_page_size) s in
      elim mapped [
        | err e ↦ some (err e, s₁)
        | ok raw ↦
            let (trimmed, s₂) = trim raw size s₁ in
            elim trimmed [
              | err e ↦ some (err e, s₂)
              | ok base ↦ advise fuel require_huge require_pinned (window base size false) s₂
            ]
      ]

  -- NewArena; `fuel` bounds the loop of prefault.
  unfoldable pub new_arena : ℕ → ℕ → Bool → Bool → S → Option (Result Arena × S)
  new_arena fuel request require_huge require_pinned s =
      let size = align_up request huge_page_size in
      let (mapped, s₁) = p.map_huge size s in
      if request == 0
      then some (err config, s)
      else if not (is_pow2 p.page_size)
      then some (err config, s)
      else elim mapped [
        | ok base ↦ finish fuel require_pinned (window base size true) s₁
        | err e ↦
            if require_huge
            then some (err e, s₁)
            else map_and_trim fuel size require_huge require_pinned s₁
      ]

  -- The loop of Zero, over `n` bytes from index `i` on.
  unfoldable pub zero_from : ℕ → ℕ → Arena → S → S
  zero_from zero i a s = s
  zero_from (suc n) i a s = zero_from n (suc i) a (p.write (add64 a.base i) 0 s)

  -- Zero, over the slice that Bytes makes.
  unfoldable pub zero_span : Arena → S → S
  zero_span a s = zero_from a.size 0 a s

  -- Close: the error, the arena and the system that it leaves.
  unfoldable pub close : Arena → S → Option Error × Arena × S
  close a s =
      let s₁ = if a.pinned then (p.unpin a.base a.size s).1 else s in
      let (failed, s₂) = p.unmap a.raw a.raw_size s₁ in
      if a.base == 0
      then (none, a, s)
      else (failed, record a { base = 0; raw = 0; size = 0; raw_size = 0; pinned = false }, s₂)
