-- ===== src/Arena/Slack.antt =====
-- arena.go: the arithmetic of the head and tail slack, and what is mapped after the trim.
use native.Mathlib.Nat.{mod-eq_of_lt, div-add-mod', mul-mod_left, mul-add-mod_self_right, mul_assoc}
use native.Mathlib.Decide.{dec_le}
use vautlage.Prelude.{
  ℕ, ◌+◌, ◌-◌, ◌*◌, ◌/◌, ◌%◌, ◌^◌, ◌≤◌, ◌<◌, ◌≡◌, ◌≢◌, ap, sym, ◌∙◌, arith, Bool, true, false, not,
  ◌&&◌, ◌||◌, add64, sub64,
}
use vautlage.Platform.{huge_page_size}
use vautlage.Platform.View.{within}
use vautlage.Layout.{align_up}
use vautlage.Layout.Align.{align_up_lem}

-- The mapping that is left of a raw one once the bytes before and after the window are gone.
pub within-trim :
    (raw head size tail a : ℕ) (m : Bool)
    → (within raw (head + (size + tail)) a ≡ true → m ≡ false)
    → ((((m || within raw (head + (size + tail)) a) && not (within raw head a))
          && not (within (raw + (head + size)) tail a))
        ≡ (m || within (raw + head) size a))
within-trim raw head size tail a true h = ground arith
within-trim raw head size tail a false h = ground arith

-- The bits of an address, mapped and unmapped again.
pub undo_bit : (m m₀ w : Bool) → m ≡ (m₀ || w) → (w ≡ true → m₀ ≡ false) → (m && not w) ≡ m₀
undo_bit m true true e h = absurd (ground arith)
undo_bit m true false e h = ground arith
undo_bit m false w e h = ground arith

-- A page that divides the huge page is at most one.
pub page_le : (page : ℕ) → huge_page_size % page ≡ 0 → page ≤ huge_page_size
page_le page e = elim (dec_le page huge_page_size) [
  | yes le ↦ le
  | no gt ↦
      let own : huge_page_size % page ≡ huge_page_size = mod-eq_of_lt (omega arith) in
      absurd (omega arith)
]

-- The words that NewArena computes, without wrap-around.
pub slack_lem :
    (raw size : ℕ)
    → raw ≢ 0
    → size % huge_page_size ≡ 0
    → raw + (size + huge_page_size) ≤ 2 ^ 64
    → (head : ℕ) × (tail : ℕ) × (head + tail ≡ huge_page_size)
      × (0 < tail)
      × (align_up raw huge_page_size ≡ raw + head)
      × ((raw + head) % huge_page_size ≡ 0)
      × (sub64 (align_up raw huge_page_size) raw ≡ head)
      × (sub64 (sub64 (add64 size huge_page_size) head) size ≡ tail)
slack_lem raw size ne whole room =
    let (aligned, above, below) = align_up_lem raw 21 (omega arith) (omega arith) in
    let head = align_up raw huge_page_size - raw in
    let start : raw + head ≡ align_up raw huge_page_size = omega arith in
    (
      head,
      huge_page_size - head,
      omega arith,
      omega arith,
      omega arith,
      ap (λ n. n % huge_page_size) start ∙ aligned,
      omega arith,
      omega arith,
    )

-- Multiples of a page.
pub multiple : (page a b : ℕ) → a % page ≡ 0 → (a + b) % page ≡ 0 → b % page ≡ 0
multiple page a b ea eb =
    let rows : a / page * page + b ≡ a + b = omega (arith, div-add-mod' a page) in
    sym (mul-add-mod_self_right (a / page) page b) ∙ ap (λ n. n % page) rows ∙ eb

pub whole_pages : (page a : ℕ) → huge_page_size % page ≡ 0 → a % huge_page_size ≡ 0 → a % page ≡ 0
whole_pages page a e whole =
    let page_rows : huge_page_size / page * page ≡ huge_page_size =
      omega (arith, div-add-mod' huge_page_size page) in
    let rows : a / huge_page_size * huge_page_size ≡ a = omega arith in
    sym (
      ap (λ n. n % page)
        (mul_assoc (a / huge_page_size) (huge_page_size / page) page
          ∙ ap (λ n. a / huge_page_size * n) page_rows
          ∙ rows))
    ∙ mul-mod_left (a / huge_page_size * (huge_page_size / page)) page
