-- ===== src/Arena/Trim.antt =====
-- arena.go: the trim of tier 2 leaves the window mapped and nothing else.
use mathlib.Core.Path.{subst}
use native.Mathlib.Decide.{dec_lt}
use vautlage.Prelude.{
  ℕ, ◌+◌, ◌%◌, ◌^◌, ◌<◌, ◌≡◌, ◌≢◌, ◌⊎◌, inl, inr, refl, ap, sym, ◌∙◌, arith, Option, none, some,
  not, ◌&&◌, add64, sub64, Option-cases,
}
use vautlage.Errors.{Error, Result, ok, err}
use vautlage.Layout.{align_up}
use vautlage.Platform.{Platform, huge_page_size}
use vautlage.Platform.View.{View, within, Maps, Unmaps, Refuses}
use vautlage.Platform.Manual.{IsLawful}
use vautlage.Arena.{drop_slack, cut, trim}
use vautlage.Arena.Slack.{within-trim, slack_lem, multiple, whole_pages}
use vautlage.Arena.Finish.{Restored}

module _ {S : Type 0} (p : Platform S) where
  -- The three ends of the trim.
  cut_head :
      (raw raw_size size head tail : ℕ) (s : S) {e : Error}
      → (drop_slack p raw head s).0 ≡ some e
      → cut p raw raw_size size head tail s
        ≡ (err e, (p.unmap raw raw_size (drop_slack p raw head s).1).1)
  unfolding cut
  cut_head raw raw_size size head tail s e = ground arith

  cut_tail :
      (raw raw_size size head tail : ℕ) (s : S) {e : Error}
      → (drop_slack p raw head s).0 ≡ none
      → let t = drop_slack p (add64 raw (add64 head size)) tail (drop_slack p raw head s).1 in
        t.0 ≡ some e
        → cut p raw raw_size size head tail s ≡ (err e, (p.unmap (add64 raw head) size t.1).1)
  unfolding cut
  cut_tail raw raw_size size head tail s e f = ground arith

  cut_ok :
      (raw raw_size size head tail : ℕ) (s : S)
      → (drop_slack p raw head s).0 ≡ none
      → let t = drop_slack p (add64 raw (add64 head size)) tail (drop_slack p raw head s).1 in
        t.0 ≡ none → cut p raw raw_size size head tail s ≡ (ok (add64 raw head), t.1)
  unfolding cut
  cut_ok raw raw_size size head tail s e f = ground arith

  drop_some : (q n : ℕ) (s : S) → 0 < n → drop_slack p q n s ≡ p.unmap q n s
  drop_some q n s lt = ground arith

  drop_none : (q n : ℕ) (s : S) → ¬ (0 < n) → drop_slack p q n s ≡ (none, s)
  drop_none q n s ge = ground arith

  trim_words :
      (raw size head tail : ℕ) (s : S)
      → sub64 (align_up raw huge_page_size) raw ≡ head
      → sub64 (sub64 (add64 size huge_page_size) head) size ≡ tail
      → add64 size huge_page_size ≡ head + (size + tail)
      → trim p raw size s ≡ cut p raw (head + (size + tail)) size head tail s
  unfolding trim
  trim_words raw size head tail s hw tw e =
      ap
        (λ h.
          cut p raw (add64 size huge_page_size) size h
            (sub64 (sub64 (add64 size huge_page_size) h) size) s)
        hw
      ∙ ap (λ t. cut p raw (add64 size huge_page_size) size head t s) tw
      ∙ ap (λ r. cut p raw r size head tail s) e

module _ {S : Type 0} {p : Platform S} {v : View S} (l : IsLawful p v) where
  -- A call of sysUnmap does what it says, or a munmap failed.
  abbrev pub Released : ℕ → ℕ → S → Option Error × S → Type 0
  Released q n s x =
      ((x.0 ≡ none) × Unmaps v q n s x.1) ⊎ ((e : Error) × (x.0 ≡ some e) × Refuses v s x.1)

  -- A range of whole pages.
  abbrev pub Whole : ℕ → ℕ → Type 0
  Whole q n = (q ≢ 0) × (q % p.page_size ≡ 0) × (n % p.page_size ≡ 0)

  pub unmap_lem : (q n : ℕ) (s : S) → Whole q n → Released q n s (p.unmap q n s)
  unmap_lem q n s (ne, paged, whole) =
      let t = (p.unmap q n s).1 in
      elim (Option-cases (p.unmap q n s).0) [
        | inl done ↦ inl (done, l.unmap_ok ne paged whole (ap (λ o. (o, t)) done))
        | inr (e, failed) ↦ inr (e, failed, l.unmap_err (ap (λ o. (o, t)) failed))
      ]

  drop_slack_lem : (q n : ℕ) (s : S) → Whole q n → Released q n s (drop_slack p q n s)
  drop_slack_lem q n s w = elim (dec_lt 0 n) [
    | no z ↦
        let nothing : (b : ℕ) → v.mapped s b ≡ (v.mapped s b && not (within q n b)) =
          λ b. ground arith in
        subst (Released q n s) (sym (drop_none p q n s z))
          (inl (refl, record { mapped = nothing; failures = refl }))
    | yes lt ↦ subst (Released q n s) (sym (drop_some p q n s lt)) (unmap_lem q n s w)
  ]

  -- No call of munmap takes a failure back.
  failed_before :
      (q n : ℕ) {s₀ s t : S}
      → Whole q n
      → v.failures s ≡ v.failures s₀
      → Refuses v s t
      → Restored p v s₀ (p.unmap q n t).1
  failed_before q n {s₀} {s} {t} w before u = elim (unmap_lem q n t w) [
    | inl (done, again) ↦ inl (omega (arith, u.failures, again.failures))
    | inr (e, failed, again) ↦ inl (omega (arith, u.failures, again.failures))
  ]

  -- What the trim of a new mapping has to leave.
  abbrev pub Trimmed : ℕ → S → Result ℕ → S → Type 0
  Trimmed size s₀ (ok base) t = Maps v p.page_size base size s₀ t
  Trimmed size s₀ (err e) t = Restored p v s₀ t

  pub cut_lem :
      (raw head size tail : ℕ) {s₀ s : S}
      → Maps v p.page_size raw (head + (size + tail)) s₀ s
      → 0 < tail
      → (head + (size + tail)) % p.page_size ≡ 0
      → head % p.page_size ≡ 0
      → size % p.page_size ≡ 0
      → tail % p.page_size ≡ 0
      → (raw + head) % p.page_size ≡ 0
      → (raw + (head + size)) % p.page_size ≡ 0
      → let x = cut p raw (head + (size + tail)) size head tail s in Trimmed size s₀ x.0 x.1
  cut_lem raw head size tail {s₀} {s} m pos all wh ws wt wb we =
      let raw_size = head + (size + tail) in
      let base : add64 raw head ≡ raw + head = omega (arith, m.room) in
      let rest : add64 raw (add64 head size) ≡ raw + (head + size) = omega (arith, m.room) in
      let s₁ = (drop_slack p raw head s).1 in
      let R : Result ℕ × S → Type 0 = λ x. Trimmed size s₀ x.0 x.1 in
      elim (drop_slack_lem raw head s (m.place, m.paged, wh)) [
        | inr (e, failed, u) ↦
            subst R (sym (cut_head p raw raw_size size head tail s failed))
              (failed_before raw raw_size (m.place, m.paged, all) m.failures u)
        | inl (done, u) ↦
            elim (drop_slack_lem (add64 raw (add64 head size)) tail s₁
              (rw rest (λ e. m.place (omega arith), we, wt))) [
                | inr (e, failed, w) ↦
                    subst R (sym (cut_tail p raw raw_size size head tail s done failed)) (
                      failed_before (add64 raw head) size
                        (rw base (λ e. m.place (omega arith), wb, ws)) (u.failures ∙ m.failures) w)
                | inl (done', w) ↦
                    let w' : Unmaps v (raw + (head + size)) tail s₁
                        (drop_slack p (add64 raw (add64 head size)) tail s₁).1 =
                      subst
                        (λ q.
                          Unmaps v q tail s₁ (drop_slack p (add64 raw (add64 head size)) tail s₁).1)
                        rest w in
                    subst R (sym (cut_ok p raw raw_size size head tail s done done')) (
                      rw base (record {
                        place = λ e. m.place (omega arith);
                        paged = wb;
                        room = omega (arith, m.room);
                        free = λ a inside. m.free a (ground arith);
                        mapped = λ a.
                            w'.mapped a
                            ∙ ap (λ b. b && not (within (raw + (head + size)) tail a))
                                (u.mapped a ∙ ap (λ b. b && not (within raw head a)) (m.mapped a))
                            ∙ within-trim raw head size tail a (v.mapped s₀ a) (m.free a);
                        failures = w'.failures ∙ u.failures ∙ m.failures;
                      }))
              ]
      ]

  pub trim_lem :
      (raw size : ℕ) {s₀ s : S}
      → size % huge_page_size ≡ 0
      → size + huge_page_size < 2 ^ 64
      → Maps v p.page_size raw (size + huge_page_size) s₀ s
      → Trimmed size s₀ (trim p raw size s).0 (trim p raw size s).1
  unfolding trim
  trim_lem raw size {s₀} {s} whole small m =
      let (head, tail, both, some_tail, start, line, hw, tw) =
        slack_lem raw size m.place whole (omega (arith, m.room)) in
      let raw_size : add64 size huge_page_size ≡ head + (size + tail) = omega arith in
      let ws = whole_pages p.page_size size l.page whole in
      let wb = whole_pages p.page_size (raw + head) l.page line in
      let wh = multiple p.page_size raw head m.paged wb in
      let wt = multiple p.page_size head tail wh (ap (λ n. n % p.page_size) both ∙ l.page) in
      let total : size + huge_page_size ≡ head + (size + tail) = omega arith in
      let all = whole_pages p.page_size (head + (size + tail)) l.page (omega arith) in
      let we = whole_pages p.page_size (raw + (head + size)) l.page (omega arith) in
      let done =
        cut_lem raw head size tail (subst (λ n. Maps v p.page_size raw n s₀ s) total m) some_tail
          all wh ws wt wb we in
      subst (λ x. Trimmed size s₀ x.0 x.1) (sym (trim_words p raw size head tail s hw tw raw_size))
        done
