-- ===== src/Config/Normal.antt =====
-- What a normalized configuration is, and where normalize does not end.
use native.Mathlib.Decide.{dec_lt}
use native.Mathlib.Nat.{pow-le-pow_right}
use mathlib.Core.Path.{subst}
use vautlage.Prelude.{
  ℕ, zero, suc, ◌+◌, ◌*◌, ◌^◌, ◌≤◌, ◌<◌, ◌≡◌, ◌≢◌, ◌⊎◌, inl, inr, refl, ap, sym, ◌∙◌, arith, none,
  some, true, mul64,
}
use vautlage.Prelude.Bits.{pow-add}
use vautlage.Layout.{is_pow2}
use vautlage.Errors.{config}
use vautlage.Config.{Config, round_up, check, normalize}

double : (j : ℕ) → j < 62 → mul64 (2 ^ j) 2 ≡ 2 ^ suc j
double j h =
    let small : 2 ^ suc j ≤ 2 ^ 62 =
      pow-le-pow_right (omega arith) {i = suc j} {j = 62} (omega arith) in
    omega (arith, pow-add j 1)

below : (j shards : ℕ) → 2 ^ j < shards → shards ≤ 2 ^ 62 → j < 62
below j shards lt le = elim (dec_lt j 62) [
  | yes h ↦ h
  | no h ↦
      absurd (omega (arith, pow-le-pow_right {n = 2} (omega arith) {i = 62} {j = j} (omega arith)))
]

round_up_stop :
    (fuel n shards : ℕ) → shards ≤ n → n ≤ 2 ^ 62 → round_up (suc fuel) n shards ≡ some n
unfolding round_up
round_up_stop fuel n shards le small = ground arith

round_up_next :
    (fuel n shards : ℕ)
    → n < shards
    → shards ≤ 2 ^ 62
    → round_up (suc fuel) n shards ≡ round_up fuel (mul64 n 2) shards
unfolding round_up
round_up_next fuel n shards lt small = ground arith

-- The least power of two from `2 ^ j` on that reaches `shards`.
abbrev Rounded : ℕ → ℕ → ℕ → Type 0
Rounded j shards k = (shards ≤ 2 ^ k) × (k ≤ 62) × ((k ≡ j) ⊎ (2 ^ k < 2 * shards))

round_up_lem :
    (fuel j shards : ℕ)
    → j ≤ 62
    → 62 ≤ j + fuel
    → shards ≤ 2 ^ 62
    → (k : ℕ) × (round_up (suc fuel) (2 ^ j) shards ≡ some (2 ^ k)) × Rounded j shards k
round_up_lem zero j shards le enough small =
    let same : j ≡ 62 = omega arith in
    (
      62,
      rw same (round_up_stop zero (2 ^ 62) shards small (omega arith)),
      (small, omega arith, inl (sym same)),
    )
round_up_lem (suc fuel) j shards le enough small = elim (dec_lt (2 ^ j) shards) [
  | no nlt ↦ (
    j,
    round_up_stop (suc fuel) (2 ^ j) shards (omega arith)
        (pow-le-pow_right {n = 2} (omega arith) {i = j} {j = 62} le),
    (omega arith, le, inl refl),
  )
  | yes lt ↦
      let lower = below j shards lt small in
      let (k, run, rounded) = round_up_lem fuel (suc j) shards (omega arith) (omega arith) small in
      (
        k,
        round_up_next (suc fuel) (2 ^ j) shards lt small
            ∙ ap (λ n. round_up (suc fuel) n shards) (double j lower)
            ∙ run,
        (
          rounded.0,
          rounded.1,
          inr (elim rounded.2 [
            | inl e' ↦
                let same : 2 ^ k ≡ 2 ^ suc j = ap (λ i. 2 ^ i) e' in omega (arith, pow-add j 1)
            | inr t ↦ t
          ]),
        ),
      )
]

-- A setting is kept, or was 0 and has its default.
abbrev Settles : ℕ → ℕ → ℕ → Type 0
Settles n d n' = ((n ≢ 0) × (n' ≡ n)) ⊎ ((n ≡ 0) × (n' ≡ d))

abbrev IsPower : ℕ → Type 0
IsPower n = (k : ℕ) × (n ≡ 2 ^ k)

-- `c'` is `c` normalized, the number of shards apart.
pub record Normalizes (c c' : Config) : Type 0 where
  pub cells : Settles c.cells_per_shard 65536 c'.cells_per_shard
  pub cells_pow : is_pow2 c'.cells_per_shard ≡ true
  pub payload : Settles c.payload_capacity 448 c'.payload_capacity
  pub payload_pos : (0 < c'.payload_capacity) × (c'.payload_capacity < 2 ^ 63)
  pub high : Settles c.high_water_pct 90 c'.high_water_pct
  pub low : Settles c.low_water_pct 70 c'.low_water_pct
  pub window :
      (0 < c'.low_water_pct) × (c'.low_water_pct < c'.high_water_pct) × (c'.high_water_pct ≤ 100)
  pub buckets : Settles c.index_buckets_per_cell 2 c'.index_buckets_per_cell
  pub buckets_pow : is_pow2 c'.index_buckets_per_cell ≡ true
  pub same_shards : c'.shards ≡ c.shards

check_ok :
    (c : Config) → c.payload_capacity < 2 ^ 64 → (check c).0 ≡ none → Normalizes c (check c).1
unfolding check
check_ok c word e = record {
  cells = ground arith;
  cells_pow = ground arith;
  payload = ground arith;
  payload_pos = ground arith;
  high = ground arith;
  low = ground arith;
  window = ground arith;
  buckets = ground arith;
  buckets_pow = ground arith;
  same_shards = ground arith;
}

check_err : (c : Config) → ((check c).0 ≡ none) ⊎ ((check c).0 ≡ some config)
unfolding check
check_err c = ground arith

-- The number of shards asked for: GOMAXPROCS if the setting is not positive.
abbrev pub Wants : ℕ → ℕ → ℕ → Type 0
Wants gomaxprocs shards wanted =
    ((0 < shards) × (shards < 2 ^ 63) × (wanted ≡ shards))
    ⊎ (((shards ≡ 0) ⊎ (2 ^ 63 ≤ shards)) × (wanted ≡ gomaxprocs))

normalize_rounds :
    (fuel gomaxprocs wanted n : ℕ) (c : Config)
    → c.shards < 2 ^ 64
    → Wants gomaxprocs c.shards wanted
    → round_up fuel 1 wanted ≡ some n
    → normalize fuel gomaxprocs c ≡ some (check (record c { shards = n }))
unfolding normalize
normalize_rounds fuel gomaxprocs wanted n c word w run = ground arith

-- For at most 2 ^ 62 shards 63 rounds are enough, and normalize answers. Either it reports a
-- configuration error, or the number of shards is the least power of two that reaches the number
-- asked for, every other setting is kept or had its default for 0, cells and index buckets are powers
-- of two, the payload capacity is positive, and 0 < low < high ≤ 100 for the water marks.
pub normalize_lem :
    (fuel gomaxprocs wanted : ℕ) (c : Config)
    → c.shards < 2 ^ 64
    → c.payload_capacity < 2 ^ 64
    → Wants gomaxprocs c.shards wanted
    → 1 ≤ wanted
    → wanted ≤ 2 ^ 62
    → (c' : Config) × (((normalize (63 + fuel) gomaxprocs c ≡ some (none, c'))
          × ((k : ℕ) × (c'.shards ≡ 2 ^ k) × (wanted ≤ 2 ^ k) × (2 ^ k < 2 * wanted))
          × Normalizes (record c { shards = c'.shards }) c')
        ⊎ (normalize (63 + fuel) gomaxprocs c ≡ some (some config, c')))
normalize_lem fuel gomaxprocs wanted c word word' w one small =
    let (k, run, rounded) = round_up_lem (62 + fuel) 0 wanted (omega arith) (omega arith) small in
    let fuel_eq : suc (62 + fuel) ≡ 63 + fuel = omega arith in
    let c₁ : Config = record c { shards = 2 ^ k } in
    let done =
      normalize_rounds (63 + fuel) gomaxprocs wanted (2 ^ k) c word w
        (subst (λ f. round_up f 1 wanted ≡ some (2 ^ k)) fuel_eq run) in
    elim (check_err c₁) [
      | inr bad ↦ ((check c₁).1, inr (done ∙ ap (λ e. some (e, (check c₁).1)) bad))
      | inl good ↦
          let n : Normalizes c₁ (check c₁).1 = check_ok c₁ word' good in
          (
            (check c₁).1,
            inl (
              done ∙ ap (λ e. some (e, (check c₁).1)) good,
              (
                k,
                n.same_shards,
                rounded.0,
                elim rounded.2 [
                  | inl z ↦ let e : 2 ^ k ≡ 1 = ap (λ i. 2 ^ i) z in omega arith
                  | inr t ↦ t
                ],
              ),
              subst (λ m. Normalizes (record c { shards = m }) (check c₁).1) (sym n.same_shards) n,
            ),
          )
    ]

-- Doubling leaves the signed range at 2 ^ 63, a negative number, and then stays at 0.
stuck :
    (fuel n shards : ℕ)
    → (n ≡ 0) ⊎ (n ≡ 2 ^ 63)
    → 2 ^ 62 < shards
    → shards < 2 ^ 63
    → round_up fuel n shards ≡ none
unfolding round_up
stuck zero n shards e lo hi = refl
stuck (suc fuel) n shards e lo hi =
    ground (arith, stuck fuel (mul64 n 2) shards (omega arith) lo hi)

diverges :
    (fuel j shards : ℕ)
    → j ≤ 62
    → 2 ^ 62 < shards
    → shards < 2 ^ 63
    → round_up fuel (2 ^ j) shards ≡ none
unfolding round_up
diverges zero j shards le lo hi = refl
diverges (suc fuel) j shards le lo hi = elim (dec_lt j 62) [
  | yes lt ↦
      let rest : round_up fuel (mul64 (2 ^ j) 2) shards ≡ none =
        ap (λ n. round_up fuel n shards) (double j lt) ∙ diverges fuel (suc j) shards lt lo hi in
      let top : 2 ^ j ≤ 2 ^ 62 = pow-le-pow_right {n = 2} (omega arith) {i = j} {j = 62} le in
      ground arith
  | no nlt ↦
      let same : j ≡ 62 = omega arith in
      let at_top : 2 ^ j ≡ 2 ^ 62 = ap (λ i. 2 ^ i) same in
      ground (arith, stuck fuel (mul64 (2 ^ j) 2) shards (inr (omega arith)) lo hi)
]

-- For more than 2 ^ 62 shards the rounding loop never ends: no amount of fuel gives a result.
pub normalize_diverges :
    (fuel gomaxprocs : ℕ) (c : Config)
    → 2 ^ 62 < c.shards
    → c.shards < 2 ^ 63
    → normalize fuel gomaxprocs c ≡ none
unfolding normalize
normalize_diverges fuel gomaxprocs c lo hi =
    ground (arith, diverges fuel 0 c.shards (omega arith) lo hi)
