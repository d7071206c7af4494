-- ===== src/Gate.antt =====
-- gate.go: the backpressure valve, a latch with counters and two immutable thresholds.
pub mod Latch
use vautlage.Prelude.{ℕ, Bool, true, false, ◌||◌, if◌then◌else◌, ◌==◌, ltb, leb}
use vautlage.Errors.{Result, ok, err, config}
use vautlage.Atomics.{load, store, add, cas}

abbrev pub gate_open : ℕ
gate_open = 0

abbrev pub gate_closed : ℕ
gate_closed = 1

pub record Gate : Type 0 where
  pub state : ℕ
  pub closes : ℕ
  pub opens : ℕ
  pub rejects : ℕ
  pub high_pct : ℕ
  pub low_pct : ℕ

-- initGate, on the gate that the engine allocates.
unfoldable pub init_gate : Gate → ℕ → ℕ → Result Gate
unfolding store
init_gate g high low =
    if high == 0 || ltb 100 high || leb high low
    then err config
    else ok (record g { high_pct = high; low_pct = low; state = store g.state gate_open })

unfoldable pub is_closed : Gate → Bool
unfolding load
is_closed g = load g.state == gate_closed

unfoldable pub reject : Gate → Gate
unfolding add
reject g = record g { rejects = add g.rejects 1 }

-- Whether this call made the transition, and the gate after it.
unfoldable pub shut : Gate → Bool × Gate
unfolding cas add
shut g =
    let (won, state) = cas g.state gate_open gate_closed in
    if won
    then (true, record g { state = state; closes = add g.closes 1 })
    else (false, record g { state = state })

unfoldable pub release : Gate → Bool × Gate
unfolding cas add
release g =
    let (won, state) = cas g.state gate_closed gate_open in
    if won
    then (true, record g { state = state; opens = add g.opens 1 })
    else (false, record g { state = state })

unfoldable pub force_open : Gate → Gate
unfolding store
force_open g = record g { state = store g.state gate_open }

pub record GateStats : Type 0 where
  pub is_shut : Bool
  pub close_count : ℕ
  pub open_count : ℕ
  pub rejected_count : ℕ
  pub high_water_pct : ℕ
  pub low_water_pct : ℕ

unfoldable pub stats : Gate → GateStats
unfolding is_closed load
stats g = record {
  is_shut = is_closed g;
  close_count = load g.closes;
  open_count = load g.opens;
  rejected_count = load g.rejects;
  high_water_pct = g.high_pct;
  low_water_pct = g.low_pct;
}
