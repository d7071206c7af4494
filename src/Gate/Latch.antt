-- ===== src/Gate/Latch.antt =====
-- The valve as a latch: the counters count its transitions, once each.
use vautlage.Prelude.{ℕ, ◌^◌, ◌≤◌, ◌<◌, ◌≡◌, ◌⊎◌, List, [], ◌∷◌, true, false, arith, add64}
use vautlage.Errors.{ok, err, config}
use vautlage.Gate
use vautlage.Gate.{Gate, gate_open, gate_closed, init_gate, is_closed}

-- The gate's word holds one of its two states, its thresholds leave a window, and it has closed as
-- often as it has opened, once more while it is shut.
pub record IsLatch (g : Gate) : Type 0 where
  pub window : (g.low_pct < g.high_pct) × (g.high_pct ≤ 100)
  pub latched :
      ((g.state ≡ gate_open) × (g.closes ≡ g.opens))
      ⊎ ((g.state ≡ gate_closed) × (g.closes ≡ add64 g.opens 1))
  pub word : g.opens < 2 ^ 64

-- The calls that the engine makes while it runs.
pub data Call : Type 0 where
  shut release reject : Call

unfoldable pub apply : Call → Gate → Gate
apply shut g = (Gate.shut g).1
apply release g = (Gate.release g).1
apply reject g = Gate.reject g

unfoldable pub apply_all : List Call → Gate → Gate
unfolding apply
apply_all [] g = g
apply_all (c ∷ cs) g = apply_all cs (apply c g)

apply-IsLatch : (c : Call) (g : Gate) → IsLatch g → IsLatch (apply c g)
unfolding apply Gate.shut Gate.release Gate.reject
apply-IsLatch shut g v = ground arith
apply-IsLatch release g v = ground arith
apply-IsLatch reject g v = ground arith

-- Whatever sequence of shut, release and reject runs, the counters of transitions agree with the
-- state: the gate has closed as often as it has opened, once more while it is shut (modulo 2 ^ 64).
pub apply_all-IsLatch : (cs : List Call) (g : Gate) → IsLatch g → IsLatch (apply_all cs g)
unfolding apply_all
apply_all-IsLatch [] g v = v
apply_all-IsLatch (c ∷ cs) g v = apply_all-IsLatch cs (apply c g) (apply-IsLatch c g v)

-- initGate refuses exactly the thresholds without a hysteresis window in (0, 100], and opens the
-- gate otherwise.
pub init_gate_lem :
    (g : Gate) (high low : ℕ)
    → ((high ≤ 100)
        × (low < high)
        × (init_gate g high low
            ≡ ok (record g { high_pct = high; low_pct = low; state = gate_open })))
      ⊎ (((100 < high) ⊎ (high ≤ low)) × (init_gate g high low ≡ err config))
unfolding init_gate
init_gate_lem g high low = ground arith

-- A transition is made exactly once: shut succeeds exactly on an open gate, release exactly on a
-- shut one, and right after one of them has succeeded it fails and the other one succeeds.
pub shut_once :
    (g : Gate)
    → g.state ≤ 1
    → ((Gate.shut g).0 ≡ true → g.state ≡ gate_open)
      × (g.state ≡ gate_open → (Gate.shut g).0 ≡ true)
      × ((Gate.shut (Gate.shut g).1).0 ≡ false)
      × ((Gate.release (Gate.shut g).1).0 ≡ true)
      × (is_closed (Gate.release (Gate.shut g).1).1 ≡ false)
unfolding Gate.shut Gate.release is_closed
shut_once g h = ground arith
