-- ===== src/Tests/Schedule.antt =====
-- Reachable states of the threads over one ring, by evaluation: each turn names a thread, and what it
-- is to call if it is idle.
use native.Mathlib.Decide.{dec_lt, dec_le, ℕ_discrete}
use mathlib.Core.Path.{subst}
use mathlib.Core.Logic.{dite}
use vautlage.Prelude.{
  ℕ, zero, suc, ◌+◌, ◌^◌, ◌≤◌, ◌<◌, ◌≡◌, inl, refl, arith, List, Option, none, some, Bool, true,
  false, add64,
}
use vautlage.Atomics.{load, cas, store}
use vautlage.Record.{blank}
use vautlage.Ring.{Ring, Header, cell, write_cell, release}
use vautlage.Ring.Valid.{SlotOk}
use vautlage.Ring.Threads.{
  Pc, idle, claiming, claim_seq, claim_cas, claim_won, publishing, advancing, advance_tail,
  advance_seq, advance_cas, dequeuing, dequeue_commit, dequeue_cas, dequeue_seq, reading, holding,
  broken, Mem, Move, cas_tail, cas_commit, cas_head, dif, put_field, get_field,
}
use vautlage.Ring.Threads.System.{System, pick, Reach, start, later}
use vautlage.Ring.Threads.Reached.{IsNew}
use vautlage.Tests.Data.{committed_cell}

-- What an idle thread calls.
pub data Call : Type 0 where
  put_record : Header → List ℕ → Call
  get_record : Call

abbrev Moved : Mem → Pc → Type 0
Moved m p = (m' : Mem) × (p' : Pc) × Move m p m' p'

by_test : {A : Type 0} → (b : Bool) → ((b ≡ true) → A) → ((b ≡ false) → A) → A
by_test true t f = t refl
by_test false t f = f refl

next_move : (call : Call) (m : Mem) (p : Pc) → Option (Moved m p)
unfolding by_test
next_move (put_record h payload) m idle = some (_, _, Move.call_claim)
next_move get_record m idle = some (_, _, Move.call_dequeue blank)
next_move call m claiming = some (_, _, Move.load_tail)
next_move call m (claim_seq pos) = some (
    dite (ℕ_discrete (dif m.ring pos) 0) (λ e. (_, _, Move.is_free e))
      (λ ne.
        dite (dec_le (2 ^ 63) (dif m.ring pos)) (λ far. (_, _, Move.is_full far))
          (λ near. (_, _, Move.is_stale ne (omega arith)))))
next_move call m (claim_cas pos) = some (
    by_test (cas_tail m.ring pos).0 (λ won. (_, _, Move.win_tail won))
      (λ lost. (_, _, Move.lose_tail lost)))
next_move (put_record h payload) m (claim_won pos) = some (_, _, Move.call_publish h payload)
next_move get_record m (claim_won pos) = none
next_move call m (publishing pos h payload k) =
    dite (dec_lt k 8) (λ lt. some (_, _, Move.store_field lt))
      (λ ge.
        dite (ℕ_discrete 8 k)
          (λ e.
            subst (λ n. Option (Moved m (publishing pos h payload n))) e
              (some (_, _, Move.announce)))
          (λ _. none))
next_move call m advancing = some (_, _, Move.load_commit)
next_move call m (advance_tail c) = some (
    dite (ℕ_discrete c (load m.ring.tail)) (λ e. (_, _, Move.none_claimed e))
      (λ ne. (_, _, Move.some_claimed ne)))
next_move call m (advance_seq c) = some (
    dite (ℕ_discrete (load (cell m.ring c).seq) (add64 c 1)) (λ e. (_, _, Move.published e))
      (λ ne. (_, _, Move.unpublished ne)))
next_move call m (advance_cas c) = some (
    by_test (cas_commit m.ring c).0 (λ won. (_, _, Move.win_commit won))
      (λ lost. (_, _, Move.lose_commit lost)))
next_move call m (dequeuing rec) = some (_, _, Move.load_head)
next_move call m (dequeue_commit rec pos) = some (
    dite (dec_lt pos (load m.ring.commit)) (λ lt. (_, _, Move.is_committed lt))
      (λ ge. (_, _, Move.is_empty (omega arith))))
next_move call m (dequeue_cas rec pos) = some (
    by_test (cas_head m.ring pos).0 (λ won. (_, _, Move.win_head won))
      (λ lost. (_, _, Move.lose_head lost)))
next_move call m (dequeue_seq rec pos) = some (
    dite (ℕ_discrete (load (cell m.ring pos).seq) (add64 pos 1)) (λ e. (_, _, Move.is_intact e))
      (λ ne. (_, _, Move.is_broken ne)))
next_move call m (reading pos s k) =
    dite (dec_lt k 8) (λ lt. some (_, _, Move.load_field lt))
      (λ ge.
        dite (ℕ_discrete 8 k)
          (λ e. subst (λ n. Option (Moved m (reading pos s n))) e (some (_, _, Move.return_record)))
          (λ _. none))
next_move call m (holding pos rec) = some (_, _, Move.call_release)
next_move call m (broken pos) = some (_, _, Move.release_broken)

pub record Run (r : Ring) : Type 0 where
  pub steps : ℕ
  pub last : System
  pub reach : Reach r steps last

-- `count` turns of thread `i`; a turn that it cannot take is skipped.
unfoldable pub turns : {r : Ring} → ℕ → ℕ → Call → Run r → Run r
unfolding next_move ℕ_discrete dec_lt dec_le load store cell write_cell cas cas_tail cas_commit
    cas_head put_field get_field release
turns zero i call run = run
turns (suc count) i call run =
    let rest = turns count i call in
    elim (next_move call run.last.mem (run.last.pc i)) [
      | none ↦ rest run
      | some (_, _, move) ↦
          rest (record { steps = suc run.steps; last = _; reach = later run.reach (pick i move) })
    ]

abbrev pub begin : (r : Ring) → Run r
begin r = record { steps = 0; last = _; reach = start }

-- A ring of two cells as initRing leaves it.
abbrev pub untouched : Ring
untouched = record {
  cells = λ i. record (committed_cell 0 0 0) { seq = i };
  base = 4096;
  stride = 128;
  capacity = 2;
  mask = 1;
  payload_cap = 64;
  epoch = 7;
  tail = 0;
  commit = 0;
  head = 0;
}

untouched-SlotOk : (p : ℕ) → 0 ≤ p → p < 0 + 2 → SlotOk untouched p
untouched-SlotOk p lo hi = inl (ground arith, omega arith)

pub untouched-IsNew : IsNew untouched
untouched-IsNew = record {
  valid = record {
    shift = 1;
    size = refl;
    many = omega arith;
    bound = omega arith;
    masked = refl;
    head_le = omega arith;
    commit_le = omega arith;
    room = omega arith;
    fresh = omega arith;
    slots = untouched-SlotOk;
  };
  settled = refl;
  returned = λ p lo hi. ground arith;
  items = refl;
  count = refl;
}
