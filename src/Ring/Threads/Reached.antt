-- ===== src/Ring/Threads/Reached.antt =====
-- The invariant holds in every state that the threads reach from a new ring.
use vautlage.Prelude.{ℕ, suc, ◌+◌, ◌%◌, ◌^◌, ◌≤◌, ◌<◌, ◌≡◌, refl, sym, ap, ◌∙◌, arith, [], inl, inr}
use native.Mathlib.Nat.{mod-lt, mod-mod}
use vautlage.Atomics.{cas}
use vautlage.Ring.{Ring, write_cell, release}
use vautlage.Ring.Valid.{IsValid, seq_at}
use vautlage.Ring.Models.{Models}
use vautlage.Ring.Threads.{
  Pc, Mem, Move, win_tail, store_field, announce, win_commit, win_head, call_release,
  release_broken, cas_tail, cas_commit, cas_head,
}
use vautlage.Ring.Threads.System.{System, pick, init, Reach, start, later}
use vautlage.Ring.Threads.Defs.{InFlight, Inv}
use vautlage.Ring.Threads.Moves.{Move-Inv}

-- A ring that no call has touched.
abbrev pub IsNew : Ring → Type 0
IsNew r = Models r (record { items = []; count = 0 })

-- One access claims at most one position.
Bounded : Mem → Mem → Type 0
Bounded m m' = (m'.ring.tail ≤ m.ring.tail + 1) × (m'.ring.capacity ≡ m.ring.capacity)

Move-bounded :
    {m m' : Mem} {p p' : Pc}
    → Move m p m' p'
    → (m'.ring.tail ≤ m.ring.tail + 1) × (m'.ring.capacity ≡ m.ring.capacity)
unfolding cas_tail cas_commit cas_head cas write_cell release
Move-bounded (win_tail won) = (ground arith, refl)
Move-bounded (win_commit won) = (omega arith, refl)
Move-bounded (win_head won) = (omega arith, refl)
Move-bounded (store_field lt) = (omega arith, refl)
Move-bounded announce = (omega arith, refl)
Move-bounded call_release = (omega arith, refl)
Move-bounded release_broken = (omega arith, refl)
Move-bounded _ = (omega arith, refl)

init-Inv : {r : Ring} → IsNew r → Inv (init r).mem (init r).pc
init-Inv {r} new = record {
  valid = v;
  low = λ p. omega (arith, word p, below p, empty);
  own = λ i. tt;
  unique = λ i j p e e'. cc;
  covered = λ p fly. absurd (none_yet p fly);
  content = λ p lt recent done. absurd (omega (arith, empty));
  helped = λ lt done. absurd (omega (arith, empty));
}
  where
    v : IsValid r
    v = new.valid

    empty : r.tail ≡ 0
    empty = sym new.count

    below : (p : ℕ) → p % r.capacity < r.capacity
    below p = mod-lt p (omega (arith, v.many))

    word : (p : ℕ) → seq_at r p ≡ p % r.capacity
    word p =
        sym (ap (λ n. (r.cells n).seq) (mod-mod p r.capacity))
        ∙ new.returned (p % r.capacity) (omega (arith, empty)) (omega (arith, below p))

    none_yet : (p : ℕ) → InFlight r p → ⊥
    none_yet p (inl d) = omega (arith, d.given, empty)
    none_yet p (inr d) = omega (arith, d.given, v.head_le, v.commit_le, empty)

-- What holds of a state that `n` steps lead to.
pub record Reached (r : Ring) (n : ℕ) (s : System) : Type 0 where
  pub inv : Inv s.mem s.pc
  pub few : s.mem.ring.tail ≤ n
  pub same : s.mem.ring.capacity ≡ r.capacity

-- The steps are few enough for the signed comparison of claim to hold.
pub Reach-Reached :
    {r : Ring} {n : ℕ} {s : System}
    → IsNew r
    → n + r.capacity < 2 ^ 63
    → Reach r n s
    → Reached r n s
Reach-Reached new small start = record {
  inv = init-Inv new;
  few = omega (arith, new.count);
  same = refl;
}
Reach-Reached {n = suc n} new small (later {s = s} reach (pick i move)) =
    let before = Reach-Reached new (omega arith) reach in
    let (up, keep) = Move-bounded move in
    record {
      inv =
          Move-Inv before.inv (omega (arith, before.few, before.same)) i move refl
            (before.inv.own i);
      few = omega (arith, before.few);
      same = keep ∙ before.same;
    }
