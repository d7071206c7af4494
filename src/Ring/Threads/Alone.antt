-- ===== src/Ring/Threads/Alone.antt =====
-- The calls of Ring are what a thread does when no other thread moves: each is a sequence of the
-- single accesses of Threads.
use native.Mathlib.Decide.{dec_le, ℕ_discrete}
use mathlib.Core.Path.{subst}
use mathlib.Core.Option.{some_inj}
use vautlage.Prelude.{
  ℕ, zero, suc, ◌^◌, ◌≡◌, sym, ap, ◌∙◌, arith, Option, none, some, true, add64, carry_some,
}
use vautlage.Atomics.{load, cas}
use vautlage.Record.{Record}
use vautlage.Ring.{Ring, cell, claim, advance_commit}
use vautlage.Ring.Threads.{
  Pc, idle, claiming, claim_cas, claim_won, advancing, advance_cas, dequeue_cas, dequeue_seq, Mem,
  Move, load_tail, is_free, is_full, is_stale, win_tail, load_commit, none_claimed, some_claimed,
  unpublished, published, win_commit, win_head, cas_tail, cas_commit, cas_head, dif,
}

-- Accesses of one thread, one after the other.
pub data Alone (m : Mem) (p : Pc) : Mem → Pc → Type 0 where
  none_yet : Alone m p m p
  more : {m' m'' : Mem} {p' p'' : Pc} → Alone m p m' p' → Move m' p' m'' p'' → Alone m p m'' p''

infixl 5 ◌▹◌
pub ◌▹◌ :
    {m m' : Mem} {p p' : Pc} {m'' : Mem} {p'' : Pc}
    → Alone m p m' p'
    → Alone m' p' m'' p''
    → Alone m p m'' p''
a ▹ none_yet = a
a ▹ more b move = more (a ▹ b) move

-- The memory with another ring.
abbrev pub at_ring : Mem → Ring → Mem
at_ring m r = record m { ring = r }

-- With no other thread a compare-and-swap wins.
cas_self : (v new : ℕ) → cas v v new ≡ (true, new)
unfolding cas
cas_self v new = ground arith

cas_tail_self : (r : Ring) → cas_tail r r.tail ≡ (true, record r { tail = add64 r.tail 1 })
unfolding cas_tail
cas_tail_self r = ap (λ x. (x.0, record r { tail = x.1 })) (cas_self r.tail (add64 r.tail 1))

cas_commit_self :
    (r : Ring) → cas_commit r r.commit ≡ (true, record r { commit = add64 r.commit 1 })
unfolding cas_commit
cas_commit_self r =
    ap (λ x. (x.0, record r { commit = x.1 })) (cas_self r.commit (add64 r.commit 1))

cas_head_self : (r : Ring) → cas_head r r.head ≡ (true, record r { head = add64 r.head 1 })
unfolding cas_head
cas_head_self r = ap (λ x. (x.0, record r { head = x.1 })) (cas_self r.head (add64 r.head 1))

-- Where claim leaves its thread.
abbrev pub claim_end : Option ℕ → Pc
claim_end none = idle
claim_end (some pos) = claim_won pos

module _ (m : Mem) where
  abbrev r : Ring
  r = m.ring

  won_tail :
      Move m (claim_cas r.tail) (at_ring m (record r { tail = add64 r.tail 1 })) (claim_won r.tail)
  won_tail =
      subst (λ x. Move m (claim_cas r.tail) (at_ring m x) (claim_won r.tail))
        (ap (λ x. x.1) (cas_tail_self r)) (win_tail (ap (λ x. x.0) (cas_tail_self r)))

  won_commit :
      Move m (advance_cas r.commit) (at_ring m (record r { commit = add64 r.commit 1 })) advancing
  won_commit =
      subst (λ x. Move m (advance_cas r.commit) (at_ring m x) advancing)
        (ap (λ x. x.1) (cas_commit_self r)) (win_commit (ap (λ x. x.0) (cas_commit_self r)))

  pub won_head :
      (rec : Record)
      → Move m
          (dequeue_cas rec r.head)
          (at_ring m (record r { head = add64 r.head 1 }))
          (dequeue_seq rec r.head)
  won_head rec =
      subst (λ x. Move m (dequeue_cas rec r.head) (at_ring m x) (dequeue_seq rec r.head))
        (ap (λ x. x.1) (cas_head_self r)) (win_head (ap (λ x. x.0) (cas_head_self r)))

pub claim-Alone :
    (fuel : ℕ) (m : Mem) {o : Option ℕ} {r' : Ring}
    → claim fuel m.ring ≡ some (o, r')
    → Alone m claiming (at_ring m r') (claim_end o)
unfolding claim load
claim-Alone zero m e = cc
claim-Alone (suc fuel) m {o} {r'} e =
    let pos = m.ring.tail in
    elim (ℕ_discrete (dif m.ring pos) 0) [
      | yes free ↦
          let run : claim (suc fuel) m.ring
              ≡ some (some pos, record m.ring { tail = add64 pos 1 }) =
            ground arith in
          carry_some (λ x s. Alone m claiming (at_ring m s) (claim_end x)) (sym run ∙ e)
            (more (more (more none_yet load_tail) (is_free free)) (won_tail m))
      | no ne ↦ elim (dec_le (2 ^ 63) (dif m.ring pos)) [
        | yes far ↦
            let run : claim (suc fuel) m.ring ≡ some (none, m.ring) = ground arith in
            carry_some (λ x s. Alone m claiming (at_ring m s) (claim_end x)) (sym run ∙ e)
              (more (more none_yet load_tail) (is_full far))
        | no near ↦
            let run : claim (suc fuel) m.ring ≡ claim fuel m.ring = ground arith in
            more (more none_yet load_tail) (is_stale ne (omega arith))
            ▹ claim-Alone fuel m (sym run ∙ e)
      ]
    ]

pub advance_commit-Alone :
    (fuel : ℕ) (m : Mem) {r' : Ring}
    → advance_commit fuel m.ring ≡ some r'
    → Alone m advancing (at_ring m r') idle
unfolding advance_commit load
advance_commit-Alone zero m e = cc
advance_commit-Alone (suc fuel) m {r'} e =
    let c = m.ring.commit in
    elim (ℕ_discrete c m.ring.tail) [
      | yes all ↦
          let run : advance_commit (suc fuel) m.ring ≡ some m.ring = ground arith in
          subst (λ s. Alone m advancing (at_ring m s) idle) (some_inj.0 (sym run ∙ e))
            (more (more none_yet load_commit) (none_claimed all))
      | no some_left ↦ elim (ℕ_discrete (cell m.ring c).seq (add64 c 1)) [
        | no gap ↦
            let run : advance_commit (suc fuel) m.ring ≡ some m.ring = ground arith in
            subst (λ s. Alone m advancing (at_ring m s) idle) (some_inj.0 (sym run ∙ e))
              (more (more (more none_yet load_commit) (some_claimed some_left)) (unpublished gap))
        | yes done ↦
            let run : advance_commit (suc fuel) m.ring
                ≡ advance_commit fuel (record m.ring { commit = add64 c 1 }) =
              ground arith in
            more (more (more (more none_yet load_commit) (some_claimed some_left)) (published done))
              (won_commit m)
            ▹ advance_commit-Alone fuel (at_ring m (record m.ring { commit = add64 c 1 }))
                (sym run ∙ e)
      ]
    ]
