-- ===== src/Ring/Threads/Calls.antt =====
-- dequeue as the single accesses of one thread, and the calls of a client of the ring.
use native.Mathlib.Decide.{dec_lt, ℕ_discrete}
use mathlib.Core.Path.{subst}
use mathlib.Core.Option.{some_inj}
use vautlage.Prelude.{
  ℕ, zero, suc, ◌≤◌, ◌≡◌, refl, sym, ◌∙◌, arith, Option, none, some, List, true, false, add64, inl,
  inr, Option-cases, carry_some,
}
use vautlage.Atomics.{load}
use vautlage.Record.{Record}
use vautlage.Ring.{Ring, Header, index, cell, claim, publish, release, dequeue, read_cell}
use vautlage.Ring.Fifo.{Op, put, get, Reply, accepted, delivered, ring_step, ring_put, ring_get}
use vautlage.Ring.Threads.{
  Pc, idle, dequeuing, dequeue_seq, reading, holding, Mem, call_claim, call_dequeue, load_head,
  is_empty, is_committed, is_intact, is_broken, load_field, return_record, call_release,
  release_broken,
}
use vautlage.Ring.Threads.Stores.{gets, gets-read_cell, unread}
use vautlage.Ring.Threads.Alone.{Alone, none_yet, more, ◌▹◌, at_ring, won_head, claim-Alone}
use vautlage.Ring.Threads.Announced.{announced, publish-Alone}

-- Where dequeue leaves its thread.
abbrev dequeue_end : Option ℕ → Record → Pc
dequeue_end none rec = idle
dequeue_end (some pos) rec = holding pos rec

loads :
    (m : Mem) (pos k : ℕ) (rec : Record)
    → k ≤ 8
    → Alone m
        (reading pos (unread rec) 0)
        m
        (reading pos (gets k (index m.ring pos) (cell m.ring pos) (unread rec)) k)
unfolding gets
loads m pos zero rec le = none_yet
loads m pos (suc k) rec le = more (loads m pos k rec (omega arith)) (load_field (omega arith))

reads :
    (m : Mem) (pos : ℕ) (rec : Record)
    → Alone m (reading pos (unread rec) 0) m (holding pos (read_cell m.ring pos rec))
reads m pos rec =
    subst (λ x. Alone m (reading pos (unread rec) 0) m (holding pos x))
      (gets-read_cell m.ring pos rec) (more (loads m pos 8 rec (omega arith)) return_record)

dequeue-Alone :
    (fuel : ℕ) (m : Mem) (rec : Record) {o : Option ℕ} {out : Record} {r' : Ring}
    → dequeue fuel m.ring rec ≡ some (o, out, r')
    → Alone m (dequeuing rec) (at_ring m r') (dequeue_end o out)
unfolding dequeue load
dequeue-Alone zero m rec e = cc
dequeue-Alone (suc fuel) m rec {o} {out} {r'} e =
    let pos = m.ring.head in
    let after_cas : Ring = record m.ring { head = add64 pos 1 } in
    let Ends : Option ℕ × Record × Ring → Type 0 =
      λ x. Alone m (dequeuing rec) (at_ring m x.2) (dequeue_end x.0 x.1) in
    elim (dec_lt pos m.ring.commit) [
      | no ge ↦
          let run : dequeue (suc fuel) m.ring rec ≡ some (none, rec, m.ring) = ground arith in
          subst Ends (some_inj.0 (sym run ∙ e))
            (more (more none_yet load_head) (is_empty (omega arith)))
      | yes lt ↦
          let taken : Alone m (dequeuing rec) (at_ring m after_cas) (dequeue_seq rec pos) =
            more (more (more none_yet load_head) (is_committed lt)) (won_head m rec) in
          elim (ℕ_discrete (cell after_cas pos).seq (add64 pos 1)) [
            | yes intact ↦
                let run : dequeue (suc fuel) m.ring rec
                    ≡ some (some pos, read_cell after_cas pos rec, after_cas) =
                  ground arith in
                subst Ends (some_inj.0 (sym run ∙ e))
                  (more taken (is_intact intact) ▹ reads (at_ring m after_cas) pos rec)
            | no torn ↦
                let run : dequeue (suc fuel) m.ring rec ≡ some (none, rec, release after_cas pos) =
                  ground arith in
                subst Ends (some_inj.0 (sym run ∙ e))
                  (more (more taken (is_broken torn)) release_broken)
          ]
    ]

put-Alone :
    (h : Header) (payload : List ℕ) (m : Mem) {reply : Reply} {r' : Ring}
    → ring_step (put h payload) m.ring ≡ some (reply, r')
    → (m' : Mem) × (m'.ring ≡ r') × Alone m idle m' idle
unfolding ring_step ring_put
put-Alone h payload m {reply} {r'} e = elim (Option-cases (claim 1 m.ring)) [
  | inl stuck ↦ absurd (ground arith)
  | inr ((none, s), ends) ↦
      let run : ring_step (put h payload) m.ring ≡ some (accepted false, s) = ground arith in
      (
        at_ring m s,
        carry_some (λ _ x. s ≡ x) (sym run ∙ e) refl,
        more none_yet call_claim ▹ claim-Alone 1 m ends,
      )
  | inr ((some pos, s), ends) ↦ elim (Option-cases (publish 2 s pos h payload)) [
    | inl stuck ↦ absurd (ground arith)
    | inr ((n, t), done) ↦
        let run : ring_step (put h payload) m.ring ≡ some (accepted true, t) = ground arith in
        (
          at_ring (announced (at_ring m s) pos h payload) t,
          carry_some (λ _ x. t ≡ x) (sym run ∙ e) refl,
          more none_yet call_claim
              ▹ claim-Alone 1 m ends
              ▹ publish-Alone (at_ring m s) pos h payload 2 done,
        )
  ]
]

get-Alone :
    (rec : Record) (m : Mem) {reply : Reply} {r' : Ring}
    → ring_step (get rec) m.ring ≡ some (reply, r')
    → (m' : Mem) × (m'.ring ≡ r') × Alone m idle m' idle
unfolding ring_step ring_get
get-Alone rec m {reply} {r'} e = elim (Option-cases (dequeue 1 m.ring rec)) [
  | inl stuck ↦ absurd (ground arith)
  | inr ((none, out, s), ends) ↦
      let run : ring_step (get rec) m.ring ≡ some (delivered none, s) = ground arith in
      (
        at_ring m s,
        carry_some (λ _ x. s ≡ x) (sym run ∙ e) refl,
        more none_yet (call_dequeue rec) ▹ dequeue-Alone 1 m rec ends,
      )
  | inr ((some pos, out, s), ends) ↦
      let run : ring_step (get rec) m.ring ≡ some (delivered (some out), release s pos) =
        ground arith in
      (
        at_ring m (release s pos),
        carry_some (λ _ x. release s pos ≡ x) (sym run ∙ e) refl,
        more (more none_yet (call_dequeue rec) ▹ dequeue-Alone 1 m rec ends) call_release,
      )
]

-- A call of a client of the ring that ends, claim with publish or dequeue with release as one thread
-- runs them undisturbed, is a sequence of single accesses of one thread, from the ring before the
-- call to the ring after it.
ring_step-Alone :
    (op : Op) (m : Mem) {reply : Reply} {r' : Ring}
    → ring_step op m.ring ≡ some (reply, r')
    → (m' : Mem) × (m'.ring ≡ r') × Alone m idle m' idle
ring_step-Alone (put h payload) m e = put-Alone h payload m e
ring_step-Alone (get rec) m e = get-Alone rec m e
