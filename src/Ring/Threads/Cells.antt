-- ===== src/Ring/Threads/Cells.antt =====
-- The writes of a cell by the thread that holds it: a store of publish, its announcement, and the
-- release after the delivery.
use native.Mathlib.Nat.{add-mod_right}
use native.Mathlib.Decide.{ℕ_discrete}
use mathlib.Core.Path.{subst}
use mathlib.Core.Option.{some_inj}
use vautlage.Prelude.{
  ℕ, suc, add64, ◌+◌, ◌^◌, ◌≤◌, ◌<◌, ◌≡◌, inl, inr, some, refl, sym, ap, ◌∙◌, arith, List, update,
  update_self, update_ne,
}
use vautlage.Atomics.{store}
use vautlage.Record.{Record}
use vautlage.Ring.{Ring, Cell, Header, cell, write_cell, release}
use vautlage.Ring.Valid.{Claimed, seq_at, cell_eq}
use vautlage.Ring.Publish.{write-IsValid, seq_at-write_self}
use vautlage.Ring.Threads.{Pc, idle, publishing, advancing, holding, Mem, put_field, store_seq}
use vautlage.Ring.Threads.Stores.{puts, put_field-seq}
use vautlage.Ring.Threads.Defs.{InFlight, held, Own, Written, Inv}
use vautlage.Ring.Threads.Writes.{HeldStore, flight_back, write-Effect, write-Quiet}
use vautlage.Ring.Threads.Slots.{slot-write_self, same-IsValid}
use vautlage.Ring.Threads.Next.{next, pass, by_me}

module _ {m : Mem} {pc : ℕ → Pc} (inv : Inv m pc) (i : ℕ) where
  abbrev r : Ring
  r = m.ring

  cell-seq : (pos : ℕ) → (cell r pos).seq ≡ seq_at r pos
  cell-seq pos = ap {A = Cell} (λ c. c.seq) (cell_eq inv.valid pos)

  -- The commit index has not passed a position that is still being written.
  unwritten_above : {pos : ℕ} → Claimed r pos → r.head ≤ pos
  unwritten_above {pos} d = omega (
    arith,
    inv.valid.slots (pos + r.capacity) d.recent (omega (arith, d.given)),
    ap (λ n. (r.cells n).seq) (add-mod_right pos r.capacity),
    d.turn,
    inv.valid.head_le,
    inv.valid.many,
  )

  pub stored-Inv :
      {pos k : ℕ} {h : Header} {payload : List ℕ}
      → pc i ≡ publishing pos h payload k
      → Own r (publishing pos h payload k)
      → Inv
          (record m { ring = write_cell r pos (put_field k r.epoch h payload (cell r pos)) })
          (update pc i (publishing pos h payload (suc k)))
  unfolding write_cell puts
  stored-Inv {pos} {k} {h} {payload} here (d, (old, e)) =
      next inv i here _
        (write-Effect inv i pos c m.log f (ap held here) (λ q ne. refl)
          (λ new. absurd (omega (arith, turn))))
        (
          record {
            given = d.given;
            recent = d.recent;
            turn = seq_at-write_self inv.valid pos c ∙ turn;
          },
          (
            old,
            slot-write_self inv.valid pos c
                ∙ ap (put_field k r.epoch h payload) (cell_eq inv.valid pos ∙ e),
          ),
        )
        (λ q eq. inl eq)
        (λ q fly. elim (ℕ_discrete q pos) [
          | yes eq ↦ inl (ap some (sym eq))
          | no ne ↦ inr (flight_back inv i pos c f q ne fly, λ eq. eq)
        ])
        (pass inv i here _ (record m { ring = write_cell r pos c })
          (write-Quiet inv i pos c f (λ new. omega (arith, turn))) (λ _ _ hi. absurd hi))
    where
      c : Cell
      c = put_field k r.epoch h payload (cell r pos)

      same : c.seq ≡ seq_at r pos
      same = put_field-seq k r.epoch h payload (cell r pos) ∙ cell-seq pos

      turn : c.seq ≡ pos
      turn = same ∙ d.turn

      f : HeldStore r pos c
      f = record {
        flying = inl d;
        valid = same-IsValid inv.valid pos c same;
        grows = omega (arith, same);
        bounded = omega (arith, same, inv.low pos);
      }

  pub announced-Inv :
      {pos : ℕ} {h : Header} {payload : List ℕ}
      → pos + 1 < 2 ^ 64
      → pc i ≡ publishing pos h payload 8
      → Own r (publishing pos h payload 8)
      → Inv
          (record { ring = store_seq r pos; log = update m.log pos (h, payload) })
          (update pc i advancing)
  unfolding write_cell store
  announced-Inv {pos} {h} {payload} small here (d, (old, e)) =
      next inv i here _
        (write-Effect inv i pos c (update m.log pos (h, payload)) f (ap held here)
          (λ q ne. update_ne m.log pos q (h, payload) ne) (λ new. whole))
        tt (λ q eq. cc)
        (λ q fly. elim (ℕ_discrete q pos) [
          | yes eq ↦ absurd (gone (subst (InFlight (write_cell r pos c)) eq fly))
          | no ne ↦
              inr (flight_back inv i pos c f q ne fly, λ eq. absurd (ne (sym (some_inj.0 eq))))
        ])
        (by_me inv i here _ (record { ring = store_seq r pos; log = update m.log pos (h, payload) })
          tt)
    where
      c : Cell
      c = record (cell r pos) { seq = add64 pos 1 }

      f : HeldStore r pos c
      f = record {
        flying = inl d;
        valid = write-IsValid inv.valid pos c d.given d.recent (inl (omega arith));
        grows = omega (arith, d.turn);
        bounded = omega (arith, d.given, inv.valid.many);
      }

      gone : InFlight (write_cell r pos c) pos → ⊥
      gone (inl after) = omega (arith, after.turn, seq_at-write_self inv.valid pos c)
      gone (inr after) = omega (arith, after.given, unwritten_above d)

      as_filled : Header × List ℕ → Cell
      as_filled l = record (puts 8 r.epoch l.0 l.1 old) { seq = add64 pos 1 }

      whole : Written (record { ring = store_seq r pos; log = update m.log pos (h, payload) }) pos
      whole = (
        old,
        slot-write_self inv.valid pos c
            ∙ ap {A = Cell} {B = Cell} (λ x. record x { seq = add64 pos 1 })
                (cell_eq inv.valid pos ∙ e)
            ∙ ap as_filled (sym (update_self m.log pos (h, payload))),
      )

  pub released-Inv :
      {pos : ℕ} {rec : Record}
      → pc i ≡ holding pos rec
      → Own r (holding pos rec)
      → Inv (record m { ring = release r pos }) (update pc i idle)
  unfolding write_cell store release
  released-Inv {pos} {rec} here (t, read) =
      next inv i here _
        (write-Effect inv i pos c m.log f (ap held here) (λ q ne. refl)
          (λ new. absurd (omega (arith, word, inv.valid.many))))
        tt (λ q eq. cc)
        (λ q fly. elim (ℕ_discrete q pos) [
          | yes eq ↦ absurd (gone (subst (InFlight (write_cell r pos c)) eq fly))
          | no ne ↦
              inr (flight_back inv i pos c f q ne fly, λ eq. absurd (ne (sym (some_inj.0 eq))))
        ])
        (pass inv i here _ (record m { ring = write_cell r pos c })
          (write-Quiet inv i pos c f (λ new. omega (arith, word, inv.valid.many)))
          (λ _ _ hi. absurd hi))
    where
      below : pos < r.tail
      below = omega (arith, t.given, inv.valid.head_le, inv.valid.commit_le)

      c : Cell
      c = record (cell r pos) { seq = add64 pos r.capacity }

      word : c.seq ≡ pos + r.capacity
      word = omega (arith, below, inv.valid.fresh)

      f : HeldStore r pos c
      f = record {
        flying = inr t;
        valid = write-IsValid inv.valid pos c below t.recent (inr (word, t.given));
        grows = omega (arith, t.turn, inv.valid.many, word);
        bounded = omega (arith, below, word);
      }

      gone : InFlight (write_cell r pos c) pos → ⊥
      gone (inl after) =
          omega (arith, after.turn, seq_at-write_self inv.valid pos c, word, inv.valid.many)
      gone (inr after) =
          omega (arith, after.turn, seq_at-write_self inv.valid pos c, word, inv.valid.many)
