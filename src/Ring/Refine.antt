-- ===== src/Ring/Refine.antt =====
-- Clients of a ring that models a queue: they cannot tell the two apart.
use mathlib.Core.Path.{ap₂}
use native.Mathlib.Decide.{ℕ_discrete, dec_lt}
use vautlage.Prelude.{
  ℕ, suc, ◌+◌, ◌-◌, ◌%◌, ◌^◌, ◌≤◌, ◌<◌, ◌≡◌, ◌≢◌, inl, inr, List, [], ◌∷◌, ◌++◌, some, refl, ap,
  arith, ◌∙◌, sym, length,
}
use vautlage.Record.{Record}
use vautlage.Ring.{Ring, Header, release, fill, write_cell}
use vautlage.Ring.Valid.{IsValid, seq_at, lap_injective}
use vautlage.Ring.Claim.{claimed, claim_free, claim_full, claimed-IsValid, claimed-Claimed}
use vautlage.Ring.Publish.{Advanced, stored, at_commit, publish_lem, seq_at-write_ne}
use vautlage.Ring.Dequeue.{taken}
use vautlage.Ring.Entries.{
  entry, entries, length-entries, entries-congr, entries-snoc, entry-stored, entry-stored_ne,
}
use vautlage.Ring.Models.{Models, entry-at_commit, entry-claimed}
use vautlage.Ring.Serve.{serve_lem}
use vautlage.Ring.Fifo.{
  Fifo, Op, put, get, Reply, delivery, fifo_put_full, fifo_put_free, fifo_get, fifo_step, fifo_run,
  ring_step, ring_run, ring_step-saturated, ring_step-published, ring_step-empty, ring_step-taken,
}

-- What a step leaves as it is, and how far the tail moves.
pub record Steps (r s : Ring) : Type 0 where
  pub capacity : s.capacity ≡ r.capacity
  pub epoch : s.epoch ≡ r.epoch
  pub tail : s.tail ≤ r.tail + 1

abbrev pub Simulates : Ring → Fifo → Op → Type 0
Simulates r q o =
    let (reply, q') = fifo_step r.capacity r.epoch o q in
    (s : Ring) × (ring_step o r ≡ some (reply, s)) × Models s q' × Steps r s

module _ {r : Ring} {q : Fifo} (m : Models r q) where
  open m use {valid, settled, returned, items, count}

  length-items : length q.items ≡ r.tail - r.head
  length-items = rw items (length-entries r r.head (r.tail - r.head))

  put_full :
      (h : Header) (payload : List ℕ) → r.tail ≡ r.head + r.capacity → Simulates r q (put h payload)
  unfolding fifo_step
  put_full h payload full =
      rw (fifo_put_full r.capacity r.epoch h payload q (omega (arith, length-items))) (
        r,
        ring_step-saturated r h payload (claim_full 0 valid busy),
        m,
        record { capacity = refl; epoch = refl; tail = omega arith },
      )
    where
      busy : seq_at r r.tail ≢ r.tail
      busy e =
          omega (arith, valid.slots r.tail (omega arith) (omega (arith, valid.many)), valid.many)

  -- The ring after a put.
  abbrev after_put : Header → List ℕ → ℕ → Ring
  after_put h payload n = at_commit (stored (claimed r) r.tail h payload) n

  module _ (small : r.tail + 1 + r.capacity < 2 ^ 64) (h : Header) (payload : List ℕ)
      (free : r.tail < r.head + r.capacity) where
    due : seq_at r r.tail ≡ r.tail
    due = returned r.tail (omega arith) free

    valid' : IsValid (claimed r)
    valid' = claimed-IsValid valid small due

    entry-after_put :
        (n p : ℕ) → r.head ≤ p → p < r.tail → entry (after_put h payload n) p ≡ entry r p
    entry-after_put n p lo hi =
        entry-at_commit (stored (claimed r) r.tail h payload) n p
        ∙ entry-stored_ne valid' r.tail p h payload apart
        ∙ entry-claimed r p
      where
        apart : p % r.capacity ≢ r.tail % r.capacity
        apart e =
            omega (
              arith,
              lap_injective r.capacity r.head p r.tail lo (omega arith) (omega arith) free e,
            )

    entries-after_put :
        (n : ℕ)
        → entries (after_put h payload n) r.head (r.tail + 1 - r.head)
          ≡ q.items ++ delivery r.capacity r.epoch q.count h payload ∷ []
    entries-after_put n =
        let s : Ring = after_put h payload n in
        let k : ℕ = r.tail - r.head in
        let len : r.tail + 1 - r.head ≡ suc k = omega (arith, valid.head_le, valid.commit_le) in
        let last : r.head + k ≡ r.tail = omega (arith, valid.head_le, valid.commit_le) in
        ap (entries s r.head) len
        ∙ entries-snoc s r.head k
        ∙ ap₂ (λ xs x. xs ++ x ∷ [])
            (entries-congr s r r.head k (λ p lo hi. entry-after_put n p lo (omega arith))
              ∙ sym items)
            (ap (entry s) last
              ∙ entry-at_commit (stored (claimed r) r.tail h payload) n r.tail
              ∙ entry-stored valid' r.tail h payload
              ∙ ap (λ c. delivery r.capacity r.epoch c h payload) (sym count))

    abbrev written : Ring
    written = stored (claimed r) r.tail h payload

    -- The put is the only one under way, so its own record stops nothing.
    all_committed :
        (n : ℕ) → Advanced written n → seq_at written r.tail ≡ r.tail + 1 → n ≡ r.tail + 1
    unfolding write_cell
    all_committed n adv turn = elim (ℕ_discrete n r.tail) [
      | yes e ↦ absurd (elim adv.stop [ inl end ↦ omega arith | inr gap ↦ gap (rw e turn) ])
      | no ne ↦ omega (arith, adv.forward, adv.within, settled)
    ]

    after_put-Models :
        (n : ℕ)
        → Advanced written n
        → seq_at written r.tail ≡ r.tail + 1
        → Models (after_put h payload n) (record {
          items = q.items ++ delivery r.capacity r.epoch q.count h payload ∷ [];
          count = q.count + 1;
        })
    unfolding write_cell
    after_put-Models n adv turn = record {
      valid = adv.valid;
      settled = all_committed n adv turn;
      returned = λ p lo hi.
          seq_at-write_ne valid' r.tail p (fill (claimed r) r.tail h payload).1 (λ e. omega (
            arith,
            lap_injective r.capacity r.tail p r.tail (omega arith)
                (omega (arith, valid.head_le, valid.commit_le)) (omega arith)
                (omega (arith, valid.many)) e,
          ))
          ∙ returned p (omega arith) hi;
      items = sym (entries-after_put n);
      count = omega (arith, count);
    }

    put_free : Simulates r q (put h payload)
    unfolding fifo_step write_cell
    put_free =
        let (n, run, adv, turn) =
          publish_lem 2 valid' (claimed-Claimed valid due) h payload (omega (arith, settled)) in
        rw
          (fifo_put_free r.capacity r.epoch h payload q
            (omega (arith, length-items, valid.head_le, valid.commit_le)))
          (
            at_commit written n,
            ring_step-published r h payload (claim_free 0 valid small due) run,
            after_put-Models n adv turn,
            record { capacity = refl; epoch = refl; tail = omega arith },
          )

  get_step : (rec : Record) → Simulates r q (get rec)
  unfolding fifo_step fifo_get release write_cell
  get_step rec = elim (serve_lem m 0 rec) [
    | inl (e, run) ↦ rw e (
      r,
      ring_step-empty r rec run,
      record {
        valid = valid;
        settled = settled;
        returned = returned;
        items = sym e ∙ items;
        count = count;
      },
      record { capacity = refl; epoch = refl; tail = omega arith },
    )
    | inr (x, xs, e, run, m') ↦ rw e (
      release (taken r) r.head,
      ring_step-taken r rec run,
      m',
      record { capacity = refl; epoch = refl; tail = omega arith },
    )
  ]

-- One step of a client of a ring that models a queue.
step-Simulates :
    {r : Ring} {q : Fifo}
    → Models r q
    → r.tail + 1 + r.capacity < 2 ^ 64
    → (o : Op) → Simulates r q o
step-Simulates m small (get rec) = get_step m rec
step-Simulates {r} m small (put h payload) = elim (dec_lt r.tail (r.head + r.capacity)) [
  | yes free ↦ put_free m small h payload free
  | no full ↦ put_full m h payload (omega (arith, m.valid.room))
]

ring_run-next :
    (o : Op) (r : Ring) (os : List Op) {s : Ring} {a : Reply} {as' : List Reply}
    → ring_step o r ≡ some (a, s)
    → ring_run os s ≡ some as'
    → ring_run (o ∷ os) r ≡ some (a ∷ as')
unfolding ring_run
ring_run-next o r os e f = ground arith

-- A client that publishes what it claims and releases what it dequeues cannot tell the ring from a
-- FIFO queue of at most `capacity` records: every sequence of puts and gets ends, with the replies
-- of the queue, as long as the positions stay below 2 ^ 64.
pub ring_run-refines :
    (os : List Op) {r : Ring} {q : Fifo}
    → Models r q
    → r.tail + length os + r.capacity < 2 ^ 64
    → ring_run os r ≡ some (fifo_run r.capacity r.epoch os q)
unfolding ring_run fifo_run
ring_run-refines [] m small = refl
ring_run-refines (o ∷ os) {r} m small =
    let (s, run, m', st) = step-Simulates m (omega arith) o in
    ring_run-next o r os run
      (rw (st.capacity, st.epoch) at (ring_run-refines os m' (omega (arith, st.tail, st.capacity))))
