-- ===== src/Ctl/Load.antt =====
-- The load generator tries every record once.
use vautlage.Prelude.{
  Bool-cases, none, ap, sym, refl, ◌∙◌, Bool, true, false, ℕ, zero, suc, ◌+◌, ◌*◌, ◌^◌, ◌<◌, ◌≤◌,
  ◌≡◌, ◌≢◌, ◌⊎◌, inl, inr, some, arith, List, [], ◌∷◌, length,
}
use vautlage.Errors.{Error, backpressure, shard_full, Result, ok, err, Result-cases}
use vautlage.Atomics.{load, add}
use mathlib.Core.Path.{subst}
use vautlage.Fabric.Returns.{publish_ends}
use vautlage.Fabric.Session.{IsSound, route_lt, publish-IsSound}
use vautlage.Ctl.Attempts.{
  keys_from, publish_all, publish_all-cons, is_ticket, is_backpressure, is_full, count_of,
}
use vautlage.Ctl.Room.{Room, Room-less, claimed-Room, holding-Room}
use vautlage.Ctl.{key_of, Tally, count_answer, produce}
use vautlage.Gate.{is_closed}
use vautlage.Fabric.{Vaultage, route, put_shard, mark_saturated, refuse, ingest, admit, publish}
use vautlage.Fabric.Outcome.{Publishes, refused, frozen, full, kept, kept_hot, publish-Publishes}

-- The engine is open, and takes payloads of `n` bytes.
abbrev pub IsOpen : Vaultage → ℕ → Type 0
IsOpen v n = (v.ctl.running ≢ 0) × (n ≤ v.payload_cap)

admit_err :
    (fuel wall : ℕ) (v : Vaultage) (key : ℕ) (payload : List ℕ) (flags : ℕ) {e : Error}
    {v' : Vaultage}
    → admit fuel wall v key payload flags ≡ some (err e, v')
    → e ≡ shard_full
unfolding admit ingest
admit_err fuel wall v key payload flags e = ground arith

Publishes-IsOpen :
    {v : Vaultage} {sid : ℕ} {res : Result ℕ} {v' : Vaultage} (n : ℕ)
    → Publishes v sid res v'
    → IsOpen v n
    → IsOpen v' n
unfolding put_shard mark_saturated refuse
Publishes-IsOpen n (refused e) o = o
Publishes-IsOpen n frozen o = o
Publishes-IsOpen n (full r) o = ground arith
Publishes-IsOpen n (kept r r' x) o = o
Publishes-IsOpen n (kept_hot r r' x) o = ground arith

-- An open engine answers a fitting payload under a key with a ticket or with one of two errors.
publish_err :
    (fuel wall : ℕ) (v : Vaultage) (key : ℕ) (payload : List ℕ) (flags : ℕ) {e : Error}
    {v' : Vaultage}
    → IsOpen v (length payload)
    → key ≢ 0
    → publish fuel wall v key payload flags ≡ some (err e, v')
    → (e ≡ backpressure) ⊎ (e ≡ shard_full)
unfolding publish load
publish_err fuel wall v key payload flags (open_now, fits) nz run =
    elim (Bool-cases (is_closed v.valve)) [
      | inl shut ↦ inl (ground arith)
      | inr free ↦
          let admits : publish fuel wall v key payload flags ≡ admit fuel wall v key payload flags =
            ground arith in
          inr (admit_err fuel wall v key payload flags (sym admits ∙ run))
    ]

abbrev pub total : Tally → ℕ
total t = t.published + t.backpressed + t.full

-- The answers that the producer counts.
abbrev Counted : Result ℕ → Type 0
Counted res = ((ticket : ℕ) × (res ≡ ok ticket)) ⊎ (res ≡ err backpressure) ⊎ (res ≡ err shard_full)

count_answer_lem :
    (res : Result ℕ) (t : Tally)
    → Counted res
    → total t + 1 < 2 ^ 64
    → ((count_answer res t).0 ≡ true)
      × ((count_answer res t).1.published ≡ t.published + is_ticket res)
      × ((count_answer res t).1.backpressed ≡ t.backpressed + is_backpressure res)
      × ((count_answer res t).1.full ≡ t.full + is_full res)
      × (is_ticket res + is_backpressure res + is_full res ≡ 1)
unfolding count_answer add
count_answer_lem res t (inl (ticket, e)) small =
    rw e (refl, omega arith, omega arith, omega arith, refl)
count_answer_lem res t (inr (inl e)) small =
    rw e (refl, omega arith, omega arith, omega arith, refl)
count_answer_lem res t (inr (inr e)) small =
    rw e (refl, omega arith, omega arith, omega arith, refl)

key_nonzero : (records p i : ℕ) → p * records + i + 1 < 2 ^ 64 → key_of records p i ≢ 0
unfolding key_of
key_nonzero records p i small e = omega arith

key_exact :
    (records p i : ℕ) → p * records + i + 1 < 2 ^ 64 → key_of records p i ≡ p * records + i + 1
unfolding key_of
key_exact records p i small = omega arith

module _ (late : ℕ → Bool) (fuel wall records p : ℕ) (buf : List ℕ) where
  step_on :
      (n i : ℕ) (v : Vaultage) (t : Tally) {res : Result ℕ} {v' : Vaultage}
      → late i ≡ false
      → publish fuel wall v (key_of records p i) buf 0 ≡ some (res, v')
      → (count_answer res t).0 ≡ true
      → produce late fuel wall records p buf (suc n) i v t
        ≡ produce late fuel wall records p buf n (suc i) v' (count_answer res t).1
  unfolding produce
  step_on n i v t in_time run goes_on = ground arith

  stuck :
      (n i : ℕ) (v : Vaultage) (t : Tally)
      → late i ≡ false
      → publish fuel wall v (key_of records p i) buf 0 ≡ none
      → produce late fuel wall records p buf (suc n) i v t ≡ none
  unfolding produce
  stuck n i v t in_time run = ground arith

  answers :
      (i : ℕ) (v : Vaultage) {res : Result ℕ} {v' : Vaultage}
      → IsOpen v (length buf)
      → p * records + i + 1 < 2 ^ 64
      → publish fuel wall v (key_of records p i) buf 0 ≡ some (res, v')
      → Counted res
  answers i v {res} {v'} open_now small run = elim (Result-cases res) [
    | inl (ticket, e) ↦ inl (ticket, e)
    | inr (e, is_err) ↦
        elim (publish_err fuel wall v (key_of records p i) buf 0 open_now
          (key_nonzero records p i small) (run ∙ ap (λ x. some (x, v')) is_err)) [
            | inl b ↦ inr (inl (is_err ∙ ap err b))
            | inr f ↦ inr (inr (is_err ∙ ap err f))
          ]
  ]

-- What a run of `n` attempts from record `i` on comes to: one call of publish for each of the keys from
-- p * records + i + 1 on, in order, and each answer counted in its counter.
abbrev pub Tries : ℕ → ℕ → List ℕ → ℕ → ℕ → Vaultage → Tally → Tally → Vaultage → Type 0
Tries fuel wall buf first n v t t' v' =
    (answers : List (Result ℕ)) × (publish_all fuel wall buf (keys_from first n) v
      ≡ some (answers, v'))
    × (t'.published ≡ t.published + count_of is_ticket answers)
    × (t'.backpressed ≡ t.backpressed + count_of is_backpressure answers)
    × (t'.full ≡ t.full + count_of is_full answers)
    × (count_of is_ticket answers + count_of is_backpressure answers + count_of is_full answers ≡ n)

none_tried :
    (fuel wall : ℕ) (buf : List ℕ) (first : ℕ) (v : Vaultage) (t : Tally)
    → Tries fuel wall buf first 0 v t t v
unfolding publish_all keys_from count_of
none_tried fuel wall buf first v t = ([], refl, omega arith, omega arith, omega arith, refl)

one_more :
    (fuel wall : ℕ) (buf : List ℕ) (first n : ℕ) (v : Vaultage) (t t' : Tally) {res : Result ℕ}
    {v₁ v' : Vaultage}
    → publish fuel wall v first buf 0 ≡ some (res, v₁)
    → Counted res
    → total t + 1 < 2 ^ 64
    → Tries fuel wall buf (suc first) n v₁ (count_answer res t).1 t' v'
    → Tries fuel wall buf first (suc n) v t t' v'
unfolding keys_from count_of
one_more fuel wall buf first n v t t' {res} run counted small (answers, rest, a, b, c, sum) =
    let (_, pub_step, back_step, full_step, one) = count_answer_lem res t counted small in
    (
      res ∷ answers,
      publish_all-cons fuel wall first buf (keys_from (suc first) n) v run rest,
      omega (arith, a, pub_step),
      omega (arith, b, back_step),
      omega (arith, c, full_step),
      omega (arith, sum, one),
    )

-- Producer `p` of the load generator, without a deadline, run alone from record `i` on, on a sound and
-- open engine whose payloads may be as long as its buffer: it ends, and has called publish once for
-- each of its `n` records, in order, with the keys from p * records + i + 1 on; each counter has grown
-- by the number of its answers (tickets, refusals by the gate, full shards), and there was no other
-- answer. The keys and the counters are short of 2 ^ 64, the rings of the engine's shards are valid
-- with cursors that many positions short of 2 ^ 64, and the fuel exceeds what the rings may hold
-- uncommitted then.
pub produce_lem :
    (late : ℕ → Bool) (fuel wall records p : ℕ) (buf : List ℕ) (n i : ℕ) (v : Vaultage) (t : Tally)
    → ((j : ℕ) → late j ≡ false)
    → IsSound v
    → IsOpen v (length buf)
    → p * records + i + n < 2 ^ 64
    → total t + n < 2 ^ 64
    → ((s : ℕ) → s < v.shard_n → Room fuel n (v.shards s).ring)
    → (t' : Tally) × (v' : Vaultage) × (produce late (suc fuel) wall records p buf n i v t
        ≡ some (t', v'))
      × Tries (suc fuel) wall buf (p * records + i + 1) n v t t' v'
unfolding produce
produce_lem late fuel wall records p buf zero i v t in_time sound open_now keys few rooms =
    (t, v, refl, none_tried (suc fuel) wall buf (p * records + i + 1) v t)
produce_lem late fuel wall records p buf (suc n) i v t in_time sound open_now keys few rooms =
    let key = key_of records p i in
    let room = rooms (route v key) (route_lt sound key) in
    let (res, v₁, run, rooms₁) =
      publish_ends fuel wall v key buf 0 room.valid (omega (arith, room.small))
        (omega (arith, room.enough)) (λ s r. s < v.shard_n → Room fuel n r)
        (λ s lt. Room-less (rooms s lt)) (λ valid free lt. claimed-Room room valid free)
        (λ m a lt. holding-Room room _ buf m a) in
    let (sound₁, same) = publish-IsSound (suc fuel) wall sound key buf 0 run in
    let counted = answers late (suc fuel) wall records p buf i v open_now (omega arith) run in
    let (goes_on, a, b, c, one) = count_answer_lem res t counted (omega arith) in
    let still : IsOpen v₁ (length buf) =
      Publishes-IsOpen (length buf) (publish-Publishes (suc fuel) wall v key buf 0 run) open_now in
    let (t', v', rest, tried) =
      produce_lem late fuel wall records p buf n (suc i) v₁ (count_answer res t).1 in_time sound₁
        still (omega arith) (omega (arith, a, b, c, one))
        (λ s lt. rooms₁ s (omega (arith, same))) in
    let exact = key_exact records p i (omega arith) in
    let first : p * records + suc i + 1 ≡ suc (p * records + i + 1) = omega arith in
    (
      t',
      v',
      step_on late (suc fuel) wall records p buf n i v t (in_time i) run goes_on ∙ rest,
      one_more (suc fuel) wall buf (p * records + i + 1) n v t t'
          (subst (λ k. publish (suc fuel) wall v k buf 0 ≡ some (res, v₁)) exact run) counted
          (omega arith)
          (subst (λ k. Tries (suc fuel) wall buf k n v₁ (count_answer res t).1 t' v') first tried),
    )
