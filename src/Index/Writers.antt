-- ===== src/Index/Writers.antt =====
-- updateMonotonic of index.go under any number of threads on one bucket, one access at a time.
use mathlib.Core.Path.{subst}
use vautlage.Prelude.{
  ℕ, ◌≤◌, ◌<◌, ◌≡◌, ◌⊎◌, inl, inr, refl, sym, ◌∙◌, arith, true, false, update, update_self,
  update_all,
}
use vautlage.Atomics.{load, store, cas}
use vautlage.Index.{Bucket}

-- The arguments of a call.
pub record Mutation : Type 0 where
  pub ticket : ℕ
  pub slot : ℕ

-- Where a call stands.
pub data Pc : Type 0 where
  waiting : Pc
  looping : Pc  -- head of the loop
  swapping : (cur : ℕ) → Pc
  storing : Pc
  returned : Pc

-- One access of a call.
pub data Move (c : Mutation) (b : Bucket) : Pc → Bucket → Pc → Type 0 where
  begin : Move c b waiting b looping
  is_newer : c.ticket ≤ load b.ticket → Move c b looping b returned
  is_older : {cur : ℕ} → load b.ticket ≡ cur → cur < c.ticket → Move c b looping b (swapping cur)
  win :
      {cur moved : ℕ}
      → cas b.ticket cur c.ticket ≡ (true, moved)
      → Move c b (swapping cur) (record b { ticket = moved }) storing
  lose :
      {cur moved : ℕ}
      → cas b.ticket cur c.ticket ≡ (false, moved)
      → Move c b (swapping cur) b looping
  store_slot : Move c b storing (record b { slot = store b.slot c.slot }) returned

-- Call `i` has the arguments `call i`; one that is never picked stays `waiting`.
pub record System : Type 0 where
  pub bucket : Bucket
  pub pc : ℕ → Pc

-- What a call knows of the ticket word.
abbrev Own : Bucket → Mutation → Pc → Type 0
Own b c (swapping cur) = cur < c.ticket
Own b c storing = c.ticket ≤ b.ticket
Own b c returned = c.ticket ≤ b.ticket
Own b c _ = Unit

-- The call has set the ticket word.
abbrev HasWon : Pc → Type 0
HasWon storing = Unit
HasWon returned = Unit
HasWon _ = ⊥

Own-grows : (b b' : Bucket) (c : Mutation) (p : Pc) → b.ticket ≤ b'.ticket → Own b c p → Own b' c p
Own-grows b b' c (swapping cur) le o = o
Own-grows b b' c storing le o = omega arith
Own-grows b b' c returned le o = omega arith
Own-grows b b' c waiting le o = tt
Own-grows b b' c looping le o = tt

cas_wins : (v cur new : ℕ) {moved : ℕ} → cas v cur new ≡ (true, moved) → (v ≡ cur) × (moved ≡ new)
unfolding cas
cas_wins v cur new e = ground arith

cas_same : (v new : ℕ) → cas v v new ≡ (true, new)
unfolding cas
cas_same v new = ground arith

-- What an access does to the ticket word, and what the call knows then.
record Effect (b : Bucket) (c : Mutation) (p : Pc) (b' : Bucket) (p' : Pc) : Type 0 where
  le : b.ticket ≤ b'.ticket
  own : Own b' c p'
  set : ((b'.ticket ≡ b.ticket) × (HasWon p → HasWon p')) ⊎ ((b'.ticket ≡ c.ticket) × HasWon p')

Move-Effect :
    {c : Mutation} {b b' : Bucket} {p p' : Pc} → Move c b p b' p' → Own b c p → Effect b c p b' p'
unfolding load
Move-Effect begin o = record { le = omega arith; own = tt; set = inl (refl, λ s. s) }
Move-Effect (is_newer le) o = record { le = omega arith; own = le; set = inl (refl, λ s. tt) }
Move-Effect (is_older e lt) o = record { le = omega arith; own = lt; set = inl (refl, λ s. s) }
Move-Effect {c} {b} (win {cur} e) o =
    let (same, new) = cas_wins b.ticket cur c.ticket e in
    record { le = omega arith; own = omega arith; set = inr (new, tt) }
Move-Effect (lose e) o = record { le = omega arith; own = tt; set = inl (refl, λ s. s) }
Move-Effect store_slot o = record { le = omega arith; own = o; set = inl (refl, λ s. tt) }

module _ (call : ℕ → Mutation) (b₀ : Bucket) where
  pub data Step (s : System) : System → Type 0 where
    pick :
        (i : ℕ) {b : Bucket} {p : Pc}
        → Move (call i) s.bucket (s.pc i) b p
        → Step s (record { bucket = b; pc = update s.pc i p })

  pub data Reach : System → Type 0 where
    start : Reach (record { bucket = b₀; pc = λ _. waiting })
    later : {s t : System} → Reach s → Step s t → Reach t

  record Inv (s : System) : Type 0 where
    grown : b₀.ticket ≤ s.bucket.ticket
    own : (i : ℕ) → Own s.bucket (call i) (s.pc i)
    from :
        (s.bucket.ticket ≡ b₀.ticket)
        ⊎ ((j : ℕ) × (s.bucket.ticket ≡ (call j).ticket) × HasWon (s.pc j))

  module _ {s : System} (inv : Inv s) (i : ℕ) {b : Bucket} {p : Pc}
      (f : Effect s.bucket (call i) (s.pc i) b p) where
    from_next :
        (b.ticket ≡ b₀.ticket)
        ⊎ ((j : ℕ) × (b.ticket ≡ (call j).ticket) × HasWon (update s.pc i p j))
    from_next = elim f.set [
      | inr (new, set) ↦ inr (i, new, subst HasWon (sym (update_self s.pc i p)) set)
      | inl (same, keep) ↦ elim inv.from [
        | inl e ↦ inl (same ∙ e)
        | inr (j, e, set) ↦
            inr
              (j, same ∙ e, update_all (λ n o. HasWon (s.pc n) → HasWon o) keep (λ n ne x. x) j set)
      ]
    ]

    next-Inv : Inv (record { bucket = b; pc = update s.pc i p })
    next-Inv = record {
      grown = omega (arith, inv.grown, f.le);
      own =
          update_all (λ j o. Own b (call j) o) f.own
            (λ j ne. Own-grows s.bucket b (call j) (s.pc j) f.le (inv.own j));
      from = from_next;
    }

  Reach-Inv : {s : System} → Reach s → Inv s
  Reach-Inv start = record { grown = omega arith; own = λ i. tt; from = inl refl }
  Reach-Inv (later reach (pick i move)) =
      let inv = Reach-Inv reach in next-Inv inv i (Move-Effect move (inv.own i))

-- However any number of calls of updateMonotonic on one bucket interleave, the ticket word never
-- goes back: it is at least the ticket of every call that has returned, and it is the first word or
-- the ticket of one of the calls. So when all have returned it is the largest.
pub last_ticket :
    {call : ℕ → Mutation} {b₀ : Bucket} {s : System}
    → Reach call b₀ s
    → (b₀.ticket ≤ s.bucket.ticket)
      × ((i : ℕ) → s.pc i ≡ returned → (call i).ticket ≤ s.bucket.ticket)
      × ((s.bucket.ticket ≡ b₀.ticket) ⊎ ((j : ℕ) × (s.bucket.ticket ≡ (call j).ticket)))
last_ticket {call} {b₀} {s} reach =
    let inv = Reach-Inv call b₀ reach in
    (
      inv.grown,
      λ i e. subst (Own s.bucket (call i)) e (inv.own i),
      elim inv.from [ inl e ↦ inl e | inr (j, e, _) ↦ inr (j, e) ],
    )

-- The slot word is stored after the ticket word has been won, so it can go back. For any two calls
-- with growing tickets beyond that of the bucket there is an interleaving, after which both have
-- returned, that leaves the ticket of the newer mutation with the slot of the older.
pub late_slot :
    (call : ℕ → Mutation) (b : Bucket)
    → b.ticket < (call 0).ticket
    → (call 0).ticket < (call 1).ticket
    → (s : System) × Reach call b s
      × (s.pc 0 ≡ returned)
      × (s.pc 1 ≡ returned)
      × (s.bucket.ticket ≡ (call 1).ticket)
      × (s.bucket.slot ≡ (call 0).slot)
unfolding store load
late_slot call b older newer = (
  _,
  later
      (later
        (later
          (later
            (later
              (later (later (later start (pick 0 begin)) (pick 0 (is_older refl older)))
                (pick 0 (win (cas_same b.ticket (call 0).ticket))))
              (pick 1 begin))
            (pick 1 (is_older refl newer)))
          (pick 1 (win (cas_same (call 0).ticket (call 1).ticket))))
        (pick 1 store_slot))
      (pick 0 store_slot),
  refl,
  refl,
  refl,
  refl,
)
