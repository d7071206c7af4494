-- ===== src/Fabric/Handed.antt =====
-- What a consumer has been handed: records in order, each once, and the queue that is left.
use vautlage.Prelude.{
  ℕ, suc, ◌≡◌, ◌≢◌, ◌⊎◌, inl, inr, refl, ap, ◌∙◌, List, [], ◌∷◌, ◌++◌, Option, some, true, false,
  length, sym,
}
use vautlage.Atomics.{add}
use vautlage.Record.{Record}
use vautlage.Ring.{release}
use vautlage.Ring.Dequeue.{taken}
use vautlage.Ring.Fifo.{Fifo}
use vautlage.Ring.Models.{Models}
use vautlage.Ring.Serve.{serve_lem}
use vautlage.Fabric.{Shard, put_shard, mark_drained}
use vautlage.Fabric.Total.{put_shard_self, put_shard_other}
use vautlage.Fabric.Tickets.{mark_drained-SameRings, mark_drained-SameShape}
use vautlage.Fabric.Delivery.{deliver_empty, deliver_one}
use vautlage.Fabric.Consume.{Scene, handle, deliver}

-- The records of a shard's queue as the handler sees them.
unfoldable pub tagged : ℕ → List Record → List Record
tagged sid [] = []
tagged sid (x ∷ xs) = record x { shard = sid } ∷ tagged sid xs

pub length-tagged : (sid : ℕ) (xs : List Record) → length (tagged sid xs) ≡ length xs
unfolding tagged
length-tagged sid [] = refl
length-tagged sid (x ∷ xs) = ap suc (length-tagged sid xs)

pub tagged-append :
    (sid : ℕ) (xs ys : List Record) → tagged sid (xs ++ ys) ≡ tagged sid xs ++ tagged sid ys
unfolding tagged
tagged-append sid [] ys = refl
tagged-append sid (x ∷ xs) ys = ap (◌∷◌ (record x { shard = sid })) (tagged-append sid xs ys)

module _ {W : Type 0} (h : Option (Record → W → W)) where
  -- The handler over records, the first one first.
  unfoldable pub handle_all : List Record → W → W
  handle_all [] w = w
  handle_all (x ∷ xs) w = handle_all xs (handle h x w)

  pub handle_all-append :
      (xs ys : List Record) (w : W) → handle_all (xs ++ ys) w ≡ handle_all ys (handle_all xs w)
  unfolding handle_all
  handle_all-append [] ys w = refl
  handle_all-append (x ∷ xs) ys w = handle_all-append xs ys (handle h x w)

module _ {W : Type 0} (h : Option (Record → W → W)) (sid : ℕ) where
  -- From `s` to `t` the handler was called on `xs`, and the ring of the shard has become `q`. The
  -- rings of the other shards are untouched.
  pub record Handed (s t : Scene W) (xs : List Record) (q : Fifo) : Type 0 where
    pub models : Models (t.engine.shards sid).ring q
    pub world : t.world ≡ handle_all h (tagged sid xs) s.world
    pub others : (j : ℕ) → j ≢ sid → (t.engine.shards j).ring ≡ (s.engine.shards j).ring
    pub shard_n : t.engine.shard_n ≡ s.engine.shard_n
    pub running : t.engine.ctl.running ≡ s.engine.ctl.running

  pub Handed-none : (s : Scene W) {q : Fifo} → Models (s.engine.shards sid).ring q → Handed s s [] q
  unfolding handle_all tagged
  Handed-none s m = record {
    models = m;
    world = refl;
    others = λ j ne. refl;
    shard_n = refl;
    running = refl;
  }

  pub Handed-cons :
      {s t u : Scene W} {x : Record} {xs : List Record} {q q' : Fifo}
      → Handed s t (x ∷ []) q
      → Handed t u xs q'
      → Handed s u (x ∷ xs) q'
  unfolding handle_all tagged
  Handed-cons {s} {t} {u} {x} {xs} a b = record {
    models = b.models;
    world = b.world ∙ ap (handle_all h (tagged sid xs)) a.world;
    others = λ j ne. b.others j ne ∙ a.others j ne;
    shard_n = b.shard_n ∙ a.shard_n;
    running = b.running ∙ a.running;
  }

  pub Handed-append :
      {s t u : Scene W} (xs ys : List Record) {q q' : Fifo}
      → Handed s t xs q
      → Handed t u ys q'
      → Handed s u (xs ++ ys) q'
  Handed-append {s} {t} {u} xs ys a b = record {
    models = b.models;
    world =
        b.world
        ∙ ap (handle_all h (tagged sid ys)) a.world
        ∙ sym (handle_all-append h (tagged sid xs) (tagged sid ys) s.world)
        ∙ sym (ap (λ r. handle_all h r s.world) (tagged-append sid xs ys));
    others = λ j ne. b.others j ne ∙ a.others j ne;
    shard_n = b.shard_n ∙ a.shard_n;
    running = b.running ∙ a.running;
  }

  pub Handed-mark_drained :
      {s t : Scene W} {xs : List Record} {q : Fifo}
      → Handed s t xs q
      → Handed s (record t { engine = mark_drained t.engine sid }) xs q
  Handed-mark_drained {s} {t} a =
      let k = mark_drained-SameRings t.engine sid in
      record {
        models = rw (k.ring sid) a.models;
        world = a.world;
        others = λ j ne. k.ring j ∙ a.others j ne;
        shard_n = (mark_drained-SameShape t.engine sid).shard_n ∙ a.shard_n;
        running = k.running ∙ a.running;
      }

  -- The shard's block is replaced by one with this ring.
  put_ring-Handed :
      (s : Scene W) (sh : Shard) (rec : Record) (xs : List Record) {q : Fifo}
      → Models sh.ring q
      → Handed s
          (record {
            engine = put_shard s.engine sid sh;
            rec = rec;
            world = handle_all h (tagged sid xs) s.world;
          })
          xs
          q
  unfolding put_shard
  put_ring-Handed s sh rec xs {q} m = record {
    models = rw (ap (λ (x : Shard). x.ring) (put_shard_self s.engine sid sh)) m;
    world = refl;
    others = λ j ne. ap (λ (x : Shard). x.ring) (put_shard_other s.engine sid sh j ne);
    shard_n = refl;
    running = refl;
  }

  -- One round: the break on an empty queue, or the oldest record.
  abbrev pub Delivers : ℕ → Scene W → Fifo → Type 0
  Delivers fuel s q =
      ((q.items ≡ [])
        × ((t : Scene W) × (deliver (suc fuel) h sid s ≡ some (false, t)) × Handed s t [] q))
      ⊎ ((x : Record) × (xs : List Record) × (q.items ≡ x ∷ xs)
          × ((t : Scene W) × (deliver (suc fuel) h sid s ≡ some (true, t))
              × Handed s t (x ∷ []) (record { items = xs; count = q.count })))

  pub deliver_lem :
      (fuel : ℕ) (s : Scene W) {q : Fifo} → Models (s.engine.shards sid).ring q → Delivers fuel s q
  unfolding handle_all tagged
  deliver_lem fuel s m = elim (serve_lem m fuel s.rec) [
    | inl (none_left, run) ↦
        inl (none_left, (_, deliver_empty (suc fuel) h sid s run, put_ring-Handed s _ s.rec [] m))
    | inr (x, xs, first, run, m') ↦ inr (
      x,
      xs,
      first,
      (
        _,
        deliver_one (suc fuel) h sid s run,
        put_ring-Handed s
            (record (s.engine.shards sid) {
              ring = release (taken (s.engine.shards sid).ring) (s.engine.shards sid).ring.head;
              consumed = add (s.engine.shards sid).consumed 1;
            })
            (record x { shard = sid }) (x ∷ []) m',
      ),
    )
  ]
