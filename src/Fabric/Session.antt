-- ===== src/Fabric/Session.antt =====
-- Whole sessions: any sequence of calls of publish and Drain, and of rounds of the workers.
use vautlage.Prelude.{ℕ, ◌-◌, ◌%◌, ◌^◌, ◌<◌, ◌≡◌, refl, ap, ◌∙◌, arith, List, some, bit_and}
use vautlage.Prelude.Bits.{bit_and_mask}
use vautlage.Layout.Align.{two-pow_pos}
use vautlage.Atomics.{add}
use vautlage.Errors.{Result}
use vautlage.Gate.{reject}
use vautlage.Ring.{Ring}
use vautlage.Index.{hash_key}
use vautlage.Fabric.{Vaultage, put_shard, route, mark_saturated, mark_drained, refuse, publish}
use vautlage.Fabric.Saturation.{IsGated, put_shard-IsGated, mark_saturated-IsGated}
use vautlage.Fabric.Drained.{mark_drained-IsGated}
use vautlage.Fabric.Outcome.{
  issued, recorded, Publishes, refused, frozen, full, kept, kept_hot, publish-Publishes,
}
use vautlage.Fabric.Tickets.{
  Balance, SameShape, issued-Balance, recorded-Balance, refuse-Balance, mark_saturated-Balance,
  mark_drained-Balance, refuse-SameShape, mark_saturated-SameShape, mark_drained-SameShape,
}

-- Every key has a shard, the valve is in step with the latches, and the books balance.
pub record IsSound (v : Vaultage) : Type 0 where
  pub routed : (k : ℕ) × (v.shard_n ≡ 2 ^ k) × (v.shard_msk ≡ 2 ^ k - 1)
  pub gated : IsGated v
  pub balance : Balance v 0

pub route_lt : {v : Vaultage} → IsSound v → (key : ℕ) → route v key < v.shard_n
unfolding route
route_lt {v} s key =
    let (k, size, mask) = s.routed in
    let e : bit_and (hash_key key) v.shard_msk ≡ hash_key key % 2 ^ k =
      ap (bit_and (hash_key key)) mask ∙ bit_and_mask k (hash_key key) in
    omega (arith, two-pow_pos k)

-- The state while a ticket is pending.
issued-IsGated :
    {v : Vaultage} → IsGated v → (sid : ℕ) (r : Ring) → sid < v.shard_n → IsGated (issued v sid r)
unfolding put_shard
issued-IsGated {v} g sid r lt =
    let p = put_shard-IsGated g sid (record (v.shards sid) { ring = r }) lt refl in
    record { few = p.few; bits = p.bits; count = p.count; gate = p.gate }

refuse-IsGated : {v : Vaultage} → IsGated v → (sid : ℕ) → sid < v.shard_n → IsGated (refuse v sid)
unfolding refuse put_shard
refuse-IsGated {v} g sid lt =
    let p =
      put_shard-IsGated g sid (record (v.shards sid) { rejected = add (v.shards sid).rejected 1 })
        lt refl in
    mark_saturated-IsGated (record { few = p.few; bits = p.bits; count = p.count; gate = p.gate })
      sid lt

frozen-IsSound : {v : Vaultage} → IsSound v → IsSound (record v { valve = reject v.valve })
unfolding reject
frozen-IsSound {v} s = record {
  routed = s.routed;
  gated = record {
    few = s.gated.few;
    bits = s.gated.bits;
    count = s.gated.count;
    gate = s.gated.gate;
  };
  balance = record { tickets = s.balance.tickets; drops = s.balance.drops };
}

-- The same routing after a step that keeps the shape.
rerouted :
    {v w : Vaultage}
    → IsSound v
    → SameShape v w
    → (k : ℕ) × (w.shard_n ≡ 2 ^ k) × (w.shard_msk ≡ 2 ^ k - 1)
rerouted s h = let (k, n, m) = s.routed in (k, h.shard_n ∙ n, h.shard_msk ∙ m)

recorded-IsSound :
    {v : Vaultage}
    → IsSound v
    → (sid : ℕ) → sid < v.shard_n
    → (r r' : Ring) (x : _) → IsSound (recorded (issued v sid r) sid r' x)
unfolding put_shard
recorded-IsSound {v} s sid lt r r' x = record {
  routed = s.routed;
  gated = put_shard-IsGated (issued-IsGated s.gated sid r lt) sid _ lt refl;
  balance = recorded-Balance (issued-Balance s.balance sid r lt) sid r' x lt;
}

mark_saturated-IsSound :
    {v : Vaultage} → IsSound v → (sid : ℕ) → sid < v.shard_n → IsSound (mark_saturated v sid)
mark_saturated-IsSound {v} s sid lt = record {
  routed = rerouted s (mark_saturated-SameShape v sid);
  gated = mark_saturated-IsGated s.gated sid lt;
  balance = mark_saturated-Balance s.balance sid lt;
}

pub mark_drained-IsSound :
    {v : Vaultage} → IsSound v → (sid : ℕ) → sid < v.shard_n → IsSound (mark_drained v sid)
mark_drained-IsSound {v} s sid lt = record {
  routed = rerouted s (mark_drained-SameShape v sid);
  gated = mark_drained-IsGated s.gated sid lt;
  balance = mark_drained-Balance s.balance sid lt;
}

full-IsSound :
    {v : Vaultage}
    → IsSound v
    → (sid : ℕ) → sid < v.shard_n
    → (r : Ring) → IsSound (refuse (issued v sid r) sid)
unfolding put_shard
full-IsSound {v} s sid lt r = record {
  routed =
      (let h = refuse-SameShape (issued v sid r) sid in
        let (k, n, m) = s.routed in (k, h.shard_n ∙ n, h.shard_msk ∙ m));
  gated = refuse-IsGated (issued-IsGated s.gated sid r lt) sid lt;
  balance = refuse-Balance (issued-Balance s.balance sid r lt) sid lt;
}

Publishes-IsSound :
    {v : Vaultage} {sid : ℕ} {res : Result ℕ} {v' : Vaultage}
    → IsSound v
    → sid < v.shard_n
    → Publishes v sid res v'
    → IsSound v'
unfolding put_shard
Publishes-IsSound s lt (refused e) = s
Publishes-IsSound s lt frozen = frozen-IsSound s
Publishes-IsSound {v} {sid} s lt (full r) = full-IsSound s sid lt r
Publishes-IsSound {v} {sid} s lt (kept r r' x) = recorded-IsSound s sid lt r r' x
Publishes-IsSound {v} {sid} s lt (kept_hot r r' x) =
    mark_saturated-IsSound (recorded-IsSound s sid lt r r' x) sid lt

Publishes-shard_n :
    {v : Vaultage} {sid : ℕ} {res : Result ℕ} {v' : Vaultage}
    → Publishes v sid res v'
    → v'.shard_n ≡ v.shard_n
unfolding put_shard
Publishes-shard_n (refused e) = refl
Publishes-shard_n frozen = refl
Publishes-shard_n {v} {sid} (full r) = (refuse-SameShape (issued v sid r) sid).shard_n
Publishes-shard_n (kept r r' x) = refl
Publishes-shard_n {v} {sid} (kept_hot r r' x) =
    (mark_saturated-SameShape (recorded (issued v sid r) sid r' x) sid).shard_n

-- Every call of publish that returns, whatever it returns, keeps the engine sound.
pub publish-IsSound :
    (fuel wall : ℕ) {v : Vaultage}
    → IsSound v
    → (key : ℕ) (payload : List ℕ) (flags : ℕ) {res : Result ℕ} {v' : Vaultage}
    → publish fuel wall v key payload flags ≡ some (res, v')
    → IsSound v' × (v'.shard_n ≡ v.shard_n)
publish-IsSound fuel wall {v} s key payload flags e =
    let p = publish-Publishes fuel wall v key payload flags e in
    (Publishes-IsSound s (route_lt s key) p, Publishes-shard_n p)
