-- ===== src/Ctl/Room.antt =====
-- Rings whose cursors have room to advance.
use vautlage.Prelude.{ℕ, suc, ◌+◌, ◌^◌, ◌<◌, ◌≤◌, ◌≡◌, arith, List}
use vautlage.Ring.{Ring, Header, write_cell}
use vautlage.Ring.Valid.{IsValid, seq_at}
use vautlage.Ring.Claim.{claimed, claimed-IsValid}
use vautlage.Ring.Publish.{Advanced, stored}
use vautlage.Fabric.Reads.{holding}

-- The ring has room for the cursors to advance by `k`, and `fuel` covers what is not committed then.
pub record Room (fuel k : ℕ) (r : Ring) : Type 0 where
  pub valid : IsValid r
  pub small : r.tail + k + r.capacity < 2 ^ 64
  pub enough : r.tail + k ≤ r.commit + fuel

module _ {fuel k : ℕ} {r : Ring} (room : Room fuel (suc k) r) where
  pub Room-less : Room fuel k r
  Room-less = record {
    valid = room.valid;
    small = omega (arith, room.small);
    enough = omega (arith, room.enough);
  }

  pub claimed-Room : IsValid r → seq_at r r.tail ≡ r.tail → Room fuel k (claimed r)
  claimed-Room valid free = record {
    valid = claimed-IsValid valid (omega (arith, room.small)) free;
    small = omega (arith, room.small);
    enough = omega (arith, room.enough);
  }

  pub holding-Room :
      (h : Header) (payload : List ℕ) (n : ℕ)
      → Advanced (stored (claimed r) r.tail h payload) n
      → Room fuel k (holding (claimed r) r.tail h payload n)
  unfolding write_cell
  holding-Room h payload n a = record {
    valid = a.valid;
    small = omega (arith, room.small);
    enough = omega (arith, room.enough, a.forward);
  }
