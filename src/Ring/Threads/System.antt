-- ===== src/Ring/Threads/System.antt =====
-- Threads over one ring, interleaved in any order.
use vautlage.Prelude.{ℕ, zero, suc, [], update}
use vautlage.Ring.{Ring, Header}
use vautlage.Ring.Threads.{Pc, Mem, Move}

-- Every number names a thread; one that is never picked stays `idle`.
pub record System : Type 0 where
  pub mem : Mem
  pub pc : ℕ → Pc

pub data Step (s : System) : System → Type 0 where
  pick :
      (i : ℕ) {m : Mem} {p : Pc}
      → Move s.mem (s.pc i) m p
      → Step s (record { mem = m; pc = update s.pc i p })

abbrev no_header : Header
no_header = record { ticket = 0; key = 0; timestamp = 0; flags = 0; checksum = 0 }

-- The ring before any call, with nothing published.
abbrev pub init : Ring → System
init r = record { mem = record { ring = r; log = λ _. (no_header, []) }; pc = λ _. Pc.idle }

-- What `n` steps lead to, from the ring `r` on.
pub data Reach (r : Ring) : ℕ → System → Type 0 where
  start : Reach r zero (init r)
  later : {n : ℕ} {s t : System} → Reach r n s → Step s t → Reach r (suc n) t
