-- ===== src/Tests/Arenas.antt =====
-- Arenas: a small operating system that maps upwards from one address, and has no pool of huge pages.
use mathlib.Core.Path.{subst}
use native.Mathlib.Decide.{ℕ_discrete}
use vautlage.Prelude.{
  ℕ, ◌+◌, ◌%◌, ◌^◌, ◌<◌, ◌≡◌, ◌≢◌, ◌⊎◌, inl, inr, refl, ◌∙◌, arith, Option, none, some, Bool, true,
  false, not, ◌&&◌, ◌||◌, if◌then◌else◌, ◌==◌, ltb, leb, not64, update, update_self, update_ne,
  Bool-cases,
}
use vautlage.Errors.{Result, ok}
use vautlage.Layout.{align_up, is_aligned, is_pow2}
use vautlage.Platform.{Os, address, outcome, map_memory, unmap_range}
use vautlage.Platform.View.{View, within, Same, Same-refl, Maps, Unmaps}
use vautlage.Platform.Linux.{linux, huge_flags}
use vautlage.Platform.Linux
use vautlage.Platform.Manual.{Manual, IsLawful}
use vautlage.Platform.Lawful.{linux-IsLawful}
use vautlage.Arena.{Arena, new_arena, close}
use vautlage.Arena
use vautlage.Arena.New.{Built, new_arena_lem}
use vautlage.Arena.Release.{new_arena-close}

-- The bytes below `next` that are mapped, those stored to, and the address for the next mapping.
pub record Host : Type 0 where
  pub map : ℕ → Bool
  pub stores : ℕ → Bool
  pub next : ℕ

abbrev pub start : Host
start = record { map = λ a. false; stores = λ a. false; next = 4492820480 }

abbrev fits : ℕ → ℕ → Host → Bool
fits n flags s =
    (flags == 34) && not (s.next == 0) && (s.next % 4096 == 0) && leb (s.next + n) (2 ^ 64)

abbrev grown : ℕ → Host → Host
grown n s = record s {
  map = λ a. (ltb a s.next && s.map a) || within s.next n a;
  next = s.next + n;
}

abbrev mmap_host : ℕ → ℕ → ℕ → ℕ → ℕ → ℕ → Host → ℕ × ℕ × Host
mmap_host addr n prot flags fd off s = if fits n flags s then (s.next, 0, grown n s) else (0, 12, s)

abbrev munmap_host : ℕ → ℕ → Host → ℕ × Host
munmap_host p n s = (0, record s { map = λ a. s.map a && not (within p n a) })

abbrev pub host : Os Host
host = record {
  page_size = 4096;
  prot_read = 1;
  prot_write = 2;
  map_private = 2;
  map_anon = 32;
  mmap = mmap_host;
  munmap = munmap_host;
  madvise = λ p n advice s. (0, s);
  mlock = λ p n s. (none, s);
  munlock = λ p n s. (none, s);
  sched_setaffinity = λ pid n words s. (0, s);
  write = λ a b s. record s { stores = update s.stores a true };
}

abbrev pub view : View Host
view = record {
  mapped = λ s a. ltb a s.next && s.map a;
  touched = λ s a. s.stores a;
  failures = λ s. 0;
}

update-true : (f : ℕ → Bool) (a x : ℕ) → f x ≡ true → update f a true x ≡ true
update-true f a x h = elim (ℕ_discrete x a) [
  | yes e ↦ rw e (update_self f a true)
  | no ne ↦ update_ne f a x true ne ∙ h
]

host-Maps :
    (n prot flags fd : ℕ) {r : ℕ} (s : Host) {t : Host}
    → mmap_host 0 n prot flags fd 0 s ≡ (r, 0, t)
    → Maps view 4096 r n s t
host-Maps n prot flags fd {r} s {t} e = elim (Bool-cases (fits n flags s)) [
  | inr no_room ↦ absurd (ground arith)
  | inl room ↦
      let place : s.next ≡ r = ground arith in
      let after : grown n s ≡ t = ground arith in
      subst (λ q. Maps view 4096 q n s t) place
        (subst (Maps view 4096 s.next n s) after (record {
          place = λ z. ground arith;
          paged = ground arith;
          room = ground arith;
          free = λ a inside. ground arith;
          mapped = λ a. ground arith;
          failures = refl;
        }))
]

host-kept :
    (n prot flags fd : ℕ) {r code : ℕ} (s : Host) {t : Host}
    → mmap_host 0 n prot flags fd 0 s ≡ (r, code, t)
    → code ≢ 0
    → Same view s t
host-kept n prot flags fd s {t} e ne =
    let same : s ≡ t = ground arith in subst (Same view s) same (Same-refl view s)

host-Unmaps : (p n : ℕ) (s : Host) {t : Host} → munmap_host p n s ≡ (0, t) → Unmaps view p n s t
host-Unmaps p n s {t} e =
    let after : (munmap_host p n s).1 ≡ t = ground arith in
    subst (Unmaps view p n s) after (record { mapped = λ a. ground arith; failures = refl })

host-Manual : Manual host view (huge_flags host) (not64 0)
host-Manual = record {
  page = refl;
  mmap_ok = λ {n} {prot} {flags} {fd} {r} {s} q paged whole e. host-Maps n prot flags fd s e;
  mmap_err = λ {n} {prot} {flags} {fd} {r} {code} {s} e ne. host-kept n prot flags fd s e ne;
  munmap_ok = λ {p} {n} {s} a b e. host-Unmaps p n s e;
  munmap_err = λ e ne. absurd (ground arith);
  madvise = λ p n advice s. Same-refl view s;
  mlock = λ p n s. Same-refl view s;
  mlock_keeps = λ p n s a h. h;
  munlock = λ p n s. Same-refl view s;
  write = λ a b s. record { mapped = λ x. refl; failures = refl };
  write_touches = λ a b s. update_self s.stores a true;
  write_keeps = λ a b s x h. update-true s.stores a x h;
}

-- A request of 3 MB with fuel for it.
abbrev pub fuel : ℕ
fuel = 6000000

pub linux_host : IsLawful (linux host) view
linux_host = linux-IsLawful host-Manual

new_arena_lem_example :
    (res : Result Arena) × (t : Host) × (new_arena (linux host) fuel 3000000 false true start
      ≡ some (res, t))
    × Built (linux host) view 3000000 false true start res t
new_arena_lem_example =
    new_arena_lem linux_host fuel 3000000 false true start (omega arith) (omega arith)

abbrev pub arena : Arena
arena = record {
  base = 4494196736;
  size = 4194304;
  raw = 4494196736;
  raw_size = 4194304;
  page_size = 4096;
  huge_native = false;
  huge_advised = true;
  pinned = true;
}

abbrev state_of : Option (Result Arena × Host) → Host
state_of (some (res, t)) = t
state_of none = start

abbrev built : Host
built = state_of (new_arena (linux host) fuel 3000000 false true start)

opened : new_arena (linux host) fuel 3000000 false true start ≡ some (ok arena, built)
unfolding new_arena Arena.map_and_trim Arena.trim Arena.cut Arena.advise Arena.finish Arena.pin_span
    Arena.prefault Arena.touch Linux.sys_map_anon Linux.sys_map_huge Linux.sys_advise_huge address
    outcome map_memory unmap_range align_up is_aligned is_pow2
opened = refl

new_arena-close_example :
    let (failed, a', w) = close (linux host) arena built in
    ((0 < 0) ⊎ Same view start w) × (close (linux host) a' w ≡ (none, a', w))
new_arena-close_example =
    new_arena-close linux_host fuel 3000000 false true start (omega arith) (omega arith) opened
      (Same-refl view built)

linux-IsLawful_example : IsLawful (linux host) view
linux-IsLawful_example = linux-IsLawful host-Manual
