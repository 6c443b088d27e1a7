-- ===== src/Locks.antt =====
-- Locks on laboratory resources: lib/services/resource_lock.py. The operating system's part is the
-- table of `flock`: which open file holds the lock of which path, freed when the file is closed. Each
-- call of the system may fail. While a process sleeps, the others do what they do.
pub mod Exclusion
pub mod Requests
pub mod Steps
pub mod Releases
pub mod Grants
pub mod Acquired
pub mod Polling
pub mod Loop
pub mod Groups
pub mod Many
pub mod AllOrNone
pub mod Finishes
pub mod Waiting
pub mod Quiet
pub mod Success
use wifi_validation_framewor.Prelude.{
  ℕ, zero, suc, ◌+◌, ◌-◌, ◌*◌, ◌/◌, min, String, Bool, true, false, Option, none, some, List, [],
  ◌∷◌, ◌==◌, leb, ◌is◌, if◌then◌else◌, Result, ok, raised, Method, pure, raise, reads, writes, lift,
  require, handling, finally, reject_if, ◌>>=◌, ◌>>◌, is_blank, strip, contains, text_le, map,
}
use wifi_validation_framewor.Domain.Entities.{Time}

pub data LockError : Type 0 where
  resource_lock value os : String → LockError
  unfinished : LockError

-- A number of seconds as the caller gives it, in microseconds.
pub data Duration : Type 0 where
  microseconds : ℕ → Duration
  negative not_finite not_a_number : Duration

-- What `_write` puts into the lock file.
pub record Metadata : Type 0 where
  pub resource_id : String
  pub owner : String
  pub state : String
  pub acquired_at : Time
  pub expires_at : Time
  pub updated_at : Time

pub record ResourceLease : Type 0 where
  pub resource_id : String
  pub owner : String
  pub path : String
  pub acquired_at : Time
  pub expires_at : Time
  pub released : Bool

-- The lock table, the open files with the processes that opened them, the leases on them, and the
-- texts of the lock files, `none` for one that does not parse. The failures to come are a list, which
-- stands for success when it is used up. One clock serves `time.monotonic` and `datetime.now`.
pub record Machine : Type 0 where
  pub now : Time
  pub next_handle : ℕ
  pub opened_by : ℕ → ℕ
  pub holder : String → Option ℕ
  pub leases : ℕ → Option ResourceLease
  pub contents : String → Option Metadata
  pub failures : List Bool

abbrev pub Action : Type 0 → Type 0
Action = Method Machine LockError

-- `_validate_duration`.
unfoldable pub validate_duration : Bool → Duration → Result LockError ℕ
validate_duration allow_zero (microseconds zero) =
    if allow_zero then ok 0 else raised (value "must be finite and positive")
validate_duration allow_zero (microseconds (suc n)) = ok (suc n)
validate_duration allow_zero not_a_number = raised (value "must be a finite number")
validate_duration allow_zero _ = raised (value "must be finite")

-- `_validate_identity`.
unfoldable pub validate_identity : String → Result LockError String
unfolding is_blank strip
validate_identity text =
    if is_blank text then raised (value "must be a non-empty string") else ok (strip text)

abbrev pub next_outcome : List Bool → Result LockError (Unit {0})
next_outcome (true ∷ rest) = raised (os "the system call failed")
next_outcome _ = ok tt

abbrev pub rest_of : List Bool → List Bool
rest_of [] = []
rest_of (x ∷ rest) = rest

unfoldable pub system_call : Action (Unit {0})
system_call s = (next_outcome s.failures, record s { failures = rest_of s.failures })

abbrev pub is_held_by : ℕ → Option ℕ → Bool
is_held_by handle none = false
is_held_by handle (some h) = h == handle

-- The locks of an open file are freed.
unfoldable pub free : ℕ → Machine → Machine
free handle s = record s {
  holder = λ path. if is_held_by handle (s.holder path) then none else s.holder path;
}

abbrev pub put_lease : ℕ → Option ResourceLease → Machine → Machine
put_lease handle lease s = record s { leases = λ h. if h == handle then lease else s.leases h }

abbrev pub put_contents : String → Option Metadata → Machine → Machine
put_contents path data' s = record s { contents = λ p. if p is path then data' else s.contents p }

abbrev pub changes : (Machine → Machine) → Action (Unit {0})
changes f = writes λ s. (tt, f s)

unfoldable pub lease_on : ℕ → Action ResourceLease
lease_on handle = do lease ← reads λ s. s.leases handle; require (os "no such lease") lease

abbrev pub metadata_of : ResourceLease → String → Time → Metadata
metadata_of lease state now = record {
  resource_id = lease.resource_id;
  owner = lease.owner;
  state = state;
  acquired_at = lease.acquired_at;
  expires_at = lease.expires_at;
  updated_at = now;
}

-- ResourceLease._write: a write that fails may leave a text that does not parse.
unfoldable pub write : ℕ → String → Action (Unit {0})
write handle state = do
  lease ← lease_on handle
  reject_if lease.released (resource_lock "resource lease is already released")
  now ← reads λ s. s.now
  handling system_call (λ e. changes (put_contents lease.path none) >> raise e)
  changes (put_contents lease.path (some (metadata_of lease state now)))

-- `handle.close()`, which frees the locks of the file even where it fails.
unfoldable pub close : ℕ → Action (Unit {0})
close handle = changes (free handle) >> system_call

-- `fcntl.flock(handle, LOCK_UN)`.
unfoldable pub unlock : ℕ → Action (Unit {0})
unlock handle = system_call >> changes (free handle)

abbrev pub retired : ResourceLease → ResourceLease
retired lease = record lease { released = true }

-- The `finally` block of ResourceLease.release.
unfoldable pub retire : ℕ → ResourceLease → Action (Unit {0})
retire handle lease = do
  changes (put_lease handle (some (retired lease)))
  finally (unlock handle) (close handle)

unfoldable pub release_if : Bool → ℕ → ResourceLease → Action (Unit {0})
release_if true handle lease = pure tt
release_if false handle lease = finally (write handle "RELEASED") (retire handle lease)

unfoldable pub release : ℕ → Action (Unit {0})
release handle = do lease ← lease_on handle; release_if lease.released handle lease

unfoldable pub renew : ℕ → Duration → Action (Unit {0})
renew handle seconds = do
  lease ← lease_on handle
  reject_if lease.released (resource_lock "cannot renew a released resource lease")
  lifetime ← lift (validate_duration false seconds)
  now ← reads λ s. s.now
  changes (put_lease handle (some (record lease { expires_at = now + lifetime })))
  write handle "HELD"

abbrev pub grant : ℕ → String → Option ℕ → Machine → Bool × Machine
grant handle path none s =
    (true, record s { holder = λ p. if p is path then some handle else s.holder p })
grant handle path (some h) s = (h == handle, s)

-- `fcntl.flock(handle, LOCK_EX | LOCK_NB)`: `false` for BlockingIOError.
unfoldable pub try_lock : ℕ → String → Action Bool
try_lock handle path = system_call >> writes λ s. grant handle path (s.holder path) s
