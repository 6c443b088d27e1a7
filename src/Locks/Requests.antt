-- ===== src/Locks/Requests.antt =====
-- ResourceLockManager.acquire and acquire_many, and the methods of ResourceLeaseGroup
-- (lib/services/resource_lock.py). The process is `me`; `lock_path` is the file of a resource (a
-- regular expression and a SHA-256 digest); `others` is what the other processes do during the n-th
-- pause.
use wifi_validation_framewor.Prelude.{
  ℕ, zero, suc, ◌+◌, ◌-◌, ◌/◌, min, String, Bool, true, false, Option, none, some, List, [], ◌∷◌,
  ◌==◌, leb, if◌then◌else◌, ok, raised, Result, pure, raise, reads, writes, lift, handling,
  reject_if, ◌>>=◌, ◌>>◌, for_each, sorted_set,
}
use wifi_validation_framewor.Domain.Entities.{Time}
use wifi_validation_framewor.Locks.{
  LockError, resource_lock, value, unfinished, Duration, ResourceLease, Machine, Action,
  validate_duration, validate_identity, system_call, put_lease, changes, write, close, release,
  renew, try_lock,
}

abbrev pub join_ids :
    Result LockError String → Result LockError (List String) → Result LockError (List String)
join_ids (raised e) rest = raised e
join_ids (ok x) (raised e) = raised e
join_ids (ok x) (ok xs) = ok (x ∷ xs)

unfoldable pub validate_all : List String → Result LockError (List String)
unfolding validate_identity
validate_all [] = ok []
validate_all (x ∷ xs) = join_ids (validate_identity x) (validate_all xs)

-- `time.sleep(min(0.05, max(0.0, end - time.monotonic())))`.
abbrev pub pause : ℕ
pause = 50000

-- `try: m except Exception as exc`, with the exception.
unfoldable pub caught : Action (Unit {0}) → Action (Option LockError)
caught m = handling (m >> pure none) (λ e. pure (some e))

abbrev pub first_of_two : Option LockError → Option LockError → Option LockError
first_of_two none e = e
first_of_two (some first) e = some first

unfoldable pub release_each : List ℕ → Option LockError → Action (Option LockError)
unfolding caught
release_each [] first = pure first
release_each (h ∷ hs) first = do e ← caught (release h); release_each hs (first_of_two first e)

unfoldable pub raise_first : Option LockError → Action (Unit {0})
raise_first none = pure tt
raise_first (some e) = raise (resource_lock "one or more resource leases failed to release")

-- ResourceLeaseGroup.release, where the group's leases are in reverse and `released` is its flag, which
-- is set afterwards.
unfoldable pub release_group : Bool → List ℕ → Action (Unit {0})
unfolding release_each raise_first
release_group true hs = pure tt
release_group false hs = do first ← release_each hs none; raise_first first

-- ResourceLeaseGroup.renew, on the leases in order.
unfoldable pub renew_group : Bool → List ℕ → Duration → Action (Unit {0})
renew_group released hs seconds = do
  reject_if released (resource_lock "cannot renew a released resource lease group")
  for_each (λ h. renew h seconds) hs

module _ (me : ℕ) (others : ℕ → Machine → Machine) where
  -- `os.open` and `os.fdopen`.
  unfoldable pub open_file : Action ℕ
  open_file = do
    handling system_call (λ _. raise (resource_lock "cannot safely open resource lock"))
    writes λ s. (
      s.next_handle,
      record s {
        next_handle = s.next_handle + 1;
        opened_by = λ h. if h == s.next_handle then me else s.opened_by h;
      },
    )

  unfoldable pub sleep : ℕ → Time → Action (Unit {0})
  sleep round end = changes λ s. others round (record s { now = s.now + min pause (end - s.now) })

  module _ (resource_id owner path : String) (lifetime : ℕ) (handle : ℕ) (end : Time) where
    abbrev pub new_lease : Time → ResourceLease
    new_lease now = record {
      resource_id = resource_id;
      owner = owner;
      path = path;
      acquired_at = now;
      expires_at = now + lifetime;
      released = false;
    }

    -- The body of the loop once the lock is held; the second call of the system is `os.chmod`.
    unfoldable pub take_lease : Action ℕ
    take_lease = do
      now ← reads λ s. s.now
      changes (put_lease handle (some (new_lease now)))
      handling (write handle "HELD" >> system_call) (λ e. release handle >> raise e)
      pure handle

    unfoldable pub give_up : Action ℕ
    give_up = close handle >> raise (resource_lock "resource is already locked")

    abbrev pub poll_again : Action ℕ → ℕ → Bool → Action ℕ
    poll_again again round true = give_up
    poll_again again round false = sleep round end >> again

    abbrev pub poll_locked : Action ℕ → ℕ → Bool → Action ℕ
    poll_locked again round true = take_lease
    poll_locked again round false = do now ← reads λ s. s.now; poll_again again round (leb end now)

    -- `while True`, on fuel.
    unfoldable pub poll : ℕ → ℕ → Action ℕ
    unfolding take_lease give_up sleep
    poll zero round = raise unfinished
    poll (suc fuel) round = do
      locked ← handling (try_lock handle path) (λ e. close handle >> raise e)
      poll_locked (poll fuel (round + 1)) round locked

  module _ (lock_path : String → String) where
    -- The rounds that the wait allows are one more than its pauses, rounded up.
    unfoldable pub acquire : String → String → Duration → Duration → Action ℕ
    unfolding open_file poll
    acquire resource_id owner timeout lease_seconds = do
      resource_id ← lift (validate_identity resource_id)
      owner ← lift (validate_identity owner)
      wait ← lift (validate_duration true timeout)
      lifetime ← lift (validate_duration false lease_seconds)
      handle ← open_file
      now ← reads λ s. s.now
      poll resource_id owner (lock_path resource_id) lifetime handle (now + wait) (wait / pause + 2)
          0

    -- Every lease is released, the newest first, whatever fails.
    unfoldable pub release_all : List ℕ → Action (Unit {0})
    release_all = for_each λ handle. handling (release handle) (λ _. pure tt)

    -- `acquired` is in reverse.
    unfoldable pub acquire_each :
        String → Duration → Duration → List String → List ℕ → Action (List ℕ)
    unfolding acquire release_all
    acquire_each owner timeout lease_seconds [] acquired = pure acquired
    acquire_each owner timeout lease_seconds (resource_id ∷ ids) acquired = do
      handle ←
          handling (acquire resource_id owner timeout lease_seconds)
            λ e. release_all acquired >> raise e
      acquire_each owner timeout lease_seconds ids (handle ∷ acquired)

    unfoldable pub acquire_sorted : String → Duration → Duration → List String → Action (List ℕ)
    unfolding acquire_each
    acquire_sorted owner timeout lease_seconds [] =
        raise (value "at least one resource_id is required")
    acquire_sorted owner timeout lease_seconds (x ∷ xs) =
        acquire_each owner timeout lease_seconds (x ∷ xs) []

    -- The group's leases, in reverse.
    unfoldable pub acquire_many : List String → String → Duration → Duration → Action (List ℕ)
    unfolding acquire_sorted validate_all
    acquire_many resource_ids owner timeout lease_seconds = do
      ids ← lift (validate_all resource_ids)
      acquire_sorted owner timeout lease_seconds (sorted_set ids)
