-- ===== src/Examples/LockExamples.antt =====
-- The locks on a machine where another process holds the lock of the laboratory.
use Prim.Native.String.{◌++◌ as text_append}
use wifi_validation_framewor.Prelude.{
  ℕ, zero, suc, ◌+◌, ◌≤◌, String, ◌≡◌, refl, inl, inr, false, Option, none, some, List, [], ◌∷◌,
  arith, Bool-cases, ◌==◌, ◌is◌, if◌then◌else◌, ok, sorted_set, some-eq, is_blank, is_space, lstrip,
  rstrip, strip, text_le, insert_by, sort_by, without_repeats, pure, raise, reads, writes, lift,
  require, reject_if, handling, ◌>>=◌, Result, ap,
}
use wifi_validation_framewor.Locks.{
  microseconds, ResourceLease, Machine, validate_identity, release, LockError, validate_duration,
  system_call, lease_on, write, try_lock,
}
use wifi_validation_framewor.Locks.Requests.{
  validate_all, acquire, acquire_many, open_file, take_lease, poll, acquire_each, acquire_sorted,
}
use wifi_validation_framewor.Locks.Exclusion.{IsSound, Steady, Steady-refl}
use wifi_validation_framewor.Locks.Releases.{release-Steady}
use wifi_validation_framewor.Locks.AllOrNone.{
  SettlesAll, reverse_onto, acquire_many-SettlesAll, acquire_many-exclusive,
}
use wifi_validation_framewor.Locks.Finishes.{ran_out}
use wifi_validation_framewor.Locks.Waiting.{acquire_ends}
use wifi_validation_framewor.Locks.Quiet.{IsQuiet, IsForeign}
use wifi_validation_framewor.Locks.Success.{acquire-returns}

abbrev pub lock_path : String → String
lock_path id = text_append "locks/" id

-- The lease of process 2.
abbrev other_lease : ResourceLease
other_lease = record {
  resource_id = "lab:L1";
  owner = "runner:2";
  path = "locks/lab:L1";
  acquired_at = 0;
  expires_at = 900000000;
  released = false;
}

abbrev lease_at : ℕ → Option ResourceLease
lease_at zero = some other_lease
lease_at (suc h) = none

abbrev pub held_elsewhere : Machine
held_elsewhere = record {
  now = 1000;
  next_handle = 1;
  opened_by = λ h. 2;
  holder = λ path. if path is "locks/lab:L1" then some 0 else none;
  leases = lease_at;
  contents = λ path. none;
  failures = false ∷ false ∷ [];
}

pub held_elsewhere-IsSound : IsSound held_elsewhere
held_elsewhere-IsSound = record { held = held; fresh = fresh }
  where
    held :
        (h : ℕ) (l : ResourceLease)
        → lease_at h ≡ some l
        → l.released ≡ false
        → (if l.path is "locks/lab:L1" then some 0 else none) ≡ some h
    held zero l e a = let same = some-eq e in rw (← same) refl
    held (suc h) l e a = cc e

    fresh : (h : ℕ) → 1 ≤ h → lease_at h ≡ none
    fresh zero le = absurd (omega arith)
    fresh (suc h) le = refl

-- In a pause of process 1, process 2 lets its lease go.
abbrev pub other_releases : ℕ → Machine → Machine
other_releases n t = if t.opened_by 0 == 1 then t else (release 0 t).1

pub other_releases-Steady : (n : ℕ) (t : Machine) → Steady 1 t (other_releases n t)
other_releases-Steady n t = elim (Bool-cases (t.opened_by 0 == 1)) [
  | inl e ↦ rw e (Steady-refl 1 t)
  | inr e ↦ rw e (release-Steady 1 0 t e)
]

abbrev two_names : List String
two_names = "lab:L1" ∷ "device:D1" ∷ []

two_names-ok : validate_all (" lab:L1" ∷ "device:D1" ∷ []) ≡ ok two_names
unfolding validate_all validate_identity is_blank is_space strip
two_names-ok = refl

acquire_many-SettlesAll_example :
    SettlesAll 1 held_elsewhere (reverse_onto (sorted_set two_names) []) (
      acquire_many 1 other_releases lock_path
        (" lab:L1" ∷ "device:D1" ∷ [])
        "runner:1"
        (microseconds 70000)
        (microseconds 900000000)
        held_elsewhere)
acquire_many-SettlesAll_example =
    acquire_many-SettlesAll 1 other_releases other_releases-Steady lock_path "runner:1"
      (microseconds 70000) (microseconds 900000000) held_elsewhere (" lab:L1" ∷ "device:D1" ∷ [])
      two_names two_names-ok held_elsewhere-IsSound

-- A pause in which the others take ten microseconds more.
abbrev slow_others : ℕ → Machine → Machine
slow_others n t = record t { now = t.now + 10 }

acquire_ends_example :
    ran_out
      (acquire 1 slow_others lock_path "lab:L1" "runner:1"
        (microseconds 70000)
        (microseconds 5)
        held_elsewhere).0
    ≡ false
acquire_ends_example =
    acquire_ends 1 slow_others lock_path (λ n t. omega arith) "lab:L1" "runner:1"
      (microseconds 70000) (microseconds 5) held_elsewhere

-- In the second pause the other process is killed: the system frees its lock.
abbrev killed_later : ℕ → Machine → Machine
killed_later n t = if n == 1 then record t { holder = λ path. none } else t

abbrev quiet_machine : Machine
quiet_machine = record held_elsewhere { failures = [] }

killed_later-keeps :
    (n : ℕ) (t : Machine)
    → IsForeign 1 "locks/lab:L1" t
    → IsForeign 1 "locks/lab:L1" (killed_later n t)
killed_later-keeps n t f = elim (Bool-cases (n == 1)) [
  | inl e ↦ rw e (λ g h. cc h)
  | inr e ↦ rw e f
]

killed_later-calls : (n : ℕ) (t : Machine) → IsQuiet t → IsQuiet (killed_later n t)
killed_later-calls n t q = elim (Bool-cases (n == 1)) [ inl e ↦ rw e q | inr e ↦ rw e q ]

killed_later-instant : (n : ℕ) (t : Machine) → (killed_later n t).now ≡ t.now
killed_later-instant n t = elim (Bool-cases (n == 1)) [ inl e ↦ rw e refl | inr e ↦ rw e refl ]

acquire-returns_example :
    (h : ℕ) × ((acquire 1 killed_later lock_path "lab:L1" "runner:1"
        (microseconds 70000)
        (microseconds 5)
        quiet_machine).0
      ≡ ok h)
unfolding strip is_blank is_space lstrip rstrip
acquire-returns_example =
    acquire-returns 1 killed_later lock_path "lab:L1" "runner:1" 70000 5 1 quiet_machine refl refl
      (omega arith) refl (λ g e. let same : 0 ≡ g = some-eq e in (omega arith, refl)) (omega arith)
      (λ t f. refl) killed_later-keeps killed_later-calls killed_later-instant

abbrev free_names : List String
free_names = "device:D1" ∷ "namespace:N1" ∷ []

free_names-ok : validate_all free_names ≡ ok free_names
unfolding validate_all validate_identity is_blank is_space strip lstrip rstrip
free_names-ok = refl

abbrev both_held : Result LockError (List ℕ) × Machine
both_held =
    acquire_many 1 other_releases lock_path free_names "runner:1" (microseconds 0)
      (microseconds 900) quiet_machine

abbrev device_lease : ResourceLease
device_lease = record {
  resource_id = "device:D1";
  owner = "runner:1";
  path = "locks/device:D1";
  acquired_at = 1000;
  expires_at = 1900;
  released = false;
}

both_held-ok : both_held.0 ≡ ok (2 ∷ 1 ∷ [])
unfolding validate_all validate_identity is_blank is_space strip lstrip rstrip text_le insert_by
    sort_by without_repeats acquire_many acquire_sorted acquire_each acquire open_file poll
    take_lease try_lock write lease_on system_call validate_duration pure raise reads writes lift
    require reject_if handling ◌>>=◌
both_held-ok = refl

device_lease-held : both_held.1.leases 1 ≡ some device_lease
unfolding validate_all validate_identity is_blank is_space strip lstrip rstrip text_le insert_by
    sort_by without_repeats acquire_many acquire_sorted acquire_each acquire open_file poll
    take_lease try_lock write lease_on system_call validate_duration pure raise reads writes lift
    require reject_if handling ◌>>=◌
device_lease-held = refl

acquire_many-exclusive_example : ◌≡◌ {A = ℕ} 1 1
acquire_many-exclusive_example =
    acquire_many-exclusive 1 other_releases other_releases-Steady lock_path "runner:1"
      (microseconds 0) (microseconds 900) quiet_machine free_names free_names (2 ∷ 1 ∷ [])
      both_held.1 1 1 device_lease device_lease free_names-ok
      (record { held = held_elsewhere-IsSound.held; fresh = held_elsewhere-IsSound.fresh })
      (ap (λ (r : Result LockError (List ℕ)). (r, both_held.1)) both_held-ok) device_lease-held refl
      device_lease-held refl refl
