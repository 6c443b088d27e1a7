-- ===== src/Locks/Groups.antt =====
-- ResourceLockManager.acquire and acquire_many as wholes (lib/services/resource_lock.py).
use mathlib.Core.Path.{subst}
use wifi_validation_framewor.Prelude.{
  ℕ, ◌+◌, ◌/◌, String, ◌≡◌, refl, sym, ap, inl, inr, true, false, arith, Bool-cases, ◌==◌, ==_iff,
  if◌then◌else◌, Result, ok, raised, ok-eq, raise, reads, writes, lift, handling-ok,
  handling-raised, ◌>>=◌, continue_with, strip, is_blank,
}
use wifi_validation_framewor.Locks.{
  LockError, resource_lock, Duration, Machine, Action, system_call, validate_identity,
  validate_duration,
}
use wifi_validation_framewor.Locks.Requests.{open_file, poll, acquire, pause}
use wifi_validation_framewor.Locks.Exclusion.{
  IsSound, Steady, Steady-refl, SameCore, SameCore-IsSound, SameCore-Steady,
}
use wifi_validation_framewor.Locks.Steps.{system_call-SameCore}
use wifi_validation_framewor.Locks.Acquired.{Ran, returned, failed, ran, Settles, Pending}
use wifi_validation_framewor.Locks.Loop.{poll-Settles}

validate_identity-ok : (x : String) {y : String} → validate_identity x ≡ ok y → y ≡ strip x
unfolding validate_identity
validate_identity-ok x h = elim (Bool-cases (is_blank x)) [
  | inl e ↦ cc (rw e at h)
  | inr e ↦ sym (ok-eq (rw e at h))
]

module _ (me : ℕ) (others : ℕ → Machine → Machine)
    (calm : (n : ℕ) (t : Machine) → Steady me t (others n t)) where
  lift-Settles :
      {A : Type 0} (id : String) (s : Machine) (r : Result LockError A) (f : A → Action ℕ)
      → ((a : A) → r ≡ ok a → Settles me id s (f a s))
      → Settles me id s ((lift r >>= f) s)
  unfolding ◌>>=◌ lift
  lift-Settles id s (raised e) f h = Steady-refl me s
  lift-Settles id s (ok a) f h = h a refl

  abbrev Opened : Machine → Result LockError ℕ × Machine → Type 0
  Opened s (ok h, u) = Pending me h s u
  Opened s (raised e, u) = Steady me s u

  given_out :
      (s u : Machine)
      → IsSound s
      → SameCore s u
      → Opened s (
        ok u.next_handle,
        record u {
          next_handle = u.next_handle + 1;
          opened_by = λ h. if h == u.next_handle then me else u.opened_by h;
        },
      )
  given_out s u k c =
      let e = c.next_handle in
      record {
        steady = record {
          sound = λ _. record {
            held = (SameCore-IsSound s u c k).held;
            fresh = λ g le. (SameCore-IsSound s u c k).fresh g (omega arith);
          };
          grows = omega arith;
          openers = λ g lt.
              let d : (g == u.next_handle) ≡ false = ground arith in
              rw d (ap (λ q. q g) c.opened_by);
          old = λ g o. ap (λ q. q g) c.leases;
          none_new = λ _ g o le. rw ((SameCore-IsSound s u c k).fresh g (omega arith));
        };
        owned = record {
          given = omega arith;
          mine = rw ((==_iff u.next_handle u.next_handle).1 refl);
        };
        here = omega arith;
        bare = (SameCore-IsSound s u c k).fresh u.next_handle (omega arith);
      }

  abbrev on_open_error : LockError → Action (Unit {0})
  on_open_error _ = raise (resource_lock "cannot safely open resource lock")

  open_file-Opened : (s : Machine) → IsSound s → Opened s (open_file me others s)
  unfolding open_file ◌>>=◌ writes raise
  open_file-Opened s k = by_end (ran system_call s)
    where
      by_end : Ran system_call s → Opened s (open_file me others s)
      by_end (returned a u e) =
          rw (handling-ok system_call on_open_error s u a e)
            (given_out s u k (subst (λ q. SameCore s q.1) e (system_call-SameCore.at s)))
      by_end (failed x u e) =
          rw (handling-raised system_call on_open_error s u x e)
            (SameCore-Steady me s u (subst (λ q. SameCore s q.1) e (system_call-SameCore.at s)))

  module _ (lock_path : String → String) where
    abbrev polling : String → String → ℕ → ℕ → ℕ → Action ℕ
    polling id owner wait lifetime h = do
      now ← reads λ (t : Machine). t.now
      poll me others id owner (lock_path id) lifetime h (now + wait) (wait / pause + 2) 0

    Opened-Settles :
        (target id owner : String) (wait lifetime : ℕ) (s : Machine)
        → id ≡ target
        → (q : Result LockError ℕ × Machine) → Opened s q
        → Settles me target s (continue_with (polling id owner wait lifetime) q)
    unfolding ◌>>=◌ reads
    Opened-Settles target id owner wait lifetime s e (raised x, u) st = st
    Opened-Settles target id owner wait lifetime s e (ok h, u) p =
        subst (λ i. Settles me i s (polling id owner wait lifetime h u)) e
          (poll-Settles me others calm id owner (lock_path id) lifetime h (u.now + wait) s
            (wait / pause + 2) 0 u p)

    opening-Settles :
        (target id owner : String) (wait lifetime : ℕ) (s : Machine)
        → IsSound s
        → id ≡ target
        → Settles me target s ((open_file me others >>= polling id owner wait lifetime) s)
    unfolding ◌>>=◌
    opening-Settles target id owner wait lifetime s k e =
        Opened-Settles target id owner wait lifetime s e (open_file me others s)
          (open_file-Opened s k)

    -- An acquisition returns a new active lease on the resource, or raises and holds nothing new.
    pub acquire-Settles :
        (id owner : String) (timeout lease_seconds : Duration) (s : Machine)
        → IsSound s
        → Settles me (strip id) s (acquire me others lock_path id owner timeout lease_seconds s)
    unfolding acquire
    acquire-Settles id owner timeout lease_seconds s k =
        lift-Settles (strip id) s (validate_identity id) _ λ i e1.
          lift-Settles (strip id) s (validate_identity owner) _ λ o e2.
            lift-Settles (strip id) s (validate_duration true timeout) _ λ wait e3.
              lift-Settles (strip id) s (validate_duration false lease_seconds) _ λ lifetime e4.
                opening-Settles (strip id) i o wait lifetime s k (validate_identity-ok id e1)
