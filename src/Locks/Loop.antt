-- ===== src/Locks/Loop.antt =====
-- ResourceLockManager.acquire (lib/services/resource_lock.py) with the others running in its pauses.
use mathlib.Core.Path.{subst}
use wifi_validation_framewor.Prelude.{
  ℕ, zero, suc, ◌+◌, ◌-◌, min, String, refl, ◌∙◌, ap, Bool, true, false, leb, Result, ok, raised,
  raise, reads, writes, handling, handling-ok, handling-raised, ◌>>=◌, ◌>>◌, continue_with,
}
use wifi_validation_framewor.Domain.Entities.{Time}
use wifi_validation_framewor.Locks.{
  LockError, resource_lock, Machine, Action, system_call, close, grant, try_lock,
}
use wifi_validation_framewor.Locks.Requests.{sleep, give_up, poll_again, poll_locked, poll, pause}
use wifi_validation_framewor.Locks.Exclusion.{
  is_active, IsOwned-later, Steady, Steady-trans, SameCore, SameCore-Steady,
}
use wifi_validation_framewor.Locks.Steps.{system_call-SameCore, close-Steady}
use wifi_validation_framewor.Locks.Grants.{Polled, grant-Polled}
use wifi_validation_framewor.Locks.Acquired.{
  Ran, returned, failed, ran, Raised, raised_at, then_raise, Settles, Pending,
}
use wifi_validation_framewor.Locks.Polling.{take_lease-Settles}

Pending-later : (me h : ℕ) (s t u : Machine) → Pending me h s t → Steady me t u → Pending me h s u
Pending-later me h s t u p st = record {
  steady = Steady-trans me s t u p.steady st;
  owned = IsOwned-later me t u h st p.owned;
  here = p.here;
  bare = st.old h p.owned ∙ p.bare;
}

-- What a try of the lock leaves.
abbrev Tried : ℕ → ℕ → String → Machine → Result LockError Bool × Machine → Type 0
Tried me h path t (ok b, u) = Polled me h path b t u
Tried me h path t (raised e, u) = SameCore t u

SameCore-Polled :
    (me h : ℕ) (path : String) (b : Bool) (s t u : Machine)
    → SameCore s t
    → Polled me h path b t u
    → Polled me h path b s u
SameCore-Polled me h path b s t u c p = record {
  steady = Steady-trans me s t u (SameCore-Steady me s t c) p.steady;
  leases = p.leases ∙ c.leases;
  owners = λ o. p.owners (IsOwned-later me s t h (SameCore-Steady me s t c) o);
  holds = p.holds;
}

tried : (me h : ℕ) (path : String) (t : Machine) → Tried me h path t (try_lock h path t)
unfolding try_lock ◌>>=◌ writes
tried me h path t = by_call (system_call t) (system_call-SameCore.at t)
  where
    by_call :
        (q : Result LockError (Unit {0}) × Machine)
        → SameCore t q.1
        → Tried me h path t (
            continue_with
              (λ _ s. (ok (grant h path (s.holder path) s).0, (grant h path (s.holder path) s).1))
              q)
    by_call (raised e, u) c = c
    by_call (ok a, u) c =
        SameCore-Polled me h path _ t u _ c (grant-Polled me h path (u.holder path) u refl)

module _ (me : ℕ) (others : ℕ → Machine → Machine)
    (calm : (n : ℕ) (t : Machine) → Steady me t (others n t)) where
  sleep-Steady :
      (round : ℕ) (end : Time) (t : Machine) → Steady me t (sleep me others round end t).1
  unfolding sleep writes
  sleep-Steady round end t =
      let t' : Machine = record t { now = t.now + min pause (end - t.now) } in
      Steady-trans me t t' (others round t')
        (SameCore-Steady me t t'
          (record { next_handle = refl; opened_by = refl; holder = refl; leases = refl }))
        (calm round t')

  module _ (id owner path : String) (lifetime h : ℕ) (end : Time) (s : Machine) where
    Raised-Settles :
        {q : Result LockError ℕ × Machine} {t : Machine}
        → Raised q t
        → Steady me s t
        → Settles me id s q
    Raised-Settles (raised_at e eq) st = rw eq st

    closed-Steady : (t : Machine) → Pending me h s t → Steady me s (close h t).1
    closed-Steady t p =
        Steady-trans me s t (close h t).1 p.steady (close-Steady me h t (ap is_active p.bare))

    give_up-Settles :
        (t : Machine)
        → Pending me h s t
        → Settles me id s (give_up me others id owner path lifetime h end t)
    unfolding give_up
    give_up-Settles t p =
        Raised-Settles (then_raise (close h) (resource_lock "resource is already locked") t)
          (closed-Steady t p)

    module _ (again : Action ℕ) (round : ℕ)
        (settles : (t : Machine) → Pending me h s t → Settles me id s (again t)) where
      abbrev next_poll : Bool → Action ℕ
      next_poll = poll_locked me others id owner path lifetime h end again round

      waited-Settles :
          (b : Bool) (t : Machine)
          → Pending me h s t
          → Settles me id s (poll_again me others id owner path lifetime h end again round b t)
      unfolding ◌>>=◌
      waited-Settles true t p = give_up-Settles t p
      waited-Settles false t p = woken (sleep me others round end t) (sleep-Steady round end t)
        where
          woken :
              (q : Result LockError (Unit {0}) × Machine)
              → Steady me t q.1
              → Settles me id s (continue_with (λ _. again) q)
          woken (ok a, u) st = settles u (Pending-later me h s t u p st)
          woken (raised e, u) st = Steady-trans me s t u p.steady st

      locked-Settles :
          (b : Bool) (t u : Machine)
          → Pending me h s t
          → Polled me h path b t u
          → Settles me id s (next_poll b u)
      unfolding ◌>>=◌ reads
      locked-Settles true t u p q =
          take_lease-Settles me others id owner path lifetime h end s u
            (Pending-later me h s t u p q.steady) (q.holds refl)
      locked-Settles false t u p q =
          waited-Settles (leb end u.now) u (Pending-later me h s t u p q.steady)

      abbrev on_error : LockError → Action Bool
      on_error e = close h >> raise e

      round-Settles :
          (t : Machine)
          → Pending me h s t
          → Settles me id s ((handling (try_lock h path) on_error >>= next_poll) t)
      unfolding ◌>>=◌
      round-Settles t p = by_end (ran (try_lock h path) t)
        where
          raised_so :
              {q : Result LockError Bool × Machine} {v : Machine}
              → Raised q v
              → Steady me s v
              → Settles me id s (continue_with next_poll q)
          raised_so (raised_at e eq) st = rw eq st

          by_end :
              Ran (try_lock h path) t
              → Settles me id s (continue_with next_poll (handling (try_lock h path) on_error t))
          by_end (returned b u e) =
              rw (handling-ok (try_lock h path) on_error t u b e)
                (locked-Settles b t u p (subst (Tried me h path t) e (tried me h path t)))
          by_end (failed x u e) =
              let c : SameCore t u = subst (Tried me h path t) e (tried me h path t) in
              rw (handling-raised (try_lock h path) on_error t u x e) (
                raised_so (then_raise (close h) x u)
                  (closed-Steady u (Pending-later me h s t u p (SameCore-Steady me t u c))))

    -- However long it polls, and whatever the others do, an acquisition returns a new active lease or
    -- raises with none.
    pub poll-Settles :
        (fuel round : ℕ) (t : Machine)
        → Pending me h s t
        → Settles me id s (poll me others id owner path lifetime h end fuel round t)
    unfolding poll raise
    poll-Settles zero round t p = p.steady
    poll-Settles (suc fuel) round t p =
        round-Settles (poll me others id owner path lifetime h end fuel (round + 1)) round
          (λ u q. poll-Settles fuel (round + 1) u q) t p
