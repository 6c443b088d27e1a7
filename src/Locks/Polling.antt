-- ===== src/Locks/Polling.antt =====
-- The loop of ResourceLockManager.acquire (lib/services/resource_lock.py).
use mathlib.Core.Path.{subst}
use wifi_validation_framewor.Prelude.{
  ℕ, String, ◌≡◌, refl, ◌∙◌, ap, some, ==_iff, Result, ok, pure, raise, reads, writes, handling,
  handling-ok, handling-raised, ◌>>=◌, ◌>>◌, Respects, respects_rules, continue_with,
}
use wifi_validation_framewor.Domain.Entities.{Time}
use wifi_validation_framewor.Locks.{
  LockError, Machine, Action, system_call, put_lease, write, release,
}
use wifi_validation_framewor.Locks.Requests.{new_lease, take_lease}
use wifi_validation_framewor.Locks.Exclusion.{Steady, SameCore, SameCore-IsSound}
use wifi_validation_framewor.Locks.Steps.{SameCore-preorder, system_call-SameCore, write-SameCore}
use wifi_validation_framewor.Locks.Releases.{release-Releases}
use wifi_validation_framewor.Locks.Acquired.{
  Ran, returned, failed, ran, Raised, raised_at, then_raise, Gains, Settles, Aside-Steady, Pending,
  Rest, Rest-Aside, put_lease-IsSound,
}

module _ (me : ℕ) (others : ℕ → Machine → Machine) (id owner path : String) (lifetime h : ℕ)
    (end : Time) (s : Machine) where
  abbrev written : Action (Unit {0})
  written = write h "HELD" >> system_call

  written-SameCore : Respects SameCore written
  written-SameCore =
      search (SameCore-preorder, respects_rules, write-SameCore, system_call-SameCore) depth 6

  abbrev with_lease : Machine → Machine
  with_lease t = put_lease h (some (new_lease me others id owner path lifetime h end t.now)) t

  with_lease-Rest :
      (t u : Machine)
      → Pending me h s t
      → t.holder path ≡ some h
      → SameCore (with_lease t) u
      → Rest h t u
  with_lease-Rest t u p holds c = record {
    sound =
        λ k. SameCore-IsSound (with_lease t) u c (put_lease-IsSound h _ t holds p.owned.given k);
    next_handle = c.next_handle;
    opened_by = c.opened_by;
    others = λ g d. ap (λ q. q g) c.leases ∙ rw d;
  }

  lease_stored :
      (t u : Machine)
      → SameCore (with_lease t) u
      → u.leases h ≡ some (new_lease me others id owner path lifetime h end t.now)
  lease_stored t u c = ap (λ q. q h) c.leases ∙ rw ((==_iff h h).1 refl)

  with_lease-Gains :
      (t u : Machine)
      → Pending me h s t
      → t.holder path ≡ some h
      → SameCore (with_lease t) u
      → Gains me h id s u
  with_lease-Gains t u p holds c = record {
    aside = Rest-Aside me h s t u p (with_lease-Rest t u p holds c);
    lease = new_lease me others id owner path lifetime h end t.now;
    stored = lease_stored t u c;
    active = refl;
    resource = refl;
  }

  released-Steady :
      (t u : Machine)
      → Pending me h s t
      → t.holder path ≡ some h
      → SameCore (with_lease t) u
      → Steady me s (release h u).1
  released-Steady t u p holds c =
      let r = release-Releases h u (lease_stored t u c) in
      let before = with_lease-Rest t u p holds c in
      let rest : Rest h t (release h u).1 = record {
        sound = λ k. r.sound (before.sound k);
        next_handle = r.next_handle ∙ before.next_handle;
        opened_by = r.opened_by ∙ before.opened_by;
        others = λ g d. r.others g d ∙ before.others g d;
      } in
      Aside-Steady me h s (release h u).1 (Rest-Aside me h s t (release h u).1 p rest) r.idle

  abbrev on_failure : LockError → Action (Unit {0})
  on_failure e = release h >> raise e

  -- Once the lock is held the acquisition returns the lease, or lets it go and raises.
  pub take_lease-Settles :
      (t : Machine)
      → Pending me h s t
      → t.holder path ≡ some h
      → Settles me id s (take_lease me others id owner path lifetime h end t)
  unfolding take_lease reads writes ◌>>=◌ pure
  take_lease-Settles t p holds = by_end (ran written (with_lease t))
    where
      by_end :
          Ran written (with_lease t)
          → Settles me id s
              (continue_with (λ _ u. (ok h, u)) (handling written on_failure (with_lease t)))
      by_end (returned a u e) =
          let c : SameCore (with_lease t) u =
            subst (λ q. SameCore (with_lease t) q.1) e (written-SameCore.at (with_lease t)) in
          rw (handling-ok written on_failure (with_lease t) u a e) (with_lease-Gains t u p holds c)
      by_end (failed x u e) =
          let c : SameCore (with_lease t) u =
            subst (λ q. SameCore (with_lease t) q.1) e (written-SameCore.at (with_lease t)) in
          rw (handling-raised written on_failure (with_lease t) u x e)
            (ending (then_raise (release h) x u) (released-Steady t u p holds c))
        where
          ending :
              {q : Result LockError (Unit {0}) × Machine} {v : Machine}
              → Raised q v
              → Steady me s v
              → Settles me id s (continue_with (λ _ w. (ok h, w)) q)
          ending (raised_at y eq) st = rw eq st
