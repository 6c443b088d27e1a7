-- ===== src/Locks/Acquired.antt =====
-- What an acquisition leaves, whether it returns or raises and whatever the other processes do while it
-- waits: ResourceLockManager.acquire of lib/services/resource_lock.py.
use wifi_validation_framewor.Prelude.{
  ℕ, ◌≤◌, ◌<◌, String, ◌≡◌, refl, sym, ◌∙◌, ap, inl, inr, false, none, some, arith, Bool-cases,
  ◌==◌, ==_iff, some-eq, Result, ok, raised, raise, ◌>>=◌, ◌>>◌, continue_with,
}
use wifi_validation_framewor.Locks.{LockError, ResourceLease, Machine, Action, put_lease}
use wifi_validation_framewor.Locks.Exclusion.{is_active, IsSound, IsOwned, Steady}

-- How a method ended.
pub data Ran {A : Type 0} (m : Action A) (s : Machine) : Type 0 where
  returned : (a : A) (t : Machine) → m s ≡ (ok a, t) → Ran m s
  failed : (e : LockError) (t : Machine) → m s ≡ (raised e, t) → Ran m s

pub ran : {A : Type 0} (m : Action A) (s : Machine) → Ran m s
ran {A} m s = split (m s) refl
  where
    split : (q : Result LockError A × Machine) → m s ≡ q → Ran m s
    split (ok a, t) e = returned a t e
    split (raised x, t) e = failed x t e

-- A method followed by `raise` raises, and leaves the state of the method.
pub data Raised {A : Type 0} (q : Result LockError A × Machine) (t : Machine) : Type 0 where
  raised_at : (e : LockError) → q ≡ (raised e, t) → Raised q t

pub then_raise :
    {A : Type 0} (m : Action (Unit {0})) (e : LockError) (s : Machine)
    → Raised {A = A} ((m >> raise e) s) (m s).1
unfolding ◌>>=◌ raise
then_raise {A} m e s = by_cases (m s)
  where
    by_cases :
        (q : Result LockError (Unit {0}) × Machine)
        → Raised {A = A} (continue_with (λ _. raise e) q) q.1
    by_cases (ok a, t) = raised_at e refl
    by_cases (raised x, t) = raised_at x refl

-- The machine `u` differs from `s` for this process by the file `h` alone.
pub record Aside (me h : ℕ) (s u : Machine) : Type 0 where
  pub sound : IsSound s → IsSound u
  pub grows : s.next_handle ≤ u.next_handle
  pub openers : (g : ℕ) → g < s.next_handle → u.opened_by g ≡ s.opened_by g
  pub old : (g : ℕ) → IsOwned me s g → u.leases g ≡ s.leases g
  pub only :
      IsSound s
      → (g : ℕ) → IsOwned me u g
      → s.next_handle ≤ g
      → (g == h) ≡ false
      → is_active (u.leases g) ≡ false
  pub here : s.next_handle ≤ h
  pub owned : IsOwned me u h

-- The process has a new active lease, on a resource, and no other.
pub record Gains (me h : ℕ) (resource_id : String) (s u : Machine) : Type 0 where
  pub aside : Aside me h s u
  pub lease : ResourceLease
  pub stored : u.leases h ≡ some lease
  pub active : lease.released ≡ false
  pub resource : lease.resource_id ≡ resource_id

abbrev pub Settles : ℕ → String → Machine → Result LockError ℕ × Machine → Type 0
Settles me resource_id s (raised e, u) = Steady me s u
Settles me resource_id s (ok h, u) = Gains me h resource_id s u

pub Aside-Steady :
    (me h : ℕ) (s u : Machine) → Aside me h s u → is_active (u.leases h) ≡ false → Steady me s u
Aside-Steady me h s u a idle = record {
  sound = a.sound;
  grows = a.grows;
  openers = a.openers;
  old = a.old;
  none_new = λ k g o le. elim (Bool-cases (g == h)) [
    | inl same ↦ ap (λ i. is_active (u.leases i)) ((==_iff g h).0 same) ∙ idle
    | inr differs ↦ a.only k g o le differs
  ];
}

-- The file that an acquisition opened, before it has a lease.
pub record Pending (me h : ℕ) (s t : Machine) : Type 0 where
  pub steady : Steady me s t
  pub owned : IsOwned me t h
  pub here : s.next_handle ≤ h
  pub bare : t.leases h ≡ none

-- Nothing but the lease of `h` has changed.
pub record Rest (h : ℕ) (t u : Machine) : Type 0 where
  pub sound : IsSound t → IsSound u
  pub next_handle : u.next_handle ≡ t.next_handle
  pub opened_by : u.opened_by ≡ t.opened_by
  pub others : (g : ℕ) → (g == h) ≡ false → u.leases g ≡ t.leases g

pub Rest-Aside : (me h : ℕ) (s t u : Machine) → Pending me h s t → Rest h t u → Aside me h s u
Rest-Aside me h s t u p r =
    let nu = r.next_handle in
    let le = p.here in
    record {
      sound = λ k. r.sound (p.steady.sound k);
      grows = let gt = p.steady.grows in omega arith;
      openers = λ g lt. ap (λ q. q g) r.opened_by ∙ p.steady.openers g lt;
      old = λ g o. let lt = o.given in r.others g (ground arith) ∙ p.steady.old g o;
      only = λ k g o ge d.
          let in_t : IsOwned me t g = record {
            given = let lt = o.given in omega arith;
            mine = sym (ap (λ q. q g) r.opened_by) ∙ o.mine;
          } in
          ap is_active (r.others g d) ∙ p.steady.none_new k g in_t ge;
      here = p.here;
      owned = record {
        given = let lt = p.owned.given in omega arith;
        mine = ap (λ q. q h) r.opened_by ∙ p.owned.mine;
      };
    }

pub put_lease-IsSound :
    (h : ℕ) (l : ResourceLease) (t : Machine)
    → t.holder l.path ≡ some h
    → h < t.next_handle
    → IsSound t
    → IsSound (put_lease h (some l) t)
put_lease-IsSound h l t holds lt k = record {
  held = λ g m e a. elim (Bool-cases (g == h)) [
    | inl same ↦
        let eq : l ≡ m = some-eq (rw same at e) in
        rw (← eq) (holds ∙ ap some (sym ((==_iff g h).0 same)))
    | inr differs ↦ k.held g m (rw differs at e) a
  ];
  fresh = λ g le. let differs : (g == h) ≡ false = ground arith in rw differs (k.fresh g le);
}
