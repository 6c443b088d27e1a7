-- ===== src/Locks/Grants.antt =====
-- What a try of `flock` does to the machine (lib/services/resource_lock.py).
use wifi_validation_framewor.Prelude.{
  ℕ, String, ◌≡◌, refl, ◌∙◌, ap, inl, inr, Bool, true, Option, none, some, arith, Bool-cases,
  ==_iff, ◌is◌, eq_iff, eq_refl,
}
use wifi_validation_framewor.Locks.{Machine, free, grant}
use wifi_validation_framewor.Locks.Exclusion.{IsSound, IsOwned, Steady, SameCore-Steady}
use wifi_validation_framewor.Locks.Steps.{SameCore-preorder}

-- What a poll of a free lock, or of a held one, leaves: nothing of the process's leases has changed,
-- and a lock that it took is held by the file.
pub record Polled (me h : ℕ) (path : String) (b : Bool) (s t : Machine) : Type 0 where
  pub steady : Steady me s t
  pub leases : t.leases ≡ s.leases
  pub owners : IsOwned me s h → IsOwned me t h
  pub holds : b ≡ true → t.holder path ≡ some h

grant-IsSound :
    (h : ℕ) (path : String) (s : Machine)
    → s.holder path ≡ none
    → IsSound s
    → IsSound (grant h path none s).1
grant-IsSound h path s free k = record {
  held = λ g l e a. elim (Bool-cases (l.path is path)) [
    | inl same ↦
        let eq : l.path ≡ path = (eq_iff l.path path).0 same in
        let taken = k.held g l e a in cc (taken, free, ap s.holder eq)
    | inr differs ↦ rw differs (k.held g l e a)
  ];
  fresh = λ g le. k.fresh g le;
}

pub grant-Polled :
    (me h : ℕ) (path : String) (o : Option ℕ) (s : Machine)
    → s.holder path ≡ o
    → Polled me h path (grant h path o s).0 s (grant h path o s).1
grant-Polled me h path none s e = record {
  steady = record {
    sound = grant-IsSound h path s e;
    grows = omega arith;
    openers = λ g lt. refl;
    old = λ g o. refl;
    none_new = λ k g o le. let lt = o.given in absurd (omega arith);
  };
  leases = refl;
  owners = λ o. record { given = o.given; mine = o.mine };
  holds = λ _. rw (eq_refl path);
}
grant-Polled me h path (some g) s e = record {
  steady = SameCore-Steady me s s (SameCore-preorder.refl_at s);
  leases = refl;
  owners = λ o. o;
  holds = λ same. e ∙ ap some ((==_iff g h).0 same);
}
