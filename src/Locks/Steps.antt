-- ===== src/Locks/Steps.antt =====
-- What each step of ResourceLease and of the acquisition loop does to the machine
-- (lib/services/resource_lock.py).
use wifi_validation_framewor.Prelude.{
  ℕ, String, ◌≡◌, refl, sym, ◌∙◌, ap, inl, inr, false, some, arith, Bool-cases, ◌==◌, ==_iff,
  writes, finally, after-state, IsPreorder, Respects, respects_rules,
}
use wifi_validation_framewor.Locks.{
  Machine, Action, system_call, free, changes, lease_on, write, close, unlock,
}
use wifi_validation_framewor.Locks.Exclusion.{is_active, IsSound, Steady, SameCore, SameCore-trans}

pub SameCore-preorder : IsPreorder SameCore
SameCore-preorder = record {
  refl_at = λ s. record { next_handle = refl; opened_by = refl; holder = refl; leases = refl };
  trans_at = λ s t u. SameCore-trans s t u;
}

pub system_call-SameCore : Respects SameCore system_call
unfolding system_call
system_call-SameCore = record {
  at = λ s. record { next_handle = refl; opened_by = refl; holder = refl; leases = refl };
}

changes-SameCore :
    (f : Machine → Machine) → ((s : Machine) → SameCore s (f s)) → Respects SameCore (changes f)
unfolding writes
changes-SameCore f h = record { at = h }

lease_on-SameCore : (h : ℕ) → Respects SameCore (lease_on h)
unfolding lease_on
lease_on-SameCore h = search (SameCore-preorder, respects_rules) depth 9

pub write-SameCore : (h : ℕ) (state : String) → Respects SameCore (write h state)
unfolding write
write-SameCore h state =
    search
      (SameCore-preorder, respects_rules, lease_on-SameCore, system_call-SameCore, changes-SameCore)
      depth 12

-- Locks of one open file may have been freed, and nothing else has changed in the core.
pub record Frees (handle : ℕ) (s t : Machine) : Type 0 where
  pub next_handle : t.next_handle ≡ s.next_handle
  pub opened_by : t.opened_by ≡ s.opened_by
  pub leases : t.leases ≡ s.leases
  pub holder :
      (path : String) (g : ℕ)
      → s.holder path ≡ some g
      → (g == handle) ≡ false
      → t.holder path ≡ some g

pub Frees-preorder : (h : ℕ) → IsPreorder (Frees h)
Frees-preorder h = record {
  refl_at =
      λ s. record { next_handle = refl; opened_by = refl; leases = refl; holder = λ path g e d. e };
  trans_at = λ s t u a b. record {
    next_handle = b.next_handle ∙ a.next_handle;
    opened_by = b.opened_by ∙ a.opened_by;
    leases = b.leases ∙ a.leases;
    holder = λ path g e d. b.holder path g (a.holder path g e d) d;
  };
}

SameCore-Frees : (h : ℕ) (s t : Machine) → SameCore s t → Frees h s t
SameCore-Frees h s t c = record {
  next_handle = c.next_handle;
  opened_by = c.opened_by;
  leases = c.leases;
  holder = λ path g e d. ap (λ f. f path) c.holder ∙ e;
}

system_call-Frees : (h : ℕ) → Respects (Frees h) system_call
system_call-Frees h = record { at = λ s. SameCore-Frees h s _ (system_call-SameCore.at s) }

free-Frees : (h : ℕ) → Respects (Frees h) (changes (free h))
unfolding writes free
free-Frees h = record {
  at = λ s. record {
    next_handle = refl;
    opened_by = refl;
    leases = refl;
    holder = λ path g e d. rw e (rw d);
  };
}

pub finally-Respects :
    {A : Type 0} (R : Machine → Machine → Type 0) (o : IsPreorder R) (m : Action A)
    (n : Action (Unit {0}))
    → Respects R m
    → Respects R n
    → Respects R (finally m n)
unfolding finally
finally-Respects R o m n a b = record {
  at = λ s.
      o.trans_at s (m s).1 _ (a.at s)
        (after-state (λ t. R (m s).1 t) (m s).0 (n (m s).1) (b.at (m s).1));
}

pub close-Frees : (h : ℕ) → Respects (Frees h) (close h)
unfolding close
close-Frees h = search (Frees-preorder h, respects_rules, system_call-Frees, free-Frees) depth 9

pub unlock-Frees : (h : ℕ) → Respects (Frees h) (unlock h)
unfolding unlock
unlock-Frees h = search (Frees-preorder h, respects_rules, system_call-Frees, free-Frees) depth 9

-- Freeing the locks of a file whose lease is not active keeps the machine sound.
pub Frees-IsSound :
    (h : ℕ) (s t : Machine) → Frees h s t → is_active (s.leases h) ≡ false → IsSound s → IsSound t
Frees-IsSound h s t f idle k = record {
  held = λ g l e a.
      let e' : s.leases g ≡ some l = sym (ap (λ q. q g) f.leases) ∙ e in
      f.holder l.path g (k.held g l e' a) (elim (Bool-cases (g == h)) [
        | inr differs ↦ differs
        | inl same ↦
            let eq : g ≡ h = (==_iff g h).0 same in
            let idle' : is_active (some l) ≡ false =
              sym (ap is_active (sym (ap s.leases eq) ∙ e')) ∙ idle in
            cc (a, idle')
      ]);
  fresh = λ g le. let e = f.next_handle in ap (λ q. q g) f.leases ∙ k.fresh g (omega arith);
}

Frees-Steady :
    (me h : ℕ) (s t : Machine) → Frees h s t → is_active (s.leases h) ≡ false → Steady me s t
Frees-Steady me h s t f idle = record {
  sound = Frees-IsSound h s t f idle;
  grows = let e = f.next_handle in omega arith;
  openers = λ g lt. ap (λ q. q g) f.opened_by;
  old = λ g o. ap (λ q. q g) f.leases;
  none_new = λ k g o le. let e = f.next_handle in let lt = o.given in absurd (omega arith);
}

pub close-Steady :
    (me h : ℕ) (s : Machine) → is_active (s.leases h) ≡ false → Steady me s (close h s).1
close-Steady me h s idle = Frees-Steady me h s _ ((close-Frees h).at s) idle
