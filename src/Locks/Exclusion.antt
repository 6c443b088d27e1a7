-- ===== src/Locks/Exclusion.antt =====
-- One lease at a time: what every machine state keeps, and what a process may rely on while others run
-- (lib/services/resource_lock.py).
use native.Mathlib.Decide.{dec_lt}
use wifi_validation_framewor.Prelude.{
  ℕ, ◌≤◌, ◌<◌, ◌≡◌, refl, sym, ◌∙◌, ap, Bool, false, not, Option, none, some, arith, some-eq,
}
use wifi_validation_framewor.Locks.{ResourceLease, Machine}

-- A lease that is not released.
abbrev pub is_active : Option ResourceLease → Bool
is_active none = false
is_active (some lease) = not lease.released

-- An active lease holds the lock of its path, and a handle that is not given out has no lease.
pub record IsSound (s : Machine) : Type 0 where
  pub held :
      (h : ℕ) (l : ResourceLease)
      → s.leases h ≡ some l
      → l.released ≡ false
      → s.holder l.path ≡ some h
  pub fresh : (h : ℕ) → s.next_handle ≤ h → s.leases h ≡ none

-- Two active leases on one path are one lease.
pub exclusive :
    (s : Machine) (g h : ℕ) (k l : ResourceLease)
    → IsSound s
    → s.leases g ≡ some k
    → k.released ≡ false
    → s.leases h ≡ some l
    → l.released ≡ false
    → k.path ≡ l.path
    → g ≡ h
exclusive s g h k l sound e a f b same =
    some-eq (sym (sound.held g k e a) ∙ ap s.holder same ∙ sound.held h l f b)

-- The open files of a process.
pub record IsOwned (me : ℕ) (s : Machine) (h : ℕ) : Type 0 where
  pub given : h < s.next_handle
  pub mine : s.opened_by h ≡ me

-- What leaves a process's own leases as they are, gives it no active one, and keeps the machine sound.
pub record Steady (me : ℕ) (s t : Machine) : Type 0 where
  pub sound : IsSound s → IsSound t
  pub grows : s.next_handle ≤ t.next_handle
  pub openers : (h : ℕ) → h < s.next_handle → t.opened_by h ≡ s.opened_by h
  pub old : (h : ℕ) → IsOwned me s h → t.leases h ≡ s.leases h
  pub none_new :
      IsSound s → (h : ℕ) → IsOwned me t h → s.next_handle ≤ h → is_active (t.leases h) ≡ false

pub IsOwned-later :
    (me : ℕ) (s t : Machine) (h : ℕ) → Steady me s t → IsOwned me s h → IsOwned me t h
IsOwned-later me s t h st o = record {
  given = let a = st.grows in let b = o.given in omega arith;
  mine = st.openers h o.given ∙ o.mine;
}

pub Steady-refl : (me : ℕ) (s : Machine) → Steady me s s
Steady-refl me s = record {
  sound = λ k. k;
  grows = omega arith;
  openers = λ h lt. refl;
  old = λ h o. refl;
  none_new = λ k h o le. let lt = o.given in absurd (omega arith);
}

pub Steady-trans : (me : ℕ) (s t u : Machine) → Steady me s t → Steady me t u → Steady me s u
Steady-trans me s t u a b = record {
  sound = λ k. b.sound (a.sound k);
  grows = let x = a.grows in let y = b.grows in omega arith;
  openers = λ h lt. let x = a.grows in b.openers h (omega arith) ∙ a.openers h lt;
  old = λ h o. b.old h (IsOwned-later me s t h a o) ∙ a.old h o;
  none_new = λ k h o le. elim (dec_lt h t.next_handle) [
    | yes lt ↦
        let in_t : IsOwned me t h = record { given = lt; mine = sym (b.openers h lt) ∙ o.mine } in
        rw (b.old h in_t) (a.none_new k h in_t le)
    | no ge ↦ b.none_new (a.sound k) h o (omega arith)
  ];
}

-- What leaves files, locks and leases alone: the clock, the texts of the files and the failures to
-- come may have changed.
pub record SameCore (s t : Machine) : Type 0 where
  pub next_handle : t.next_handle ≡ s.next_handle
  pub opened_by : t.opened_by ≡ s.opened_by
  pub holder : t.holder ≡ s.holder
  pub leases : t.leases ≡ s.leases

pub SameCore-trans : (s t u : Machine) → SameCore s t → SameCore t u → SameCore s u
SameCore-trans s t u a b = record {
  next_handle = b.next_handle ∙ a.next_handle;
  opened_by = b.opened_by ∙ a.opened_by;
  holder = b.holder ∙ a.holder;
  leases = b.leases ∙ a.leases;
}

pub SameCore-IsSound : (s t : Machine) → SameCore s t → IsSound s → IsSound t
SameCore-IsSound s t c k = record {
  held = λ h l e a. ap (λ f. f l.path) c.holder ∙ k.held h l (sym (ap (λ f. f h) c.leases) ∙ e) a;
  fresh = λ h le. let e = c.next_handle in ap (λ f. f h) c.leases ∙ k.fresh h (omega arith);
}

pub SameCore-Steady : (me : ℕ) (s t : Machine) → SameCore s t → Steady me s t
SameCore-Steady me s t c = record {
  sound = SameCore-IsSound s t c;
  grows = let e = c.next_handle in omega arith;
  openers = λ h lt. ap (λ f. f h) c.opened_by;
  old = λ h o. ap (λ f. f h) c.leases;
  none_new = λ k h o le. let e = c.next_handle in let lt = o.given in absurd (omega arith);
}
