-- ===== src/Locks/Releases.antt =====
-- What a release does to the machine (lib/services/resource_lock.py).
use wifi_validation_framewor.Prelude.{
  ℕ, ◌≡◌, refl, sym, ◌∙◌, ap, inl, inr, Bool, true, false, none, some, arith, Bool-cases,
  Option-cases, ◌==◌, ==_iff, some-eq, ok, raised, pure, raise, reads, writes, require, finally,
  after-state, ◌>>=◌,
}
use wifi_validation_framewor.Locks.{
  os, ResourceLease, Machine, put_lease, lease_on, write, close, unlock, retired, retire,
  release_if, release,
}
use wifi_validation_framewor.Locks.Exclusion.{
  is_active, IsSound, Steady, SameCore, SameCore-IsSound, SameCore-Steady,
}
use wifi_validation_framewor.Locks.Steps.{
  Frees, Frees-IsSound, Frees-preorder, SameCore-preorder, close-Frees, finally-Respects,
  unlock-Frees, write-SameCore,
}

-- A lease that was let go: it is not active, and the other leases are as they were.
pub record Releases (h : ℕ) (s t : Machine) : Type 0 where
  pub sound : IsSound s → IsSound t
  pub next_handle : t.next_handle ≡ s.next_handle
  pub opened_by : t.opened_by ≡ s.opened_by
  pub others : (g : ℕ) → (g == h) ≡ false → t.leases g ≡ s.leases g
  pub idle : is_active (t.leases h) ≡ false
  pub lease : ResourceLease
  pub stored : t.leases h ≡ some lease

after_SameCore : (h : ℕ) (s t u : Machine) → SameCore s t → Releases h t u → Releases h s u
after_SameCore h s t u c r = record {
  sound = λ k. r.sound (SameCore-IsSound s t c k);
  next_handle = r.next_handle ∙ c.next_handle;
  opened_by = r.opened_by ∙ c.opened_by;
  others = λ g d. r.others g d ∙ ap (λ q. q g) c.leases;
  idle = r.idle;
  lease = r.lease;
  stored = r.stored;
}

retired-IsSound :
    (h : ℕ) (l : ResourceLease) (s : Machine)
    → s.leases h ≡ some l
    → IsSound s
    → IsSound (put_lease h (some (retired l)) s)
retired-IsSound h l s e k = record {
  held = λ g m f a. elim (Bool-cases (g == h)) [
    | inl same ↦
        let eq : m ≡ retired l = sym (some-eq (rw same at f)) in
        absurd (released_twice (ap (λ (x : ResourceLease). x.released) eq) a)
    | inr differs ↦ k.held g m (rw differs at f) a
  ];
  fresh = λ g le. elim (Bool-cases (g == h)) [
    | inl same ↦
        let eq : g ≡ h = (==_iff g h).0 same in
        let none' = k.fresh g le in cc (none', e, ap s.leases eq)
    | inr differs ↦ rw differs (k.fresh g le)
  ];
}
  where
    released_twice : {m : Bool} → m ≡ true → m ≡ false → ⊥
    released_twice p q = cc (p, q)

retire-Releases :
    (h : ℕ) (l : ResourceLease) (s : Machine) → s.leases h ≡ some l → Releases h s (retire h l s).1
unfolding retire ◌>>=◌ writes
retire-Releases h l s e =
    let t = put_lease h (some (retired l)) s in
    let f : Frees h t _ =
      (finally-Respects (Frees h) (Frees-preorder h) (unlock h) (close h) (unlock-Frees h)
          (close-Frees h)).at
        t in
    let idle : is_active (t.leases h) ≡ false = rw ((==_iff h h).1 refl) refl in
    record {
      sound = λ k. Frees-IsSound h t _ f idle (retired-IsSound h l s e k);
      next_handle = f.next_handle;
      opened_by = f.opened_by;
      others = λ g d. ap (λ q. q g) f.leases ∙ rw d;
      idle = ap (λ q. is_active (q h)) f.leases ∙ idle;
      lease = retired l;
      stored = ap (λ q. q h) f.leases ∙ rw ((==_iff h h).1 refl);
    }

lease_on_lem :
    (h : ℕ) (s : Machine) {l : ResourceLease} → s.leases h ≡ some l → lease_on h s ≡ (ok l, s)
unfolding lease_on ◌>>=◌ reads require pure
lease_on_lem h s e = rw (e, require)

-- Whatever fails, `release` lets the lease go.
pub release-Releases :
    (h : ℕ) (s : Machine) {l : ResourceLease} → s.leases h ≡ some l → Releases h s (release h s).1
unfolding release ◌>>=◌ release_if finally
release-Releases h s {l} e = rw (lease_on_lem h s e) (by_state l.released refl)
  where
    by_state : (b : Bool) → l.released ≡ b → Releases h s (release_if b h l s).1
    by_state true r = record {
      sound = λ k. k;
      next_handle = refl;
      opened_by = refl;
      others = λ g d. refl;
      idle = rw e (rw r);
      lease = l;
      stored = e;
    }
    by_state false r =
        let c : SameCore s (write h "RELEASED" s).1 = (write-SameCore h "RELEASED").at s in
        after-state (Releases h s) (write h "RELEASED" s).0 (retire h l (write h "RELEASED" s).1) (
          after_SameCore h s _ _ c
            (retire-Releases h l (write h "RELEASED" s).1 (ap (λ q. q h) c.leases ∙ e)))

-- What another process does to its own file is no concern of this one.
Releases-Steady :
    (me h : ℕ) (s t : Machine) → (s.opened_by h == me) ≡ false → Releases h s t → Steady me s t
Releases-Steady me h s t foreign r = record {
  sound = r.sound;
  grows = let e = r.next_handle in omega arith;
  openers = λ g lt. ap (λ q. q g) r.opened_by;
  old = λ g o. elim (Bool-cases (g == h)) [
    | inl same ↦
        let e : s.opened_by h ≡ me = ap s.opened_by (sym ((==_iff g h).0 same)) ∙ o.mine in
        cc (foreign, (==_iff (s.opened_by h) me).1 e)
    | inr differs ↦ r.others g differs
  ];
  none_new = λ k g o le. let e = r.next_handle in let lt = o.given in absurd (omega arith);
}

lease_on_missing :
    (h : ℕ) (s : Machine) → s.leases h ≡ none → lease_on h s ≡ (raised (os "no such lease"), s)
unfolding lease_on ◌>>=◌ reads require raise
lease_on_missing h s e = rw (e, require)

-- A release by another process leaves this one's leases as they are.
pub release-Steady :
    (me h : ℕ) (s : Machine) → (s.opened_by h == me) ≡ false → Steady me s (release h s).1
release-Steady me h s foreign = elim (Option-cases (s.leases h)) [
  | inl missing ↦
      unfold release ◌>>=◌ in
      rw (lease_on_missing h s missing) (SameCore-Steady me s s (SameCore-preorder.refl_at s))
  | inr (l, stored) ↦ Releases-Steady me h s (release h s).1 foreign (release-Releases h s stored)
]
