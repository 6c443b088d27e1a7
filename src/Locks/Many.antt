-- ===== src/Locks/Many.antt =====
-- ResourceLockManager.acquire_many (lib/services/resource_lock.py): all of the locks, or none.
use native.Mathlib.Decide.{dec_lt}
use wifi_validation_framewor.Prelude.{
  ℕ, ◌≤◌, ◌<◌, String, ◌≡◌, refl, sym, ◌∙◌, ap, inl, inr, Bool, false, Option, none, some, List, [],
  ◌∷◌, arith, Bool-cases, ◌==◌, ==_iff, Result, ok, raised, pure, raise, handling, ◌>>=◌,
  continue_with, for_each, any, strip,
}
use wifi_validation_framewor.Locks.{LockError, Duration, ResourceLease, Machine, Action, release}
use wifi_validation_framewor.Locks.Requests.{
  release_all, caught, first_of_two, release_each, raise_first, release_group,
}
use wifi_validation_framewor.Locks.Exclusion.{is_active, IsSound, IsOwned, Steady}
use wifi_validation_framewor.Locks.Releases.{Releases, release-Releases}
use wifi_validation_framewor.Locks.Acquired.{Gains}

-- An active lease of the process on a resource, taken since `s`.
pub record Holds (me : ℕ) (s t : Machine) (resource_id : String) (h : ℕ) : Type 0 where
  pub since : s.next_handle ≤ h
  pub owned : IsOwned me t h
  pub lease : ResourceLease
  pub stored : t.leases h ≡ some lease
  pub active : lease.released ≡ false
  pub resource : lease.resource_id ≡ strip resource_id

-- One for each of the resources.
abbrev pub HoldsAll : ℕ → Machine → Machine → List String → List ℕ → Type 0
HoldsAll me s t [] [] = Unit
HoldsAll me s t (id ∷ ids) (h ∷ hs) = Holds me s t id h × HoldsAll me s t ids hs
HoldsAll me s t _ _ = ⊥

abbrev pub is_among : List ℕ → ℕ → Bool
is_among hs g = any (λ h. g == h) hs

-- The machine `t` differs from `s` for this process by the files of a group alone.
pub record Beside (me : ℕ) (hs : List ℕ) (s t : Machine) : Type 0 where
  pub sound : IsSound t
  pub grows : s.next_handle ≤ t.next_handle
  pub openers : (g : ℕ) → g < s.next_handle → t.opened_by g ≡ s.opened_by g
  pub old : (g : ℕ) → IsOwned me s g → t.leases g ≡ s.leases g
  pub only :
      (g : ℕ)
      → IsOwned me t g
      → s.next_handle ≤ g
      → is_among hs g ≡ false
      → is_active (t.leases g) ≡ false

Holds-later :
    (me : ℕ) (s t u : Machine) (id : String) (h : ℕ)
    → ((g : ℕ) → IsOwned me t g → IsOwned me u g × (u.leases g ≡ t.leases g))
    → Holds me s t id h
    → Holds me s u id h
Holds-later me s t u id h keep k = record {
  since = k.since;
  owned = (keep h k.owned).0;
  lease = k.lease;
  stored = (keep h k.owned).1 ∙ k.stored;
  active = k.active;
  resource = k.resource;
}

pub HoldsAll-later :
    (me : ℕ) (s t u : Machine) (ids : List String) (hs : List ℕ)
    → ((g : ℕ) → IsOwned me t g → IsOwned me u g × (u.leases g ≡ t.leases g))
    → HoldsAll me s t ids hs
    → HoldsAll me s u ids hs
HoldsAll-later me s t u [] [] keep k = tt
HoldsAll-later me s t u (id ∷ ids) (h ∷ hs) keep k =
    (Holds-later me s t u id h keep k.0, HoldsAll-later me s t u ids hs keep k.1)
HoldsAll-later me s t u [] (h ∷ hs) keep k = elim k [ ]
HoldsAll-later me s t u (id ∷ ids) [] keep k = elim k [ ]

pub Beside-gained :
    (me h : ℕ) (hs : List ℕ) (id : String) (s t u : Machine)
    → Beside me hs s t
    → Gains me h id t u
    → Beside me (h ∷ hs) s u
Beside-gained me h hs id s t u b g =
    let a = g.aside in
    record {
      sound = a.sound b.sound;
      grows = let x = a.grows in let y = b.grows in omega arith;
      openers = λ i lt. let y = b.grows in a.openers i (omega arith) ∙ b.openers i lt;
      old = λ i o.
          let in_t : IsOwned me t i = record {
            given = let y = b.grows in let lt = o.given in omega arith;
            mine = b.openers i o.given ∙ o.mine;
          } in
          a.old i in_t ∙ b.old i o;
      only = λ i o le out. elim (dec_lt i t.next_handle) [
        | yes lt ↦
            let in_t : IsOwned me t i = record {
              given = lt;
              mine = sym (a.openers i lt) ∙ o.mine;
            } in
            ap is_active (a.old i in_t) ∙ b.only i in_t le (ground arith)
        | no ge ↦ a.only b.sound i o (omega arith) (ground arith)
      ];
    }

pub Beside-Steady :
    (me : ℕ) (hs : List ℕ) (s t u : Machine) → Beside me hs s t → Steady me t u → Beside me hs s u
Beside-Steady me hs s t u b st = record {
  sound = st.sound b.sound;
  grows = let x = st.grows in let y = b.grows in omega arith;
  openers = λ i lt. let y = b.grows in st.openers i (omega arith) ∙ b.openers i lt;
  old = λ i o.
      let in_t : IsOwned me t i = record {
        given = let y = b.grows in let lt = o.given in omega arith;
        mine = b.openers i o.given ∙ o.mine;
      } in
      st.old i in_t ∙ b.old i o;
  only = λ i o le out. elim (dec_lt i t.next_handle) [
    | yes lt ↦
        let in_t : IsOwned me t i = record { given = lt; mine = sym (st.openers i lt) ∙ o.mine } in
        ap is_active (st.old i in_t) ∙ b.only i in_t le out
    | no ge ↦ st.none_new b.sound i o (omega arith)
  ];
}

Beside-none : (me : ℕ) (s t : Machine) → Beside me [] s t → Steady me s t
Beside-none me s t b = record {
  sound = λ _. b.sound;
  grows = b.grows;
  openers = b.openers;
  old = b.old;
  none_new = λ _ g o le. b.only g o le refl;
}

-- The files of a group have leases, and were opened since `s`.
abbrev pub AreLeased : Machine → Machine → List ℕ → Type 0
AreLeased s t [] = Unit
AreLeased s t (h ∷ hs) =
    (s.next_handle ≤ h) × ((l : ResourceLease) × (t.leases h ≡ some l)) × AreLeased s t hs

pub HoldsAll-AreLeased :
    (me : ℕ) (s t : Machine) (ids : List String) (hs : List ℕ)
    → HoldsAll me s t ids hs
    → AreLeased s t hs
HoldsAll-AreLeased me s t [] [] k = tt
HoldsAll-AreLeased me s t (id ∷ ids) (h ∷ hs) k =
    (k.0.since, (k.0.lease, k.0.stored), HoldsAll-AreLeased me s t ids hs k.1)
HoldsAll-AreLeased me s t [] (h ∷ hs) k = elim k [ ]
HoldsAll-AreLeased me s t (id ∷ ids) [] k = elim k [ ]

AreLeased-later :
    (s t u : Machine) (h : ℕ) (hs : List ℕ) → Releases h t u → AreLeased s t hs → AreLeased s u hs
AreLeased-later s t u h [] r k = tt
AreLeased-later s t u h (g ∷ hs) r k = (
  k.0,
  elim (Bool-cases (g == h)) [
    | inl same ↦ (r.lease, ap u.leases ((==_iff g h).0 same) ∙ r.stored)
    | inr differs ↦ (k.1.0, r.others g differs ∙ k.1.1)
  ],
  AreLeased-later s t u h hs r k.2,
)

Beside-released :
    (me h : ℕ) (hs : List ℕ) (s t u : Machine)
    → s.next_handle ≤ h
    → Releases h t u
    → Beside me (h ∷ hs) s t
    → Beside me hs s u
Beside-released me h hs s t u since r b =
    let e = r.next_handle in
    record {
      sound = r.sound b.sound;
      grows = let x = b.grows in omega arith;
      openers = λ g lt. ap (λ q. q g) r.opened_by ∙ b.openers g lt;
      old = λ g o. let lt = o.given in r.others g (ground arith) ∙ b.old g o;
      only = λ g o le out. elim (Bool-cases (g == h)) [
        | inl same ↦ ap (λ i. is_active (u.leases i)) ((==_iff g h).0 same) ∙ r.idle
        | inr differs ↦
            let in_t : IsOwned me t g = record {
              given = let lt = o.given in omega arith;
              mine = sym (ap (λ q. q g) r.opened_by) ∙ o.mine;
            } in
            ap is_active (r.others g differs) ∙ b.only g in_t le (ground arith)
      ];
    }

-- `try: m except: pass`.
swallow : (m : Action (Unit {0})) (s : Machine) → handling m (λ _. pure tt) s ≡ (ok tt, (m s).1)
unfolding handling pure
swallow m s = by_cases (m s)
  where
    by_cases :
        (q : Result LockError (Unit {0}) × Machine)
        → handling (λ _. q) (λ _ t. (ok tt, t)) s ≡ (ok tt, q.1)
    by_cases (ok a, t) = refl
    by_cases (raised e, t) = refl

caught_lem :
    (m : Action (Unit {0})) (s : Machine) → (e : Option LockError) × (caught m s ≡ (ok e, (m s).1))
unfolding caught handling ◌>>=◌ pure
caught_lem m s = by_cases (m s)
  where
    by_cases :
        (q : Result LockError (Unit {0}) × Machine)
        → (e : Option LockError) × (handling
              (λ _. continue_with (λ _ t. (ok none, t)) q)
              (λ x t. (ok (some x), t))
              s
            ≡ (ok e, q.1))
    by_cases (ok a, t) = (none, refl)
    by_cases (raised x, t) = (some x, refl)

release_each-Steady :
    (me : ℕ) (hs : List ℕ) (first : Option LockError) (s t : Machine)
    → AreLeased s t hs
    → Beside me hs s t
    → (e : Option LockError) × (u : Machine) × (release_each hs first t ≡ (ok e, u)) × Steady me s u
unfolding release_each pure ◌>>=◌
release_each-Steady me [] first s t k b = (first, t, refl, Beside-none me s t b)
release_each-Steady me (h ∷ hs) first s t k b =
    let r = release-Releases h t k.1.1 in
    let (e, eq) = caught_lem (release h) t in
    let (x, u, rest, st) =
      release_each-Steady me hs (first_of_two first e) s (release h t).1
        (AreLeased-later s t (release h t).1 h hs r k.2)
        (Beside-released me h hs s t (release h t).1 k.0 r b) in
    (x, u, rw eq rest, st)

-- Whichever releases fail, releasing a group lets all of its leases go.
pub release_group-Steady :
    (me : ℕ) (hs : List ℕ) (s t : Machine)
    → AreLeased s t hs
    → Beside me hs s t
    → Steady me s (release_group false hs t).1
unfolding release_group ◌>>=◌ raise_first pure raise
release_group-Steady me hs s t k b =
    let (e, u, eq, st) = release_each-Steady me hs none s t k b in rw eq (ending e u st)
  where
    ending : (e : Option LockError) (u : Machine) → Steady me s u → Steady me s (raise_first e u).1
    ending none u st = st
    ending (some x) u st = st

module _ (me : ℕ) (others : ℕ → Machine → Machine)
    (calm : (n : ℕ) (t : Machine) → Steady me t (others n t)) (lock_path : String → String)
    (owner : String) (timeout lease_seconds : Duration) where
  pub release_all-Steady :
      (hs : List ℕ) (s t : Machine)
      → AreLeased s t hs
      → Beside me hs s t
      → Steady me s (release_all me others lock_path hs t).1
  unfolding release_all for_each pure
  release_all-Steady [] s t k b = Beside-none me s t b
  release_all-Steady (h ∷ hs) s t k b =
      let r = release-Releases h t k.1.1 in
      unfold ◌>>=◌ in
      rw (swallow (release h) t) (
        release_all-Steady hs s (release h t).1 (AreLeased-later s t (release h t).1 h hs r k.2)
          (Beside-released me h hs s t (release h t).1 k.0 r b))
