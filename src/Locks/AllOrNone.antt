-- ===== src/Locks/AllOrNone.antt =====
-- ResourceLockManager.acquire_many (lib/services/resource_lock.py) as a whole.
use mathlib.Core.Path.{subst}
use wifi_validation_framewor.Prelude.{
  ℕ, false, some, String, ◌≡◌, refl, ◌∙◌, List, [], ◌∷◌, arith, Result, ok, raised, pure, raise,
  lift, handling, handling-ok, handling-raised, ◌>>=◌, ◌>>◌, continue_with, strip, sorted_set,
}
use wifi_validation_framewor.Locks.{LockError, Duration, ResourceLease, Machine, Action}
use wifi_validation_framewor.Locks.Requests.{
  acquire, release_all, acquire_each, acquire_sorted, acquire_many, validate_all,
}
use wifi_validation_framewor.Locks.Exclusion.{
  exclusive, IsSound, IsOwned-later, Steady, Steady-refl,
}
use wifi_validation_framewor.Locks.Acquired.{
  Ran, returned, failed, ran, Raised, raised_at, then_raise, Gains, Settles,
}
use wifi_validation_framewor.Locks.Groups.{acquire-Settles}
use wifi_validation_framewor.Locks.Many.{
  HoldsAll, Beside, Beside-gained, Beside-Steady, HoldsAll-later, HoldsAll-AreLeased,
  release_all-Steady,
}

abbrev pub reverse_onto : List String → List String → List String
reverse_onto [] done = done
reverse_onto (id ∷ ids) done = reverse_onto ids (id ∷ done)

-- The locks of all of the resources are held, each by a lease of its own and newest first, and the
-- other leases of the process are as they were; or all are as they were.
abbrev pub SettlesAll : ℕ → Machine → List String → Result LockError (List ℕ) × Machine → Type 0
SettlesAll me s ids (raised e, t) = Steady me s t
SettlesAll me s ids (ok hs, t) = Beside me hs s t × HoldsAll me s t ids hs

pub HoldsAll-Steady :
    (me : ℕ) (s t u : Machine) (ids : List String) (hs : List ℕ)
    → Steady me t u
    → HoldsAll me s t ids hs
    → HoldsAll me s u ids hs
HoldsAll-Steady me s t u ids hs st =
    HoldsAll-later me s t u ids hs (λ g o. (IsOwned-later me t u g st o, st.old g o))

gained-HoldsAll :
    (me h : ℕ) (id : String) (s t u : Machine) (ids : List String) (hs : List ℕ)
    → Beside me hs s t
    → HoldsAll me s t ids hs
    → Gains me h (strip id) t u
    → HoldsAll me s u (id ∷ ids) (h ∷ hs)
gained-HoldsAll me h id s t u ids hs b k g =
    let a = g.aside in
    (
      record {
        since = let x = a.here in let y = b.grows in omega arith;
        owned = a.owned;
        lease = g.lease;
        stored = g.stored;
        active = g.active;
        resource = g.resource;
      },
      HoldsAll-later me s t u ids hs
          (λ i o. (
            record {
              given = let x = a.grows in let lt = o.given in omega arith;
              mine = a.openers i o.given ∙ o.mine;
            },
            a.old i o,
          ))
          k,
    )

module _ (me : ℕ) (others : ℕ → Machine → Machine)
    (calm : (n : ℕ) (t : Machine) → Steady me t (others n t)) (lock_path : String → String)
    (owner : String) (timeout lease_seconds : Duration) where
  abbrev undo : List ℕ → LockError → Action ℕ
  undo hs e = release_all me others lock_path hs >> raise e

  module _ (s : Machine) where
    abbrev get : String → Action ℕ
    get id = acquire me others lock_path id owner timeout lease_seconds

    undone :
        (names done : List String) (hs : List ℕ) (u : Machine) (e : LockError)
        → Beside me hs s u
        → HoldsAll me s u done hs
        → (rest : ℕ → Action (List ℕ)) → SettlesAll me s names (continue_with rest (undo hs e u))
    undone names done hs u e b k rest =
        ending (then_raise (release_all me others lock_path hs) e u) (
          release_all-Steady me others calm lock_path owner timeout lease_seconds hs s u
            (HoldsAll-AreLeased me s u done hs k) b)
      where
        ending :
            {q : Result LockError ℕ × Machine} {v : Machine}
            → Raised q v
            → Steady me s v
            → SettlesAll me s names (continue_with rest q)
        ending (raised_at x eq) st = rw eq st

    step-SettlesAll :
        (id : String) (names done : List String) (hs : List ℕ) (rest : ℕ → Action (List ℕ))
        → ((h : ℕ) (u : Machine)
            → Beside me (h ∷ hs) s u
            → HoldsAll me s u (id ∷ done) (h ∷ hs)
            → SettlesAll me s names (rest h u))
        → (t : Machine) → Beside me hs s t
        → HoldsAll me s t done hs
        → SettlesAll me s names ((handling (get id) (undo hs) >>= rest) t)
    unfolding ◌>>=◌
    step-SettlesAll id names done hs rest go t b k = by_end (ran (get id) t)
      where
        settled : Settles me (strip id) t (get id t)
        settled = acquire-Settles me others calm lock_path id owner timeout lease_seconds t b.sound

        by_end :
            Ran (get id) t
            → SettlesAll me s names (continue_with rest (handling (get id) (undo hs) t))
        by_end (returned h u e) =
            let g : Gains me h (strip id) t u = subst (Settles me (strip id) t) e settled in
            rw (handling-ok (get id) (undo hs) t u h e) (
              go h u (Beside-gained me h hs (strip id) s t u b g)
                (gained-HoldsAll me h id s t u done hs b k g))
        by_end (failed x u e) =
            let st : Steady me t u = subst (Settles me (strip id) t) e settled in
            rw (handling-raised (get id) (undo hs) t u x e) (
              undone names done hs u x (Beside-Steady me hs s t u b st)
                (HoldsAll-Steady me s t u done hs st k) rest)

    each-SettlesAll :
        (ids done : List String) (hs : List ℕ) (t : Machine)
        → Beside me hs s t
        → HoldsAll me s t done hs
        → SettlesAll me s
            (reverse_onto ids done)
            (acquire_each me others lock_path owner timeout lease_seconds ids hs t)
    unfolding acquire_each pure
    each-SettlesAll [] done hs t b k = (b, k)
    each-SettlesAll (id ∷ ids) done hs t b k =
        step-SettlesAll id (reverse_onto ids (id ∷ done)) done hs
          (λ h. acquire_each me others lock_path owner timeout lease_seconds ids (h ∷ hs))
          (λ h u. each-SettlesAll ids (id ∷ done) (h ∷ hs) u) t b k

    Beside-start : IsSound s → Beside me [] s s
    Beside-start k = record {
      sound = k;
      grows = omega arith;
      openers = λ g lt. refl;
      old = λ g o. refl;
      only = λ g o le out. let lt = o.given in absurd (omega arith);
    }

    sorted-SettlesAll :
        (ids : List String)
        → IsSound s
        → SettlesAll me s
            (reverse_onto ids [])
            (acquire_sorted me others lock_path owner timeout lease_seconds ids s)
    unfolding acquire_sorted raise
    sorted-SettlesAll [] k = Steady-refl me s
    sorted-SettlesAll (id ∷ ids) k = each-SettlesAll (id ∷ ids) [] [] s (Beside-start k) tt

    -- On a sound machine, and whatever the other processes do in the pauses and whichever calls of the
    -- system fail, the acquisition of several resources whose names are valid returns one new active
    -- lease for each of them, without repeats, and leaves the machine sound and the process's other
    -- leases as they were; or it raises, and the process has the active leases that it had.
    pub acquire_many-SettlesAll :
        (resource_ids names : List String)
        → validate_all resource_ids ≡ ok names
        → IsSound s
        → SettlesAll me s
            (reverse_onto (sorted_set names) [])
            (acquire_many me others lock_path resource_ids owner timeout lease_seconds s)
    unfolding acquire_many ◌>>=◌ lift
    acquire_many-SettlesAll resource_ids names e k = rw e (sorted-SettlesAll (sorted_set names) k)

    -- Where the acquisition of several resources with valid names returns on a sound machine, no lock has
    -- two active leases, of whatever processes: two that are on one path are one.
    pub acquire_many-exclusive :
        (resource_ids names : List String) (hs : List ℕ) (t : Machine) (g h : ℕ)
        (k l : ResourceLease)
        → validate_all resource_ids ≡ ok names
        → IsSound s
        → acquire_many me others lock_path resource_ids owner timeout lease_seconds s ≡ (ok hs, t)
        → t.leases g ≡ some k
        → k.released ≡ false
        → t.leases h ≡ some l
        → l.released ≡ false
        → k.path ≡ l.path
        → g ≡ h
    acquire_many-exclusive resource_ids names hs t g h k l valid sound got e a f b same =
        let settled =
          subst (SettlesAll me s (reverse_onto (sorted_set names) [])) got
            (acquire_many-SettlesAll resource_ids names valid sound) in
        exclusive t g h k l settled.0.sound e a f b same
