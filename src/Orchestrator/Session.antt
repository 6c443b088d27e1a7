-- ===== src/Orchestrator/Session.antt =====
-- A whole session: `prepare`, the tests, `finalize` (lib/services/run_orchestrator.py).
use mathlib.Core.Path.{subst}
use wifi_validation_framewor.Prelude.{
  true, [], ok-eq, map, strip, distinct, contains, contains-sorted_set, distinct-sorted_set,
  sorted_set, ap, ◌∙◌, ℕ, String, ◌≡◌, refl, sym, false, Option, List, Result, ok, raised, lift,
  handling, finally, after-state, ◌>>=◌, continue_with, Respects, respects_rules, Respects-handling,
}
use wifi_validation_framewor.Domain.Entities.{Run}
use wifi_validation_framewor.Runs.Store.{RunService, id_generator}
use wifi_validation_framewor.Runs.Store
use wifi_validation_framewor.Domain.Validation
use wifi_validation_framewor.Locks.{LockError, Machine, Duration, microseconds}
use wifi_validation_framewor.Locks.Requests.{acquire_many, release_group, validate_all}
use wifi_validation_framewor.Locks.Exclusion.{IsSound, Steady, Steady-refl}
use wifi_validation_framewor.Locks.Many.{
  HoldsAll, Beside, Beside-Steady, HoldsAll-AreLeased, release_group-Steady,
}
use wifi_validation_framewor.Locks.AllOrNone.{
  reverse_onto, SettlesAll, acquire_many-SettlesAll, HoldsAll-Steady,
}
use wifi_validation_framewor.Configuration.{ResolvedConfiguration, resolve}
use wifi_validation_framewor.Orchestrator.{
  Orchestration, Error, lock_error, run_error, Action, relabel, on_service, on_machine,
  RunExecutionSession, PrepareRequest, layers_of, Answers, resources, prepare_leased, owner_of,
  end_session, crashed, finalize, prepare, as_text, launcher_checked,
}
use wifi_validation_framewor.Orchestrator.Resources.{
  is_needed, resources-is_needed, contains-reversed, distinct-reversed, validate_all-strip,
}
use wifi_validation_framewor.Orchestrator.Leases.{
  SameMachine, SameMachine-preorder, on_service-SameMachine, end_if_open-SameMachine, Leases,
  prepare_leased-Leases,
}

-- The process holds a group of leases, one for each of the named resources.
pub record HasGroup (me : ℕ) (hs : List ℕ) (s t : Machine) : Type 0 where
  pub beside : Beside me hs s t
  pub names : List String
  pub holds : HoldsAll me s t names hs

-- A session holds its leases: one for each of the laboratory, the device and the namespace that the
-- request and the configuration of its layers name, and no other.
pub record HoldsResources (me : ℕ) (q : PrepareRequest) (hs : List ℕ) (c : ResolvedConfiguration)
    (s t : Machine) : Type 0 where
  pub resolved : resolve q.digest (layers_of q) ≡ ok c
  pub group : HasGroup me hs s t
  pub once : distinct group.names ≡ true
  pub each : (name : String) → contains group.names name ≡ is_needed q c.values name

-- Either a session holds its leases, or the process holds nothing new.
abbrev pub Prepared :
    ℕ → PrepareRequest → Machine → Result Error RunExecutionSession × Orchestration → Type 0
Prepared me q s (ok session, u) =
    HoldsResources me q session.lease session.configuration s u.machine
Prepared me q s (raised e, u) = Steady me s u.machine

HasGroup-released :
    (me : ℕ) (hs : List ℕ) (s t : Machine)
    → HasGroup me hs s t
    → Steady me s (release_group false hs t).1
HasGroup-released me hs s t g =
    release_group-Steady me hs s t (HoldsAll-AreLeased me s t g.names hs g.holds) g.beside

HasGroup-later :
    (me : ℕ) (hs : List ℕ) (s t u : Machine)
    → HasGroup me hs s t
    → Steady me t u
    → HasGroup me hs s u
HasGroup-later me hs s t u g st = record {
  beside = Beside-Steady me hs s t u g.beside st;
  names = g.names;
  holds = HoldsAll-Steady me s t u g.names hs st g.holds;
}

crashed-SameMachine :
    (session : RunExecutionSession) (e : Error) → Respects SameMachine (crashed session e)
unfolding crashed
crashed-SameMachine session e =
    search (SameMachine-preorder, respects_rules, end_if_open-SameMachine) depth 6

finalize-machine :
    (session : RunExecutionSession) (exitstatus : ℕ)
    (finalizer : Option (String → Store.Action Run)) (s : Orchestration)
    → (finalize session exitstatus finalizer s).1.machine
      ≡ (release_group false session.lease s.machine).1
unfolding finalize finally on_machine
finalize-machine session exitstatus finalizer s =
    let m = handling (on_service (end_session session exitstatus finalizer)) (crashed session) in
    let quiet : Respects SameMachine m =
      Respects-handling SameMachine-preorder (on_service (end_session session exitstatus finalizer))
        (crashed session) (on_service-SameMachine _) (crashed-SameMachine session) in
    let u = (m s).1 in
    after-state (λ (v : Orchestration). v.machine ≡ (release_group false session.lease s.machine).1)
      (m s).0 (on_machine (release_group false session.lease) u)
      (unfold on_machine in ap (λ q. (release_group false session.lease q).1) ((quiet.at s).same))

as_text-ok : {A : Type 0} (r : Result String A) (a : A) → as_text r ≡ ok a → r ≡ ok a
as_text-ok (ok x) a h = ap ok (ok-eq h)
as_text-ok (raised e) a h = cc h

module _ (me : ℕ) (others : ℕ → Machine → Machine)
    (calm : (n : ℕ) (t : Machine) → Steady me t (others n t)) (lock_path : String → String) where
  -- A group for each of the named resources, without repeats.
  abbrev Grouped : List String → Machine → Result LockError (List ℕ) × Machine → Type 0
  Grouped ids s (ok hs, t) =
      (g : HasGroup me hs s t) × (distinct g.names ≡ true)
      × ((name : String) → contains g.names name ≡ contains (map strip ids) name)
  Grouped ids s (raised e, t) = Steady me s t

  acquire_many-Grouped :
      (ids : List String) (owner : String) (timeout lease_seconds : Duration) (s : Machine)
      → IsSound s
      → Grouped ids s (acquire_many me others lock_path ids owner timeout lease_seconds s)
  acquire_many-Grouped ids owner timeout lease_seconds s k = by_names (validate_all ids) refl
    where
      settled :
          (names : List String) (p : Result LockError (List ℕ) × Machine)
          → names ≡ map strip ids
          → SettlesAll me s (reverse_onto (sorted_set names) []) p
          → Grouped ids s p
      settled names (ok hs, t) e b = (
        record { beside = b.0; names = reverse_onto (sorted_set names) []; holds = b.1 },
        distinct-reversed (sorted_set names) (distinct-sorted_set names),
        λ name.
            contains-reversed (sorted_set names) name
            ∙ contains-sorted_set names name
            ∙ ap (λ l. contains l name) e,
      )
      settled names (raised e, t) _ st = st

      by_names :
          (r : Result LockError (List String))
          → validate_all ids ≡ r
          → Grouped ids s (acquire_many me others lock_path ids owner timeout lease_seconds s)
      by_names (ok names) e = settled names _ (validate_all-strip ids names e) (
          acquire_many-SettlesAll me others calm lock_path owner timeout lease_seconds s ids names e
            k)
      by_names (raised x) e = unfold acquire_many ◌>>=◌ lift in rw e (Steady-refl me s)

  module _ (s : Orchestration) (k : IsSound s.machine) (q : PrepareRequest) where
    leased :
        (c : ResolvedConfiguration) (p : Result LockError (List ℕ) × Machine) (service : RunService)
        (rest : List ℕ → Action RunExecutionSession)
        → resolve q.digest (layers_of q) ≡ ok c
        → ((hs : List ℕ) (u : Orchestration) → Leases hs c u (rest hs u))
        → Grouped (resources q c.values) s.machine p
        → Prepared me q s.machine (
            continue_with rest
              (relabel lock_error p.0, record { service = service; machine = p.1 }))
    leased c (raised e, t) service rest r h g = g
    leased c (ok hs, t) service rest r h (g, once, each) =
        finished (rest hs (record { service = service; machine = t })) (h hs _)
      where
        held : HoldsResources me q hs c s.machine t
        held = record {
          resolved = r;
          group = g;
          once = once;
          each = λ name. each name ∙ resources-is_needed q c.values name;
        }

        finished :
            (p : Result Error RunExecutionSession × Orchestration)
            → Leases hs c (record { service = service; machine = t }) p
            → Prepared me q s.machine p
        finished (ok session, u) l =
            subst (λ m. HoldsResources me q session.lease session.configuration s.machine m)
              (sym l.1)
              (subst (λ x. HoldsResources me q session.lease x s.machine t) (sym l.0.1)
                (subst (λ x. HoldsResources me q x c s.machine t) (sym l.0.0) held))
        finished (raised e, u) l =
            subst (λ m. Steady me s.machine m) (sym l) (HasGroup-released me hs s.machine t g)

    lifted :
        {A : Type 0} (r : Result Error A) (f : A → Action RunExecutionSession)
        → ((a : A) → r ≡ ok a → Prepared me q s.machine (f a s))
        → Prepared me q s.machine ((lift r >>= f) s)
    unfolding ◌>>=◌ lift
    lifted (ok a) f h = h a refl
    lifted (raised e) f h = Steady-refl me s.machine

    served :
        {A : Type 0} (m : Store.Action A) (f : A → Action RunExecutionSession)
        → ((a : A) (v : RunService) → Prepared me q s.machine (f a (record s { service = v })))
        → Prepared me q s.machine ((on_service m >>= f) s)
    unfolding ◌>>=◌ on_service
    served {A} m f h = by_cases (m s.service)
      where
        by_cases :
            (p : Result Validation.Error A × RunService)
            → Prepared me q s.machine
                (continue_with f (relabel run_error p.0, record s { service = p.1 }))
        by_cases (ok a, v) = h a v
        by_cases (raised e, v) = Steady-refl me s.machine

    -- On a sound machine, whatever the others do, whichever calls of the system fail, whatever the
    -- configuration layers are and whatever the launcher check, the fingerprint and the Run service
    -- answer: `prepare` returns a session with the configuration that the layers resolve to and with
    -- active, new leases, one for each of the laboratory, the device and the namespace that the request
    -- or that configuration names, and no other; or it raises and the process has exactly the active
    -- leases that it had.
    pub prepare-Prepared :
        (answers : Answers) → Prepared me q s.machine (prepare me others lock_path q answers s)
    unfolding prepare
    prepare-Prepared answers = lifted (as_text (resolve q.digest (layers_of q))) _ λ c r.
        lifted (launcher_checked answers.launcher) _
          λ _ _. served id_generator _ λ id v. acquiring c (as_text-ok _ c r) id v
      where
        acquiring :
            (c : ResolvedConfiguration)
            → resolve q.digest (layers_of q) ≡ ok c
            → (id : String) (v : RunService)
            → Prepared me q s.machine (
                (on_machine (
                      acquire_many me others lock_path
                        (resources q c.values)
                        (owner_of q id)
                        (microseconds 0)
                        (microseconds 900000000))
                    >>= prepare_leased answers c q.request)
                  (record s { service = v }))
        acquiring c r id v =
            unfold ◌>>=◌ on_machine in
            leased c _ v (prepare_leased answers c q.request) r
              (λ hs u. prepare_leased-Leases answers c q.request hs u)
              (acquire_many-Grouped (resources q c.values) (owner_of q id) (microseconds 0)
                (microseconds 900000000) s.machine k)

    -- On a sound machine, whatever the others do and whichever calls of the system fail: where `prepare`
    -- returned a session and the tests then left the leases of the process as they were, `finalize`
    -- leaves the process with exactly the active leases that it had before `prepare`, whatever the Run
    -- service or the finalizer does and whether `finalize` returns or raises.
    pub prepare-finalize :
        (answers : Answers) (session : RunExecutionSession) (u w : Orchestration) (exitstatus : ℕ)
        (finalizer : Option (String → Store.Action Run))
        → prepare me others lock_path q answers s ≡ (ok session, u)
        → Steady me u.machine w.machine
        → Steady me s.machine (finalize session exitstatus finalizer w).1.machine
    prepare-finalize answers session u w exitstatus finalizer e st =
        subst (λ m. Steady me s.machine m) (sym (finalize-machine session exitstatus finalizer w))
          (HasGroup-released me session.lease s.machine w.machine (
            HasGroup-later me session.lease s.machine u.machine w.machine
              (subst (Prepared me q s.machine) e (prepare-Prepared answers)).group st))
