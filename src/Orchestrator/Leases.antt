-- ===== src/Orchestrator/Leases.antt =====
-- The leases of a session: taken by `prepare`, and let go whatever happens
-- (lib/services/run_orchestrator.py).
use mathlib.Core.Path.{subst}
use wifi_validation_framewor.Prelude.{
  ℕ, String, ◌≡◌, refl, sym, ◌∙◌, ap, Bool, true, false, Option, none, some, List, Result, ok,
  raised, pure, raise, handling, ◌>>=◌, ◌>>◌, continue_with, Gives, Gives-pure, Gives-then,
  IsPreorder, Respects, respects_rules, Respects-handling, Respects-bind, Respects-pure,
}
use wifi_validation_framewor.Domain.Entities.{Run, Attempt}
use wifi_validation_framewor.Runs.Store.{RunService, id_generator}
use wifi_validation_framewor.Runs.Store
use wifi_validation_framewor.Runs.Creation.{RunRequest, create_run}
use wifi_validation_framewor.Locks.{LockError, Machine}
use wifi_validation_framewor.Locks.Requests.{release_group}
use wifi_validation_framewor.Configuration.{ResolvedConfiguration}
use wifi_validation_framewor.Orchestrator.{
  Orchestration, Error, lock_error, Action, relabel, on_service, on_machine, ignoring,
  RunExecutionSession, Answers, end_if_open, end_prepared, undo, prepare_run, redacted_request,
  prepare_leased,
}

-- The machine is as it was.
pub record SameMachine (s t : Orchestration) : Type 0 where
  pub same : t.machine ≡ s.machine

pub SameMachine-preorder : IsPreorder SameMachine
SameMachine-preorder = record {
  refl_at = λ s. record { same = refl };
  trans_at = λ s t u a b. record { same = b.same ∙ a.same };
}

pub on_service-SameMachine : {A : Type 0} (m : Store.Action A) → Respects SameMachine (on_service m)
unfolding on_service
on_service-SameMachine m = record { at = λ s. record { same = refl } }

ignoring-SameMachine :
    {A : Type 0} (m : Action A) → Respects SameMachine m → Respects SameMachine (ignoring m)
unfolding ignoring
ignoring-SameMachine m h =
    Respects-handling SameMachine-preorder _ _
      (Respects-bind SameMachine-preorder m _ h (λ _. Respects-pure SameMachine-preorder tt))
      (λ _. Respects-pure SameMachine-preorder tt)

prepare_run-SameMachine :
    (answers : Answers) (configuration : ResolvedConfiguration) (created : Run × Attempt)
    (lease : List ℕ)
    → Respects SameMachine (prepare_run answers configuration created lease)
unfolding prepare_run
prepare_run-SameMachine answers configuration created lease =
    search (SameMachine-preorder, respects_rules, on_service-SameMachine) depth 16

pub end_if_open-SameMachine :
    (k : String) (ending : Store.Action Run) → Respects SameMachine (end_if_open k ending)
unfolding end_if_open
end_if_open-SameMachine k ending = search (ignoring-SameMachine, on_service-SameMachine) depth 6

end_prepared-SameMachine : (run : Option Run) → Respects SameMachine (end_prepared run)
unfolding end_prepared pure
end_prepared-SameMachine none = record { at = λ s. record { same = refl } }
end_prepared-SameMachine (some run) = end_if_open-SameMachine _ _

ignoring-ok : {A : Type 0} (m : Action A) (s : Orchestration) → (ignoring m s).0 ≡ ok tt
unfolding ignoring handling ◌>>=◌ pure
ignoring-ok {A} m s = by_cases (m s)
  where
    by_cases :
        (q : Result Error A × Orchestration)
        → (handling (λ _. continue_with (λ _ t. (ok tt, t)) q) (λ _ t. (ok tt, t)) s).0 ≡ ok tt
    by_cases (ok a, t) = refl
    by_cases (raised e, t) = refl

end_prepared-ok : (run : Option Run) (s : Orchestration) → (end_prepared run s).0 ≡ ok tt
unfolding end_prepared pure end_if_open
end_prepared-ok none s = refl
end_prepared-ok (some run) s = ignoring-ok _ s

abbrev is_raised : {A : Type 0} → Result Error A → Bool
is_raised (ok a) = false
is_raised (raised e) = true

-- What a step under the leases leaves: the machine as it was, or with the leases let go.
abbrev Keeps : {A : Type 0} → List ℕ → Orchestration → Result Error A × Orchestration → Type 0
Keeps lease s (ok a, u) = u.machine ≡ s.machine
Keeps lease s (raised e, u) = u.machine ≡ (release_group false lease s.machine).1

bind-raises :
    {A B : Type 0} (m : Action B) (f : B → Action A)
    → ((b : B) (t : Orchestration) → is_raised (f b t).0 ≡ true)
    → (s : Orchestration) → is_raised ((m >>= f) s).0 ≡ true
unfolding ◌>>=◌
bind-raises {A} {B} m f h s = by_cases (m s)
  where
    by_cases : (q : Result Error B × Orchestration) → is_raised (continue_with f q).0 ≡ true
    by_cases (ok b, t) = h b t
    by_cases (raised e, t) = refl

module _ (A : Type 0) (lease : List ℕ) (s : Orchestration) where
  let_go :
      (e : Error) (u : Orchestration) (q : Result LockError (Unit {0}) × Machine)
      → (release_group false lease u.machine) ≡ q
      → u.machine ≡ s.machine
      → Keeps {A = A} lease s
          (continue_with (λ _. raise e) (relabel lock_error q.0, record u { machine = q.1 }))
  unfolding raise
  let_go e u (ok a, t) eq same =
      sym (ap (λ p. p.1) eq) ∙ ap (λ m. (release_group false lease m).1) same
  let_go e u (raised x, t) eq same =
      sym (ap (λ p. p.1) eq) ∙ ap (λ m. (release_group false lease m).1) same

  ended :
      (e : Error) (q : Result Error (Unit {0}) × Orchestration)
      → q.0 ≡ ok tt
      → q.1.machine ≡ s.machine
      → Keeps {A = A} lease s
          (continue_with (λ _. on_machine (release_group false lease) >> raise e) q)
  unfolding ◌>>=◌ on_machine
  ended e (ok a, u) fine same = let_go e u (release_group false lease u.machine) refl same
  ended e (raised x, u) fine same = cc fine

  undo-Keeps : (run : Option Run) (e : Error) → Keeps {A = A} lease s (undo lease run e s)
  unfolding undo ◌>>=◌
  undo-Keeps run e =
      ended e (end_prepared run s) (end_prepared-ok run s)
        ((end_prepared-SameMachine run).at s).same

  undo-raises : (run : Option Run) (e : Error) → is_raised (undo {A = A} lease run e s).0 ≡ true
  unfolding undo raise
  undo-raises run e =
      bind-raises (end_prepared run) _
        (λ _ t. bind-raises (on_machine (release_group false lease)) _ (λ _ u. refl) t) s

-- Whatever a step under the leases does, it keeps the machine, or its handler lets the leases go.
handled-Keeps :
    {A : Type 0} (lease : List ℕ) (run : Option Run) (m : Action A) (s : Orchestration)
    → Respects SameMachine m
    → Keeps lease s (handling m (undo lease run) s)
unfolding handling
handled-Keeps {A} lease run m s h = by_cases (m s) (h.at s)
  where
    by_cases :
        (q : Result Error A × Orchestration)
        → SameMachine s q.1
        → Keeps lease s (handling (λ _. q) (undo lease run) s)
    by_cases (ok a, u) same = same.same
    by_cases (raised e, u) same =
        subst (λ (m : Machine). Keeps {A = A} lease (record s { machine = m }) (undo lease run e u))
          same.same (undo-Keeps A lease u run e)

-- The session has the leases and the configuration.
abbrev pub IsOf : List ℕ → ResolvedConfiguration → RunExecutionSession → Type 0
IsOf lease configuration session = (session.lease ≡ lease) × (session.configuration ≡ configuration)

prepare_run-IsOf :
    (answers : Answers) (configuration : ResolvedConfiguration) (created : Run × Attempt)
    (lease : List ℕ)
    → Gives (IsOf lease configuration) (prepare_run answers configuration created lease)
unfolding prepare_run
prepare_run-IsOf answers configuration created lease = Gives-then _ _ _ λ run. Gives-then _ _ _ λ _.
    Gives-then _ _ _ λ _. Gives-then _ _ _ λ _. Gives-then _ _ _ λ _. Gives-pure _ _ (refl, refl)

-- What `prepare` leaves once it has the leases.
abbrev pub Leases :
    List ℕ
    → ResolvedConfiguration
    → Orchestration
    → Result Error RunExecutionSession × Orchestration
    → Type 0
Leases lease c s (ok session, u) = IsOf lease c session × (u.machine ≡ s.machine)
Leases lease c s (raised e, u) = u.machine ≡ (release_group false lease s.machine).1

handled-Leases :
    (lease : List ℕ) (c : ResolvedConfiguration) (run : Option Run) (m : Action RunExecutionSession)
    (s : Orchestration)
    → Respects SameMachine m
    → Gives (IsOf lease c) m
    → Leases lease c s (handling m (undo lease run) s)
unfolding handling
handled-Leases lease c run m s h g = by_cases (m s) refl (h.at s)
  where
    by_cases :
        (q : Result Error RunExecutionSession × Orchestration)
        → m s ≡ q
        → SameMachine s q.1
        → Leases lease c s (handling (λ _. q) (undo lease run) s)
    by_cases (ok a, u) e same = (g.at s a (ap (λ p. p.0) e), same.same)
    by_cases (raised e, u) eq same =
        undone (undo lease run e u) (undo-raises RunExecutionSession lease u run e) (
          subst
            (λ (m : Machine).
              Keeps {A = RunExecutionSession} lease (record s { machine = m }) (undo lease run e u))
            same.same (undo-Keeps RunExecutionSession lease u run e))
      where
        undone :
            (q : Result Error RunExecutionSession × Orchestration)
            → is_raised q.0 ≡ true
            → Keeps lease s q
            → Leases lease c s q
        undone (ok a, u) r k = cc r
        undone (raised x, u) r k = k

pub prepare_leased-Leases :
    (answers : Answers) (configuration : ResolvedConfiguration) (q : RunRequest) (lease : List ℕ)
    (s : Orchestration)
    → Leases lease configuration s (prepare_leased answers configuration q lease s)
unfolding prepare_leased ◌>>=◌
prepare_leased-Leases answers configuration q lease s =
    created (handling create (undo lease none) s)
      (handled-Keeps lease none create s (on_service-SameMachine _))
  where
    create : Action (Run × Attempt)
    create = on_service (create_run (redacted_request q configuration.values))

    rest : Run × Attempt → Action RunExecutionSession
    rest c = handling (prepare_run answers configuration c lease) (undo lease (some c.0))

    created :
        (p : Result Error (Run × Attempt) × Orchestration)
        → Keeps lease s p
        → Leases lease configuration s (continue_with rest p)
    created (raised e, u) k = k
    created (ok c, u) k =
        moved u (rest c u)
          (handled-Leases lease configuration (some c.0) (prepare_run answers configuration c lease)
            u (prepare_run-SameMachine answers configuration c lease)
            (prepare_run-IsOf answers configuration c lease))
          k
      where
        moved :
            (u : Orchestration) (p : Result Error RunExecutionSession × Orchestration)
            → Leases lease configuration u p
            → u.machine ≡ s.machine
            → Leases lease configuration s p
        moved u (ok session, v) l same = (l.0, l.1 ∙ same)
        moved u (raised e, v) l same = l ∙ ap (λ m. (release_group false lease m).1) same
