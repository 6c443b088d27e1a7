-- ===== src/Orchestrator.antt =====
-- RunOrchestrator of lib/services/run_orchestrator.py: the Run service and the locks together. The
-- outcomes of the laboratory's launcher check and of the environment's fingerprint are arguments: what
-- each returned, or that it raised. The environment and configuration
-- snapshots that are put on the Run are left out, as they are of the Run itself.
pub mod Leases
pub mod Resources
pub mod Session
use Prim.Native.String.{◌++◌ as text_append}
use wifi_validation_framewor.Prelude.{
  ℕ, zero, suc, String, Bool, true, false, not, ◌&&◌, Option, none, some, List, [], ◌∷◌, ◌++◌, ◌==◌,
  ◌is◌, if◌then◌else◌, Result, ok, raised, Method, pure, raise, reads, lift, handling, finally,
  ◌>>=◌, ◌>>◌,
}
use wifi_validation_framewor.Domain.Json.{
  Json, null, bool, int, float, str, arr, obj, ℤ, pos, negsuc, Items, no_items, Fields, no_fields,
}
use wifi_validation_framewor.Domain.Entities.{Run, Attempt}
use wifi_validation_framewor.Domain.Status.{preparing}
use wifi_validation_framewor.Domain.Validation
use wifi_validation_framewor.Runs.Store.{RunService, id_generator}
use wifi_validation_framewor.Runs.Store
use wifi_validation_framewor.Runs.Repositories.{get_run, update_run}
use wifi_validation_framewor.Runs.Lifecycle.{is_terminal, transition}
use wifi_validation_framewor.Runs.Redaction.{redact_configuration}
use wifi_validation_framewor.Runs.Creation.{RunRequest, create_run}
use wifi_validation_framewor.Runs.Endings.{
  complete_run, abort_run, fail_run, lab_fail_run, worker_crashed,
}
use wifi_validation_framewor.Configuration.{ResolvedConfiguration, resolve}
use wifi_validation_framewor.Locks
use wifi_validation_framewor.Locks.{LockError, Machine, microseconds}
use wifi_validation_framewor.Locks.Requests.{acquire_many, release_group}

pub record Orchestration : Type 0 where
  pub service : RunService
  pub machine : Machine

pub data Error : Type 0 where
  run_error : Validation.Error → Error
  lock_error : LockError → Error
  other : String → Error

abbrev pub Action : Type 0 → Type 0
Action = Method Orchestration Error

abbrev pub relabel : {E A : Type 0} → (E → Error) → Result E A → Result Error A
relabel f (ok a) = ok a
relabel f (raised e) = raised (f e)

unfoldable pub on_service : {A : Type 0} → Store.Action A → Action A
on_service m s = let (r, t) = m s.service in (relabel run_error r, record s { service = t })

unfoldable pub on_machine : {A : Type 0} → Locks.Action A → Action A
on_machine m s = let (r, t) = m s.machine in (relabel lock_error r, record s { machine = t })

-- `try: m except Exception: pass`.
unfoldable pub ignoring : {A : Type 0} → Action A → Action (Unit {0})
ignoring m = handling (m >> pure tt) (λ _. pure tt)

-- The parts of a RunExecutionSession that `finalize` reads: the leases are in reverse.
pub record RunExecutionSession : Type 0 where
  pub run : Run
  pub attempt : Attempt
  pub configuration : ResolvedConfiguration
  pub lease : List ℕ

-- The keyword arguments of `prepare`, null for None; the text of the process's identifier; and the
-- functions that the library or the resolver's digest stand for.
pub record PrepareRequest : Type 0 where
  pub request : RunRequest
  pub defaults : Json
  pub environment : Json
  pub lab : Json
  pub device : Json
  pub run_overrides : Json
  pub test_overrides : Json
  pub device_identity : Fields
  pub pid : String
  pub last_eight : String → String
  pub str_of : Json → String
  pub digest : Fields → String

abbrev pub layers_of : PrepareRequest → List (String × Json)
layers_of q =
    ("defaults", q.defaults)
    ∷ ("environment", q.environment)
    ∷ ("lab", q.lab)
    ∷ ("device", q.device)
    ∷ ("run", q.run_overrides)
    ∷ ("test_override", q.test_overrides)
    ∷ []

-- What the laboratory's launcher check and the environment's fingerprint answered.
pub record Answers : Type 0 where
  pub launcher : Option (Result String (Unit {0}))
  pub fingerprint : Result String (Unit {0})

-- `mapping.get(key)`, where None stands for a missing key too.
unfoldable pub get : String → Fields → Json
get key no_fields = null
get key (Fields.field k v rest) = if k is key then v else get key rest

-- `bool(value)`.
unfoldable pub is_truthy : Json → Bool
is_truthy null = false
is_truthy (bool b) = b
is_truthy (int (pos zero)) = false
is_truthy (int _) = true
is_truthy (float bits) = not (bits == 0) && not (bits == 9223372036854775808)
is_truthy (str s) = not (s is "")
is_truthy (arr no_items) = false
is_truthy (arr _) = true
is_truthy (obj no_fields) = false
is_truthy (obj _) = true

abbrev pub or_else : Json → Json → Json
or_else a b = if is_truthy a then a else b

-- `device_id` of the identity if it is not None, else of the configuration.
abbrev pub unless_none : Json → Json → Json
unless_none null b = b
unless_none a b = a

abbrev pub named_if : (Json → String) → String → Json → List String
named_if str_of prefix value =
    if is_truthy value then text_append prefix (str_of value) ∷ [] else []

unfoldable pub resources : PrepareRequest → Fields → List String
unfolding get is_truthy
resources q values =
    text_append "lab:" q.request.lab_id
      ∷ named_if q.str_of "device:"
          (unless_none (get "device_id" q.device_identity) (get "device_id" values))
    ++ named_if q.str_of "namespace:" (
        or_else (get "namespace_id" q.device_identity)
          (or_else (get "network_namespace" q.device_identity) (get "namespace_id" values)))

abbrev pub as_text : {A : Type 0} → Result String A → Result Error A
as_text (ok a) = ok a
as_text (raised e) = raised (other e)

abbrev pub launcher_checked : Option (Result String (Unit {0})) → Result Error (Unit {0})
launcher_checked none = ok tt
launcher_checked (some r) = as_text r

abbrev pub is_open : Option Run → Bool
is_open none = false
is_open (some run) = not (is_terminal run.lifecycle)

abbrev pub when : {A : Type 0} → Bool → Store.Action A → Store.Action (Unit {0})
when true m = m >> pure tt
when false m = pure tt

-- A Run that is stored and not terminal is ended, unless the ending raises.
unfoldable pub end_if_open : String → Store.Action Run → Action (Unit {0})
unfolding ignoring on_service
end_if_open run_id ending =
    ignoring (on_service do current ← get_run run_id; when (is_open current) ending)

-- The handler of `prepare`; the run is known once `create_run` has returned.
unfoldable pub end_prepared : Option Run → Action (Unit {0})
unfolding end_if_open
end_prepared none = pure tt
end_prepared (some run) =
    end_if_open run.run_id (lab_fail_run run.run_id (some "Run preparation failed"))

unfoldable pub undo : {A : Type 0} → List ℕ → Option Run → Error → Action A
unfolding end_prepared
undo lease run e = do end_prepared run; on_machine (release_group false lease); raise e

-- From the call of `transition` to the end of the `try` block.
unfoldable pub prepare_run :
    Answers → ResolvedConfiguration → Run × Attempt → List ℕ → Action RunExecutionSession
prepare_run answers configuration created lease = do
  run ← on_service (transition created.0.run_id preparing)
  lift (as_text answers.fingerprint)
  on_service id_generator
  on_service id_generator
  let run' = record run { configuration_hash = configuration.configuration_hash }
  on_service (update_run run')
  pure (record { run = run'; attempt = created.1; configuration = configuration; lease = lease })

abbrev pub redacted_request : RunRequest → Fields → RunRequest
redacted_request q values = record q { resolved_config = redact_configuration values }

unfoldable pub prepare_leased :
    Answers → ResolvedConfiguration → RunRequest → List ℕ → Action RunExecutionSession
unfolding undo prepare_run
prepare_leased answers configuration q lease = do
  created ←
      handling (on_service (create_run (redacted_request q configuration.values))) (undo lease none)
  handling (prepare_run answers configuration created lease) (undo lease (some created.0))

abbrev pub owner_of : PrepareRequest → String → String
owner_of q id = text_append "runner:" (text_append q.pid (text_append ":" (q.last_eight id)))

-- How the group's leases end a session.
unfoldable pub end_session :
    RunExecutionSession → ℕ → Option (String → Store.Action Run) → Store.Action Run
end_session session exitstatus (some finalizer) = finalizer session.run.run_id
end_session session exitstatus none =
    if exitstatus == 0
    then complete_run session.run.run_id none
    else if exitstatus == 2
    then abort_run session.run.run_id none
    else fail_run session.run.run_id none none

unfoldable pub crashed : RunExecutionSession → Error → Action Run
unfolding end_if_open
crashed session e = do
  end_if_open session.run.run_id (worker_crashed session.run.run_id "Run finalization failed")
  raise e

unfoldable pub finalize : RunExecutionSession → ℕ → Option (String → Store.Action Run) → Action Run
unfolding end_session crashed
finalize session exitstatus finalizer =
    finally (handling (on_service (end_session session exitstatus finalizer)) (crashed session))
      (on_machine (release_group false session.lease))

module _ (me : ℕ) (others : ℕ → Machine → Machine) (lock_path : String → String) where
  -- `acquire_many` is called with its defaults: no wait, and leases of 900 seconds.
  unfoldable pub prepare : PrepareRequest → Answers → Action RunExecutionSession
  unfolding resolve resources prepare_leased
  prepare q answers = do
    configuration ← lift (as_text (resolve q.digest (layers_of q)))
    lift (launcher_checked answers.launcher)
    id ← on_service id_generator
    lease ← on_machine (
        acquire_many me others lock_path (resources q configuration.values) (owner_of q id)
          (microseconds 0) (microseconds 900000000))
    prepare_leased answers configuration q.request lease
