-- ===== src/Runs/Creation.antt =====
-- `create_run`, `create_attempt` and `record_test_result` of lib/services/run_service.py.
use wifi_validation_framewor.Prelude.{
  ℕ, ◌+◌, String, Bool, true, false, not, Option, none, some, List, [], ◌∷◌, ◌==◌, ◌is◌,
  if◌then◌else◌, Result, ok, raised, pure, reads, lift, reject_if, require, ◌>>=◌, ◌>>◌, length,
}
use wifi_validation_framewor.Domain.Status.{
  queued, TestResultStatus, Criticality, Severity, EvidenceState, FailureClass,
}
use wifi_validation_framewor.Domain.Json.{Json, Fields}
use wifi_validation_framewor.Domain.Entities.{
  Time, Run, Attempt, TestResult, Metric, LifecycleEvent,
}
use wifi_validation_framewor.Domain.Validation.{
  Error, domain, check_run, check_attempt, check_event, check_result, check_metric, same_tests,
}
use wifi_validation_framewor.Registry.{
  RegistryError, key_error, value_error, definition_error, TestRegistry, get, metric_definition,
  lookup,
}
use wifi_validation_framewor.Runs.Store.{Action, clock, id_generator}
use wifi_validation_framewor.Runs.Repositories.{
  get_run, save_initial_bundle, get_attempt, list_attempts, insert_attempt, insert_result,
}
use wifi_validation_framewor.Runs.Lifecycle.{require_run, event, is_terminal}
use wifi_validation_framewor.Runs.Redaction.{redact_configuration}

pub record RunRequest : Type 0 where
  pub firmware_version : String
  pub lab_id : String
  pub validation_profile : String
  pub selected_tests : List String
  pub test_definition_versions : List (String × String)
  pub resolved_config : Fields
  pub repository_commit : String
  pub source_run_id : Option String

-- The tests on the source Run of a retry.
unfoldable pub check_retry_source : Option String → Action (Unit {0})
check_retry_source none = pure tt
check_retry_source (some source) = do
  found ← get_run source
  run ← require (domain "source Run does not exist") found
  reject_if (not (is_terminal run.lifecycle))
      (domain "only terminal Runs can be used as retry sources")

abbrev pub new_run : RunRequest → String → String → Fields → String → Time → Run
new_run q run_id display_id config digest now = record {
  run_id = run_id;
  display_id = display_id;
  firmware_version = q.firmware_version;
  lab_id = q.lab_id;
  validation_profile = q.validation_profile;
  selected_tests = q.selected_tests;
  test_definition_versions = q.test_definition_versions;
  resolved_config = config;
  configuration_hash = digest;
  repository_commit = q.repository_commit;
  lifecycle = queued;
  outcome = none;
  failure_class = none;
  failure_reason = none;
  execution_pid = none;
  environment_health = none;
  attempts = [];
  created_at = some now;
  started_at = none;
  completed_at = none;
  provenance = "NATIVE";
  source_run_id = q.source_run_id;
}

abbrev pub new_attempt : String → String → ℕ → Attempt
new_attempt attempt_id run_id number = record {
  attempt_id = attempt_id;
  run_id = run_id;
  number = number;
  results = [];
  started_at = none;
  completed_at = none;
}

abbrev pub new_event : String → String → String → Time → Option String → LifecycleEvent
new_event event_id run_id event_type now attempt_id = record {
  event_id = event_id;
  run_id = run_id;
  event_type = event_type;
  occurred_at = now;
  attempt_id = attempt_id;
  test_result_id = none;
  details = [];
}

unfoldable pub create_run : RunRequest → Action (Run × Attempt)
create_run q = do
  check_retry_source q.source_run_id
  reject_if (length q.selected_tests == 0) (domain "cannot create a run with no selected tests")
  reject_if (not (same_tests q.selected_tests q.test_definition_versions))
      (domain "every selected test must have a test definition version")
  now ← clock
  run_id ← id_generator
  host ← reads (λ s. s.host)
  let config = redact_configuration q.resolved_config
  run ←
      lift
        (check_run (new_run q run_id (host.display_id now run_id) config (host.digest config) now))
  created_id ← id_generator
  created ← lift (check_event (new_event created_id run_id "RUN_CREATED" now none))
  attempt_id ← id_generator
  attempt ← lift (check_attempt (new_attempt attempt_id run_id 1))
  started_id ← id_generator
  started ← lift (check_event (new_event started_id run_id "ATTEMPT_CREATED" now (some attempt_id)))
  save_initial_bundle run attempt created started
  pure (run, attempt)

unfoldable pub create_attempt : String → Action Attempt
create_attempt run_id = do
  run ← require_run run_id
  reject_if (is_terminal run.lifecycle) (domain "cannot create an attempt for a terminal run")
  existing ← list_attempts run_id
  attempt_id ← id_generator
  attempt ← lift (check_attempt (new_attempt attempt_id run_id (length existing + 1)))
  insert_attempt attempt
  now ← clock
  event run_id "ATTEMPT_CREATED" now (some attempt_id) []
  pure attempt

pub record ResultRequest : Type 0 where
  pub run_id : String
  pub attempt_id : String
  pub test_id : String
  pub node_id : String
  pub status : TestResultStatus
  pub metrics : List Metric
  pub test_version : Option String
  pub error_reason : Option String
  pub started_at : Option Time
  pub completed_at : Option Time
  pub criticality : Criticality
  pub severity : Severity
  pub evidence_state : EvidenceState
  pub failure_class : Option FailureClass
  pub failure_reason : Option String
  pub execution_pid : Option ℕ
  pub provenance : String
  pub execution_metadata : Json

abbrev belongs_to : Option Attempt → String → Bool
belongs_to none run_id = false
belongs_to (some a) run_id = a.run_id is run_id

abbrev keep_metric : Result Error Metric → Result Error (List Metric) → Result Error (List Metric)
keep_metric (raised e) later = raised e
keep_metric (ok m) (raised e) = raised e
keep_metric (ok m) (ok ms) = ok (m ∷ ms)

-- One round of the loop that marks the decision metric as authoritative.
unfoldable pub normalize_metric : String → String → Metric → Result Error Metric
unfolding check_metric
normalize_metric decision unit m =
    if m.name is decision
    then (if m.unit is unit
        then check_metric (record m { authoritative = true })
        else raised (domain "decision metric unit mismatch"))
    else ok m

unfoldable pub normalize_metrics : String → String → List Metric → Result Error (List Metric)
unfolding normalize_metric
normalize_metrics decision unit [] = ok []
normalize_metrics decision unit (m ∷ rest) =
    keep_metric (normalize_metric decision unit m) (normalize_metrics decision unit rest)

abbrev is_empty_text : String → Bool
is_empty_text t = t is ""

-- The exceptions of `metric_definition` are let through.
abbrev pub let_through : RegistryError → Error
let_through (key_error message) = domain "KeyError"
let_through (value_error message) = domain message
let_through (definition_error message) = domain message

-- The block on the registry: an unknown test, or one with no decision metric, changes nothing.
abbrev pub declared_metrics :
    Option TestRegistry → String → List Metric → Result Error (List Metric)
declared_metrics none test_id metrics = ok metrics
declared_metrics (some registry) test_id metrics = elim (get registry test_id) [
  | none ↦ ok metrics
  | some d ↦ elim d.decision_metric [
    | none ↦ ok metrics
    | some decision ↦
        if is_empty_text decision
        then ok metrics
        else elim (metric_definition registry test_id decision) [
          | raised e ↦ raised (let_through e)
          | ok declared ↦ normalize_metrics decision declared.unit metrics
        ]
  ]
]

-- `test_version or run.test_definition_versions.get(test_id, "1.0")`.
abbrev version_in : Option String → String
version_in none = "1.0"
version_in (some v) = v

abbrev pub version_of : Option String → Run → String → String
version_of none run test_id = version_in (lookup test_id run.test_definition_versions)
version_of (some v) run test_id =
    if is_empty_text v then version_in (lookup test_id run.test_definition_versions) else v

-- `completed_at or self.clock()`.
unfoldable pub time_or_now : Option Time → Action Time
time_or_now none = clock
time_or_now (some t) = pure t

unfoldable pub record_test_result : ResultRequest → Action TestResult
record_test_result q = do
  table ← reads (λ s. s.test_results)
  require (domain "test result repository is not configured") table
  run ← require_run q.run_id
  attempt ← get_attempt q.attempt_id
  reject_if (not (belongs_to attempt q.run_id)) (domain "Attempt does not belong to Run")
  registry ← reads (λ s. s.test_registry)
  metrics ← lift (declared_metrics registry q.test_id q.metrics)
  result_id ← id_generator
  result ← lift (
      check_result (record {
        test_result_id = result_id;
        run_id = q.run_id;
        attempt_id = q.attempt_id;
        test_id = q.test_id;
        node_id = q.node_id;
        test_version = version_of q.test_version run q.test_id;
        status = q.status;
        criticality = q.criticality;
        severity = q.severity;
        evidence_state = q.evidence_state;
        metrics = metrics;
        error_reason = q.error_reason;
        started_at = q.started_at;
        completed_at = q.completed_at;
        failure_class = q.failure_class;
        failure_reason = q.failure_reason;
        execution_pid = q.execution_pid;
        provenance = q.provenance;
        execution_metadata = q.execution_metadata;
      }))
  insert_result result
  at ← time_or_now q.completed_at
  event q.run_id "TEST_COMPLETED" at (some q.attempt_id) []
  pure result
