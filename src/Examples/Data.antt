-- ===== src/Examples/Data.antt =====
-- The tables and callables of the examples.
use Prim.Native.String.{◌++◌ as text_append}
use wifi_validation_framewor.Prelude.{ℕ, zero, suc, ◌+◌, ◌-◌, ◌*◌, String, none, some, [], ◌∷◌, leb}
use wifi_validation_framewor.Domain.Status.{
  running, completed, BusinessOutcome, TestResultStatus, Criticality, Severity, EvidenceState,
  EnvironmentHealthStatus,
}
use wifi_validation_framewor.Domain.Json.{null, no_fields, field, str}
use wifi_validation_framewor.Domain.Entities.{Run, Attempt, TestResult}
use wifi_validation_framewor.Statistics.{FloatOps}
use wifi_validation_framewor.Runs.Store.{Host, RunService}

-- Whole numbers in the place of floats.
abbrev pub whole_numbers : FloatOps
whole_numbers = record {
  le = leb;
  add = λ a b. a + b;
  sub = λ a b. a - b;
  mul = λ a b. a * b;
  of_ℕ = λ n. n;
  floor = λ n. n;
  fmean = λ xs. none;
  median = λ xs. none;
  pstdev = λ xs. none;
}

abbrev pub nth_id : ℕ → String
nth_id zero = "id"
nth_id (suc n) = text_append "x" (nth_id n)

abbrev pub host : Host
host = record {
  clock = λ n. n + 100;
  id_generator = nth_id;
  digest = λ c. "digest";
  display_id = λ t k. text_append "WIFI-" k;
  str_of = λ j. "text";
  floats = whole_numbers;
}

abbrev pub running_run : Run
running_run = record {
  run_id = "r1";
  display_id = "WIFI-1";
  firmware_version = "2.1.0";
  lab_id = "lab";
  validation_profile = "smoke";
  selected_tests = "t1" ∷ [];
  test_definition_versions = ("t1", "1.0") ∷ [];
  resolved_config = field "password" (str "hunter2") (field "ssid" (str "net") no_fields);
  configuration_hash = "digest";
  repository_commit = "abc";
  lifecycle = running;
  outcome = none;
  failure_class = none;
  failure_reason = none;
  execution_pid = none;
  environment_health = some EnvironmentHealthStatus.healthy;
  attempts = [];
  created_at = some 1;
  started_at = some 2;
  completed_at = none;
  provenance = "NATIVE";
  source_run_id = none;
}

abbrev pub first_attempt : Attempt
first_attempt = record {
  attempt_id = "a1";
  run_id = "r1";
  number = 1;
  results = [];
  started_at = some 2;
  completed_at = none;
}

abbrev pub passed_result : TestResult
passed_result = record {
  test_result_id = "q1";
  run_id = "r1";
  attempt_id = "a1";
  test_id = "t1";
  node_id = "tests/one.py";
  test_version = "1.0";
  status = TestResultStatus.pass;
  criticality = Criticality.blocking;
  severity = Severity.high;
  evidence_state = EvidenceState.complete;
  metrics = [];
  error_reason = none;
  started_at = none;
  completed_at = none;
  failure_class = none;
  failure_reason = none;
  execution_pid = none;
  provenance = "NATIVE";
  execution_metadata = null;
}

abbrev pub failed_result : TestResult
failed_result = record passed_result {
  run_id = "r2";
  attempt_id = "a2";
  test_result_id = "q2";
  status = TestResultStatus.fail;
}

-- A service with one Run that has passed its one test.
abbrev pub running_service : RunService
running_service = record {
  host = host;
  clock_calls = 0;
  id_calls = 0;
  runs = running_run ∷ [];
  attempts = first_attempt ∷ [];
  test_results = some (passed_result ∷ []);
  events = [];
  baselines = some [];
  test_registry = some [];
}

abbrev pub completed_run : Run
completed_run = record running_run {
  lifecycle = completed;
  outcome = some BusinessOutcome.validated;
  completed_at = some 9;
}

abbrev pub completed_service : RunService
completed_service = record running_service { runs = completed_run ∷ [] }
