-- ===== src/Runs/Promotion.antt =====
-- `promote_baseline` of lib/services/run_service.py. The registry that the source falls back on, the
-- built-in one, is a parameter.
use Prim.Native.Char.{code}
use wifi_validation_framewor.Prelude.{
  String, Bool, true, false, not, ◌&&◌, ◌||◌, Option, none, some, List, [], ◌∷◌, map, ◌==◌, ◌is◌,
  if◌then◌else◌, Result, ok, raised, pure, reads, lift, reject_if, require, ◌>>=◌, ◌>>◌, any,
  has_row, is_blank, strip,
}
use wifi_validation_framewor.Domain.Status.{
  RunLifecycle, completed, BusinessOutcome, EnvironmentHealthStatus, Criticality, is_pass,
  is_unfinished, is_validated, same_outcome, TestResultStatus,
}
use wifi_validation_framewor.Domain.Json.{Json, Fields, str, field, no_fields}
use wifi_validation_framewor.Domain.Entities.{Time, Run, TestResult, Metric, Baseline}
use wifi_validation_framewor.Domain.Validation.{Error, domain, check_baseline}
use wifi_validation_framewor.Registry.{TestRegistry, TestDefinition, metric_definition}
use wifi_validation_framewor.Registry
use wifi_validation_framewor.Statistics.{FloatOps, evaluate, MeasurementError}
use wifi_validation_framewor.Baselines
use wifi_validation_framewor.Runs.Store.{Action, RunService, Host, clock, id_generator}
use wifi_validation_framewor.Runs.Repositories.{run_key}
use wifi_validation_framewor.Runs.Lifecycle.{require_run, event}
use wifi_validation_framewor.Runs.Outcome.{
  derive_business_outcome, latest_attempt_results, selected_result_map, is_unvalidated,
}

abbrev pub is_completed : RunLifecycle → Bool
is_completed completed = true
is_completed _ = false

abbrev pub is_healthy : Option EnvironmentHealthStatus → Bool
is_healthy (some EnvironmentHealthStatus.healthy) = true
is_healthy _ = false

-- `run.outcome is derived_outcome`.
abbrev pub has_outcome : Option BusinessOutcome → BusinessOutcome → Bool
has_outcome none derived = false
has_outcome (some outcome) derived = same_outcome outcome derived

abbrev is_xpass : TestResultStatus → Bool
is_xpass TestResultStatus.xpass = true
is_xpass _ = false

abbrev is_blocking : Criticality → Bool
is_blocking Criticality.blocking = true
is_blocking _ = false

abbrev metric_name : Metric → String
metric_name m = m.name

-- `metrics_by_name`: of two metrics with one name the dictionary keeps the last.
unfoldable pub metric_named : String → List Metric → Option Metric
metric_named name [] = none
metric_named name (m ∷ rest) = elim (metric_named name rest) [
  | some later ↦ some later
  | none ↦ if m.name is name then some m else none
]

abbrev pub passed : {A : Type 0} → Result MeasurementError A → Result Error (Unit {0})
passed (ok _) = ok tt
passed (raised _) = raised (domain "authoritative measurement policy not satisfied")

infixl 10 ◌and_then◌
abbrev pub ◌and_then◌ : Result Error (Unit {0}) → Result Error (Unit {0}) → Result Error (Unit {0})
ok _ and_then r = r
raised e and_then r = raised e

abbrev pub refuse_if : Bool → String → Result Error (Unit {0})
refuse_if true message = raised (domain message)
refuse_if false message = ok tt

module _ (floats : FloatOps) (registry : TestRegistry) where
  -- The `try` block on the decision metric; any exception in it becomes a DomainValidationError.
  unfoldable pub check_measurement : String → Metric → Bool → Result Error (Unit {0})
  check_measurement test_id m needs_declared = elim (metric_definition registry test_id m.name) [
    | raised e ↦ raised (domain "authoritative measurement policy not satisfied")
    | ok d ↦
        refuse_if (needs_declared && not d.authoritative)
          "authoritative measurement policy not satisfied"
        and_then refuse_if (not (d.unit is m.unit)) "authoritative measurement policy not satisfied"
        and_then passed (evaluate floats m d.measurement_policy)
  ]

  -- The block on `decision_metric`; an empty name is as none.
  unfoldable pub check_decision : TestResult → Option String → Result Error (Unit {0})
  check_decision r none = ok tt
  check_decision r (some decision) =
      if decision is "" then ok tt else elim (metric_named decision r.metrics) [
        | none ↦ raised (domain "required authoritative decision metric missing")
        | some m ↦
            refuse_if (not m.authoritative) "decision metric is not marked authoritative"
            and_then check_measurement r.test_id m false
      ]

  abbrev pub is_decision_metric : Option String → Metric → Bool
  is_decision_metric none m = false
  is_decision_metric (some decision) m = m.name is decision

  -- The loop over the other authoritative metrics.
  unfoldable pub check_others : String → Option String → List Metric → Result Error (Unit {0})
  check_others test_id decision [] = ok tt
  check_others test_id decision (m ∷ rest) =
      (if not m.authoritative || is_decision_metric decision m
        then ok tt
        else check_measurement test_id m true)
      and_then check_others test_id decision rest

  abbrev pub check_metrics : TestResult → Option TestDefinition → Result Error (Unit {0})
  check_metrics r none =
      refuse_if (any (λ (m : Metric). m.authoritative) r.metrics)
        "authoritative metric definition missing"
  check_metrics r (some d) =
      check_decision r d.decision_metric and_then check_others r.test_id d.decision_metric r.metrics

  -- One round of the loop over the selected results.
  unfoldable pub check_promotable : TestResult → Result Error (Unit {0})
  check_promotable r =
      refuse_if (is_unvalidated r.status) "unvalidated TestResult cannot be promoted"
      and_then refuse_if (is_xpass r.status)
          "unexpected pytest pass requires review before baseline promotion"
      and_then refuse_if (is_unfinished r.evidence_state) "TestResult evidence is not complete"
      and_then refuse_if (is_blocking r.criticality && not (is_pass r.status))
          "blocking test is not PASS"
      and_then check_metrics r (Registry.get registry r.test_id)

  unfoldable pub check_each : List TestResult → Result Error (Unit {0})
  check_each [] = ok tt
  check_each (r ∷ rest) = check_promotable r and_then check_each rest

-- `firmware_version.split(".")[0]`.
unfoldable pub before_dot : String → String
before_dot String.[] = String.[]
before_dot (String.◌∷◌ c s) = if code c == b'.' then String.[] else String.◌∷◌ c (before_dot s)

abbrev pub config_value : String → Fields → Option Json
config_value k no_fields = none
config_value k (field j v fs) = if j is k then some v else config_value k fs

-- `given or default`.
abbrev pub or_else : String → String → String
or_else given default = if given is "" then default else given

abbrev pub device_of : Host → Run → String
device_of host run = elim (config_value "device_id" run.resolved_config) [
  | none ↦ ""
  | some v ↦ host.str_of v
]

abbrev pub versions_json : List (String × String) → Fields
versions_json [] = no_fields
versions_json ((k, v) ∷ rest) = field k (str v) (versions_json rest)

pub record PromotionRequest : Type 0 where
  pub name : String
  pub promoted_by : String
  pub device_scope : String
  pub firmware_major_scope : String
  pub test_suite_version : String
  pub lab_class : String

abbrev pub new_baseline : PromotionRequest → Host → Run → String → Time → Baseline
new_baseline q host run baseline_id now = record {
  baseline_id = baseline_id;
  name = strip q.name;
  baseline_run_id = run.run_id;
  status = "ACTIVE";
  promoted_by = strip q.promoted_by;
  promoted_at = now;
  device_scope = or_else q.device_scope (device_of host run);
  firmware_major_scope = or_else q.firmware_major_scope (before_dot run.firmware_version);
  test_suite_version =
      or_else q.test_suite_version (host.digest (versions_json run.test_definition_versions));
  lab_class = or_else q.lab_class run.lab_id;
  superseded_by = none;
  provenance = "NATIVE";
}

abbrev pub run_exists : RunService → String → Bool
run_exists s k = has_row run_key k s.runs

abbrev pub committed_baseline :
    Result Error (List Baseline) → RunService → Result Error (Unit {0}) × RunService
committed_baseline (ok new) s = (ok tt, record s { baselines = some new })
committed_baseline (raised e) s = (raised e, s)

-- SQLiteBaselineRepository.save_replacing_active, on the service's repository.
unfoldable pub replace_in : Option (List Baseline) → Baseline → Action (Unit {0})
replace_in none b s = (raised (domain "baseline repository is not configured"), s)
replace_in (some rows) b s =
    committed_baseline (Baselines.save_replacing_active (run_exists s) b rows) s

unfoldable pub replace_active : Baseline → Action (Unit {0})
replace_active b s = replace_in s.baselines b s

abbrev pub registry_of : Option TestRegistry → TestRegistry → TestRegistry
registry_of none default = default
registry_of (some registry) default = registry

unfoldable pub promote_baseline : TestRegistry → String → PromotionRequest → Action Baseline
promote_baseline default run_id q = do
  repository ← reads (λ s. s.baselines)
  require (domain "baseline repository is not configured") repository
  run ← require_run run_id
  reject_if (not (is_completed run.lifecycle) || not (is_healthy run.environment_health))
      (domain "only completed Runs with healthy lab state can become baselines")
  derived ← derive_business_outcome run_id
  reject_if (not (has_outcome run.outcome derived) || not (is_validated derived))
      (domain "Run outcome does not match currently persisted TestResult/evidence facts")
  reject_if (is_blank q.name || is_blank q.promoted_by)
      (domain "baseline name and promoter are required")
  results ← latest_attempt_results run_id
  pairs ←
      require
        (domain
          "baseline requires exactly one TestResult for every selected test in the latest Attempt")
        (selected_result_map run results)
  s ← reads (λ s. s)
  lift (
      check_each s.host.floats (registry_of s.test_registry default)
        (map (λ (p : String × TestResult). p.1) pairs))
  now ← clock
  baseline_id ← id_generator
  b ← lift (check_baseline (new_baseline q s.host run baseline_id now))
  replace_active b
  event run_id "BASELINE_PROMOTED" now none (
      ("baseline_id", some baseline_id)
      ∷ ("name", some b.name)
      ∷ ("promoted_by", some b.promoted_by)
      ∷ [])
  pure b
