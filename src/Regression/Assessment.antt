-- ===== src/Regression/Assessment.antt =====
-- The assessment of one test, `_compare_test` of lib/services/regression_intelligence.py.
use wifi_validation_framewor.Prelude.{
  sorted_set, String, Bool, true, false, not, ◌&&◌, ◌||◌, Option, none, some, List, [], ◌∷◌, ◌++◌,
  map, ◌is◌, if◌then◌else◌, Result, ok, raised, filter,
}
use wifi_validation_framewor.Domain.Status.{
  RegressionClass, TestResultStatus, EvidenceState, is_pass,
}
use wifi_validation_framewor.Domain.Json.{Float}
use wifi_validation_framewor.Domain.Entities.{Run, TestResult, Metric}
use wifi_validation_framewor.Statistics.{evaluate}
use wifi_validation_framewor.Registry.{TestRegistry, TestDefinition, get, metric_definition}
use wifi_validation_framewor.Runs.Promotion.{metric_named}
use wifi_validation_framewor.Regression.{
  RegressionMetricComparison, RegressionAssessment, DeltaOps, threshold, delta, classify, aggregate,
  flaky, FlakyTestHistory,
}

-- `status.value`.
abbrev pub status_value : TestResultStatus → String
status_value TestResultStatus.pass = "PASS"
status_value TestResultStatus.fail = "FAIL"
status_value TestResultStatus.error = "ERROR"
status_value TestResultStatus.skipped = "SKIPPED"
status_value TestResultStatus.blocked = "BLOCKED"
status_value TestResultStatus.known_failure = "KNOWN_FAILURE"
status_value TestResultStatus.xpass = "XPASS"
status_value TestResultStatus.unvalidated = "UNVALIDATED"

-- `status in {ERROR, BLOCKED, UNVALIDATED, SKIPPED}`.
abbrev pub no_evidence : TestResultStatus → Bool
no_evidence TestResultStatus.error = true
no_evidence TestResultStatus.blocked = true
no_evidence TestResultStatus.unvalidated = true
no_evidence TestResultStatus.skipped = true
no_evidence _ = false

-- `evidence_state.value in {"INCOMPLETE", "INVALID"}`.
abbrev pub is_broken : EvidenceState → Bool
is_broken EvidenceState.incomplete = true
is_broken EvidenceState.invalid = true
is_broken _ = false

abbrev pub is_fail : TestResultStatus → Bool
is_fail TestResultStatus.fail = true
is_fail _ = false

-- A comparison that fails, with its reason.
abbrev pub unvalidated_comparison : String → String → String → RegressionMetricComparison
unvalidated_comparison name unit reason = record {
  metric_name = name;
  unit = unit;
  baseline_value = none;
  current_value = none;
  delta_pct = none;
  threshold_pct = none;
  classification = RegressionClass.unvalidated;
  reason = reason;
}

abbrev pub compared :
    String → String → Float → Float → Float → Float → RegressionClass → RegressionMetricComparison
compared name unit base current change limit classification = record {
  metric_name = name;
  unit = unit;
  baseline_value = some base;
  current_value = some current;
  delta_pct = some change;
  threshold_pct = some limit;
  classification = classification;
  reason = "";
}

abbrev pub unit_of : Option Metric → Option Metric → String
unit_of bm (some cm) = cm.unit
unit_of (some bm) none = bm.unit
unit_of none none = ""

module _ (o : DeltaOps) (registry : TestRegistry) (default : Float) where
  -- `_metric_value`; the text of the exception is left out.
  unfoldable pub metric_value : Metric → String → Result String Float
  metric_value metric test_id = elim (metric_definition registry test_id metric.name) [
    | raised e ↦ raised "metric cannot be evaluated"
    | ok d ↦ elim (evaluate o.floats metric d.measurement_policy) [
      | raised e ↦ raised "metric cannot be evaluated"
      | ok summary ↦ ok summary.decision_value
    ]
  ]

  -- `threshold_overrides.get((test, metric), self._threshold(...))`, whose default is computed first.
  unfoldable pub limit_of :
      List (String × String × Float) → Run → String → String → Result String Float
  limit_of overrides run test_id name = elim (threshold o default run test_id name) [
    | raised e ↦ raised e
    | ok limit ↦
        elim (filter (λ (p : String × String × Float). p.0 is test_id && p.1 is name) overrides) [
          | [] ↦ ok limit
          | p ∷ rest ↦ ok p.2
        ]
  ]

  abbrev pub judged :
      String
      → Metric
      → Float
      → Float
      → Result String Float
      → Result String RegressionMetricComparison
  judged name cm base current (raised e) = raised e
  judged name cm base current (ok limit) =
      let change = delta o base current cm.unit in
      ok (compared name cm.unit base current change limit (classify o change limit))

  abbrev pub compare_values :
      List (String × String × Float)
      → Run
      → String
      → String
      → Metric
      → Result String Float
      → Result String Float
      → Result String RegressionMetricComparison
  compare_values overrides run test_id name c (raised e) current =
      ok (unvalidated_comparison name c.unit e)
  compare_values overrides run test_id name c (ok x) (raised e) =
      ok (unvalidated_comparison name c.unit e)
  compare_values overrides run test_id name c (ok x) (ok y) =
      judged name c x y (limit_of overrides run test_id name)

  -- A round of the loop over the names of the metrics, on the two metrics of the name.
  unfoldable pub compare_named :
      List (String × String × Float)
      → Run
      → String
      → String
      → Option Metric
      → Option Metric
      → Result String RegressionMetricComparison
  compare_named overrides run test_id name (some b) (some c) =
      if not (b.unit is c.unit)
      then ok (unvalidated_comparison name c.unit "metric units differ")
      else compare_values overrides run test_id name c (metric_value b test_id)
          (metric_value c test_id)
  compare_named overrides run test_id name bm cm =
      ok (unvalidated_comparison name (unit_of bm cm) "metric is missing from one Run")

  unfoldable pub compare_metric :
      List (String × String × Float)
      → Run
      → TestResult
      → TestResult
      → String
      → Result String RegressionMetricComparison
  compare_metric overrides run base curr name =
      compare_named overrides run curr.test_id name (metric_named name base.metrics)
        (metric_named name curr.metrics)

  abbrev pub add_comparison :
      Result String RegressionMetricComparison
      → Result String (List RegressionMetricComparison)
      → Result String (List RegressionMetricComparison)
  add_comparison (raised e) later = raised e
  add_comparison (ok c) (raised e) = raised e
  add_comparison (ok c) (ok cs) = ok (c ∷ cs)

  unfoldable pub compare_metrics :
      List (String × String × Float)
      → Run
      → TestResult
      → TestResult
      → List String
      → Result String (List RegressionMetricComparison)
  compare_metrics overrides run base curr [] = ok []
  compare_metrics overrides run base curr (name ∷ names) =
      add_comparison (compare_metric overrides run base curr name)
        (compare_metrics overrides run base curr names)

  abbrev pub assessment :
      TestResult
      → TestResult
      → RegressionClass
      → FlakyTestHistory
      → List RegressionMetricComparison
      → String
      → RegressionAssessment
  assessment base curr classification history comparisons reason = record {
    test_id = curr.test_id;
    node_id = curr.node_id;
    baseline_run_id = base.run_id;
    current_run_id = curr.run_id;
    baseline_status = status_value base.status;
    current_status = status_value curr.status;
    classification = classification;
    metric_comparisons = comparisons;
    flaky_history = history;
    reason = reason;
  }

  -- The names of the metrics of both results, sorted.
  abbrev pub metric_names : TestResult → TestResult → List String
  metric_names base curr = sorted_set (map (λ (m : Metric). m.name) (base.metrics ++ curr.metrics))

  abbrev pub measured :
      TestResult
      → TestResult
      → FlakyTestHistory
      → Result String (List RegressionMetricComparison)
      → Result String RegressionAssessment
  measured base curr history (raised e) = raised e
  measured base curr history (ok comparisons) = ok (
      assessment base curr
        (aggregate (map (λ (c : RegressionMetricComparison). c.classification) comparisons)) history
        comparisons "metric-aware PASS to PASS comparison")

  unfoldable pub compare_registered :
      List (String × String × Float)
      → Run
      → TestResult
      → TestResult
      → FlakyTestHistory
      → Result String RegressionAssessment
  compare_registered overrides run base curr history =
      if not (base.test_version is curr.test_version)
      then ok (
          assessment base curr RegressionClass.no_baseline history []
            "test definition versions differ")
      else if no_evidence base.status
      then ok (
          assessment base curr RegressionClass.no_baseline history []
            "baseline result is not valid comparison evidence")
      else if no_evidence curr.status || is_broken curr.evidence_state
      then ok (
          assessment base curr RegressionClass.unvalidated history []
            "current result cannot support a trustworthy regression decision")
      else if is_pass base.status && is_fail curr.status
      then ok (
          assessment base curr RegressionClass.regression history []
            "functional status changed from PASS to FAIL")
      else if is_fail base.status && is_pass curr.status
      then ok (
          assessment base curr RegressionClass.fixed history []
            "functional status changed from FAIL to PASS")
      else if not (is_pass base.status) || not (is_pass curr.status)
      then ok (
          assessment base curr RegressionClass.unchanged history []
            "functional statuses are unchanged")
      else measured base curr history
          (compare_metrics overrides run base curr (metric_names base curr))

  abbrev pub compare_defined :
      List (String × String × Float)
      → Run
      → TestResult
      → TestResult
      → List String
      → Option TestDefinition
      → Result String RegressionAssessment
  compare_defined overrides run base curr observations none = raised "unknown semantic test id"
  compare_defined overrides run base curr observations (some d) =
      compare_registered overrides run base curr (flaky curr.test_id observations)

  -- `_compare_test`, where `observations` holds the test's history. The definition is read first.
  unfoldable pub compare_test :
      List (String × String × Float)
      → Run
      → TestResult
      → TestResult
      → List String
      → Result String RegressionAssessment
  compare_test overrides run base curr observations =
      compare_defined overrides run base curr observations (get registry curr.test_id)
