-- ===== src/Regression/Runs.antt =====
-- `compare_runs` of lib/services/regression_intelligence.py, on the Run service's tables.
use wifi_validation_framewor.Prelude.{
  sorted_set, String, Bool, true, false, not, Option, none, some, List, [], ◌∷◌, ◌++◌, map, ◌is◌,
  if◌then◌else◌, Result, ok, raised, find_row, last?,
}
use wifi_validation_framewor.Domain.Status.{RegressionClass, is_pass}
use wifi_validation_framewor.Domain.Json.{Float}
use wifi_validation_framewor.Domain.Entities.{Run, TestResult}
use wifi_validation_framewor.Registry.{TestRegistry, TestDefinition, get, resolve, lookup}
use wifi_validation_framewor.Runs.Store.{RunService}
use wifi_validation_framewor.Runs.Repositories.{run_key, attempts_of, results_of}
use wifi_validation_framewor.Regression.{
  ComparabilityStatus, comparable, insufficient_context, RegressionAssessment, RunRegressionReport,
  DeltaOps, flaky, compare_context,
}
use wifi_validation_framewor.Regression.Assessment.{status_value, compare_test}

-- The arguments of the service and of the call; `fallback_id` gives the identifier that the registry
-- makes of a node that it does not know.
pub record Comparison : Type 0 where
  pub ops : DeltaOps
  pub registry : TestRegistry
  pub fallback_id : String → String
  pub default_threshold : Float
  pub overrides : List (String × String × Float)
  pub history : List (String × List String)

-- `_latest_results`: the last attempt by number.
unfoldable pub latest_results : RunService → Option Run → List TestResult
latest_results s none = []
latest_results s (some run) = elim s.test_results [
  | none ↦ []
  | some rows ↦ elim (last? (attempts_of run.run_id s.attempts)) [
    | none ↦ []
    | some a ↦ results_of a.attempt_id rows
  ]
]

-- `{item.test_id: item for item in results}[test_id]`: of two results with one test the last is kept.
unfoldable pub result_for : String → List TestResult → Option TestResult
result_for test_id [] = none
result_for test_id (r ∷ rest) = elim (result_for test_id rest) [
  | some later ↦ some later
  | none ↦ if r.test_id is test_id then some r else none
]

abbrev pub is_comparable : ComparabilityStatus → Bool
is_comparable comparable = true
is_comparable _ = false

module _ (c : Comparison) where
  abbrev pub selected_test_id : String → String
  selected_test_id selected = elim (get c.registry selected) [
    | some d ↦ d.test_id
    | none ↦ elim (resolve c.registry selected) [
      | some d ↦ d.test_id
      | none ↦ c.fallback_id selected
    ]
  ]

  -- The identifiers that both Runs select, sorted.
  unfoldable pub test_ids : Run → Run → List String
  test_ids baseline current =
      sorted_set (map selected_test_id (baseline.selected_tests ++ current.selected_tests))

  abbrev pub observations_of : String → List String
  observations_of test_id = elim (lookup test_id c.history) [ none ↦ [] | some values ↦ values ]

  abbrev pub plain :
      String
      → String
      → String
      → String
      → String
      → String
      → RegressionClass
      → String
      → RegressionAssessment
  plain test_id node_id baseline_id current_id before now classification reason = record {
    test_id = test_id;
    node_id = node_id;
    baseline_run_id = baseline_id;
    current_run_id = current_id;
    baseline_status = before;
    current_status = now;
    classification = classification;
    metric_comparisons = [];
    flaky_history = flaky test_id (observations_of test_id);
    reason = reason;
  }

  abbrev pub status_or_na : Option TestResult → String
  status_or_na none = "N/A"
  status_or_na (some r) = status_value r.status

  -- An assessment reads the definition of its test, and raises where there is none.
  abbrev pub assessed :
      Option TestDefinition
      → (TestDefinition → RegressionAssessment)
      → Result String RegressionAssessment
  assessed none a = raised "unknown semantic test id"
  assessed (some d) a = ok (a d)

  abbrev pub if_registered :
      String → (TestDefinition → RegressionAssessment) → Result String RegressionAssessment
  if_registered test_id a = assessed (get c.registry test_id) a

  abbrev pub node_of : Option TestResult → TestDefinition → String
  node_of none d = d.node_id
  node_of (some r) d = r.node_id

  unfoldable pub missing_current :
      String → String → String → Option TestResult → Result String RegressionAssessment
  missing_current test_id baseline_id current_id base = if_registered test_id λ d.
      plain test_id (node_of base d) baseline_id current_id (status_or_na base) "MISSING"
        RegressionClass.unvalidated "required current TestResult is missing"

  unfoldable pub context_blocked :
      String
      → String
      → String
      → Option TestResult
      → TestResult
      → String
      → Result String RegressionAssessment
  context_blocked test_id baseline_id current_id base curr reason = if_registered test_id λ d.
      plain test_id curr.node_id baseline_id current_id (status_or_na base)
        (status_value curr.status) RegressionClass.no_baseline reason

  unfoldable pub new_test :
      String → String → String → TestResult → Result String RegressionAssessment
  new_test test_id baseline_id current_id curr = if_registered test_id λ d.
      plain test_id curr.node_id baseline_id current_id "N/A" (status_value curr.status)
        (if is_pass curr.status then RegressionClass.new_pass else RegressionClass.new_failure)
        "current test has no baseline TestResult"

  unfoldable pub missing_baseline :
      String → String → TestResult → Result String RegressionAssessment
  missing_baseline baseline_id current_id curr = if_registered curr.test_id λ d.
      plain curr.test_id curr.node_id baseline_id current_id "N/A" (status_value curr.status)
        RegressionClass.no_baseline "no explicit baseline Run is available"

  abbrev pub compare_pair :
      Run → Run → String → Option TestResult → TestResult → Result String RegressionAssessment
  compare_pair baseline current test_id none curr =
      new_test test_id baseline.run_id current.run_id curr
  compare_pair baseline current test_id (some base) curr =
      compare_test c.ops c.registry c.default_threshold c.overrides current base curr
        (observations_of curr.test_id)

  -- A round of the loop over the tests.
  unfoldable pub assess :
      Run
      → Run
      → ComparabilityStatus × String
      → String
      → Option TestResult
      → Option TestResult
      → Result String RegressionAssessment
  assess baseline current context test_id base none =
      missing_current test_id baseline.run_id current.run_id base
  assess baseline current context test_id base (some curr) =
      if not (is_comparable context.0)
      then context_blocked test_id baseline.run_id current.run_id base curr context.1
      else compare_pair baseline current test_id base curr

  abbrev pub add_assessment :
      Result String RegressionAssessment
      → Result String (List RegressionAssessment)
      → Result String (List RegressionAssessment)
  add_assessment (raised e) later = raised e
  add_assessment (ok a) (raised e) = raised e
  add_assessment (ok a) (ok rest) = ok (a ∷ rest)

  unfoldable pub assess_all :
      Run
      → Run
      → ComparabilityStatus × String
      → List TestResult
      → List TestResult
      → List String
      → Result String (List RegressionAssessment)
  assess_all baseline current context before now [] = ok []
  assess_all baseline current context before now (test_id ∷ rest) =
      add_assessment
        (assess baseline current context test_id (result_for test_id before)
          (result_for test_id now))
        (assess_all baseline current context before now rest)

  unfoldable pub without_baseline :
      String → String → List TestResult → Result String (List RegressionAssessment)
  without_baseline baseline_id current_id [] = ok []
  without_baseline baseline_id current_id (r ∷ rest) =
      add_assessment (missing_baseline baseline_id current_id r)
        (without_baseline baseline_id current_id rest)

  abbrev pub report :
      String
      → String
      → ComparabilityStatus
      → String
      → Result String (List RegressionAssessment)
      → Result String RunRegressionReport
  report baseline_id current_id status reason (raised e) = raised e
  report baseline_id current_id status reason (ok assessments) = ok (record {
    baseline_run_id = baseline_id;
    current_run_id = current_id;
    comparability = status;
    reason = reason;
    assessments = assessments;
  })

  unfoldable pub compare_found :
      RunService
      → String
      → String
      → Option String
      → Option String
      → Option Run
      → Option Run
      → Result String RunRegressionReport
  compare_found s baseline_id current_id baseline_class current_class none current =
      report baseline_id current_id insufficient_context "explicit baseline Run does not exist"
        (without_baseline baseline_id current_id (latest_results s current))
  compare_found s baseline_id current_id baseline_class current_class (some baseline) none =
      report baseline_id current_id insufficient_context "current Run does not exist" (ok [])
  compare_found s baseline_id current_id baseline_class current_class (some baseline)
        (some current) =
      let context = compare_context baseline current baseline_class current_class in
      report baseline_id current_id context.0 context.1 (
        assess_all baseline current context (latest_results s (some baseline))
          (latest_results s (some current)) (test_ids baseline current))

  unfoldable pub compare_runs :
      RunService
      → String
      → String
      → Option String
      → Option String
      → Result String RunRegressionReport
  compare_runs s baseline_id current_id baseline_class current_class =
      compare_found s baseline_id current_id baseline_class current_class
        (find_row run_key baseline_id s.runs) (find_row run_key current_id s.runs)
