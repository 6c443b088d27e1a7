-- ===== src/Examples/RegressionExamples.antt =====
-- The theorems on the comparison of Runs at two Runs of one test.
use mathlib.Core.List.{Perm}
use wifi_validation_framewor.Prelude.{
  Option, String, without_repeats, ◌≡◌, ◌↔◌, refl, true, false, not, ◌&&◌, none, some, List, [],
  ◌∷◌, map, any, all, ok, find_row, sort_by, insert_by, text_le,
}
use wifi_validation_framewor.Domain.Status.{RegressionClass, Severity, Criticality, is_pass}
use wifi_validation_framewor.Domain.Entities.{Run, Attempt}
use wifi_validation_framewor.Registry.{TestDefinition, get, resolve}
use wifi_validation_framewor.Runs.Store.{RunService}
use wifi_validation_framewor.Runs.Repositories.{attempts_of, by_number, insert_numbered, results_of}
use wifi_validation_framewor.Regression.{
  DeltaOps, FlakyTestHistory, flaky, transitions, RegressionAssessment, RunRegressionReport,
  insufficient_context, compare_context, suite_signature, is_missing, aggregate, is_unvalidated,
  is_soft, is_improved, is_good,
}
use wifi_validation_framewor.Regression.Assessment.{compare_registered, is_fail, is_broken}
use wifi_validation_framewor.Regression.Runs.{
  Comparison, is_comparable, latest_results, result_for, test_ids, assess, assess_all,
  context_blocked, compare_found, compare_runs,
}
use wifi_validation_framewor.Regression.Decisions.{
  compare_context-comparable, aggregate_lem, compare_registered-regression, class_is, is_regression,
}
use wifi_validation_framewor.Regression.Coverage.{CoversBoth, compare_runs-CoversBoth}
use wifi_validation_framewor.Regression.Unregistered.{compare_runs-unknown, gives_report}
use wifi_validation_framewor.Examples.Data.{
  whole_numbers, completed_run, completed_service, first_attempt, passed_result, failed_result,
}

abbrev second_run : Run
second_run = record completed_run { run_id = "r2"; display_id = "WIFI-2" }

abbrev second_attempt : Attempt
second_attempt = record first_attempt { attempt_id = "a2"; run_id = "r2" }

abbrev two_runs : RunService
two_runs = record completed_service {
  runs = completed_run ∷ second_run ∷ [];
  attempts = first_attempt ∷ second_attempt ∷ [];
  test_results = some (passed_result ∷ failed_result ∷ []);
}

abbrev ops : DeltaOps
ops = record {
  floats = whole_numbers;
  div = λ a b. a;
  neg = λ a. 0;
  round_2 = λ a. a;
  is_zero = λ a. false;
  to_float = λ j. none;
  lower_is_better = λ u. true;
}

abbrev ping : TestDefinition
ping = record {
  test_id = "t1";
  node_id = "tests/one.py";
  version = "1.0";
  category = "functional";
  protocol = "ICMP";
  severity = Severity.high;
  criticality = Criticality.blocking;
  requires = [];
  metric_definitions = [];
  measurement_policies = [];
  decision_metric = none;
}

abbrev comparison : Comparison
comparison = record {
  ops = ops;
  registry = ping ∷ [];
  fallback_id = λ n. n;
  default_threshold = 20;
  overrides = [];
  history = [];
}

abbrev no_history : FlakyTestHistory
no_history = record {
  test_id = "t1";
  observations = [];
  pass_count = 0;
  fail_count = 0;
  transition_count = 0;
  flagged = false;
  reason = "stable supplied history";
}

abbrev expected : RunRegressionReport
expected = record {
  baseline_run_id = "r1";
  current_run_id = "r2";
  comparability = insufficient_context;
  reason = "environment class is required for regression comparability";
  assessments =
      record {
        test_id = "t1";
        node_id = "tests/one.py";
        baseline_run_id = "r1";
        current_run_id = "r2";
        baseline_status = "PASS";
        current_status = "FAIL";
        classification = RegressionClass.no_baseline;
        metric_comparisons = [];
        flaky_history = no_history;
        reason = "environment class is required for regression comparability";
      }
      ∷ [];
}

compared : compare_runs comparison two_runs "r1" "r2" none none ≡ ok expected
unfolding compare_runs compare_found compare_context suite_signature sort_by insert_by text_le
    latest_results attempts_of by_number insert_numbered results_of test_ids without_repeats get
    resolve find_row assess_all assess context_blocked result_for flaky transitions
compared = refl

compare_runs-CoversBoth_example :
    CoversBoth comparison completed_run second_run
      (map (λ (x : RegressionAssessment). x.test_id) expected.assessments)
unfolding find_row
compare_runs-CoversBoth_example =
    compare_runs-CoversBoth comparison two_runs "r1" "r2" none none completed_run second_run
      expected refl refl compared

abbrev unregistered : Comparison
unregistered = record comparison { registry = [] }

compare_runs-unknown_example :
    gives_report (compare_runs unregistered two_runs "r1" "r2" none none) ≡ false
unfolding find_row test_ids without_repeats sort_by insert_by text_le get resolve
compare_runs-unknown_example =
    compare_runs-unknown unregistered two_runs "r1" "r2" none none completed_run second_run "t1"
      refl refl refl refl

compare_context-comparable_example :
    (is_comparable (compare_context completed_run second_run (some "lab") (some "lab")).0 ≡ true)
    ↔ ((completed_run.validation_profile ≡ second_run.validation_profile)
        × (completed_run.lab_id ≡ second_run.lab_id)
        × Perm completed_run.test_definition_versions second_run.test_definition_versions
        × (is_missing (some "lab") ≡ false)
        × (◌≡◌ {A = Option String} (some "lab") (some "lab")))
compare_context-comparable_example =
    compare_context-comparable completed_run second_run (some "lab") (some "lab") refl

abbrev classes : List RegressionClass
classes =
    RegressionClass.improved ∷ RegressionClass.unchanged ∷ RegressionClass.soft_regression ∷ []

aggregate_lem_example :
    (is_unvalidated (aggregate classes) ≡ any is_unvalidated classes)
    × (is_soft (aggregate classes) ≡ (not (any is_unvalidated classes) && any is_soft classes))
    × (is_improved (aggregate classes) ≡ (any is_improved classes && all is_good classes))
aggregate_lem_example = aggregate_lem classes

compare_registered-regression_example :
    (class_is is_regression
        (compare_registered ops (ping ∷ []) 20 [] second_run passed_result failed_result no_history)
      ≡ true)
    ↔ ((passed_result.test_version ≡ failed_result.test_version)
        × (is_pass passed_result.status ≡ true)
        × (is_fail failed_result.status ≡ true)
        × (is_broken failed_result.evidence_state ≡ false))
compare_registered-regression_example =
    compare_registered-regression ops (ping ∷ []) 20 [] second_run passed_result failed_result
      no_history
