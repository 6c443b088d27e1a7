-- ===== src/Regression.antt =====
-- The comparison of two Runs: lib/services/regression_intelligence.py and lib/domain/regression.py.
-- Left out are the dimensions of an assessment, which only label it; a test that is not registered has
-- none, and raises.
pub mod Assessment
pub mod Runs
pub mod Suites
pub mod Decisions
pub mod Coverage
pub mod Unregistered
use wifi_validation_framewor.Prelude.{
  ℕ, ◌+◌, String, Bool, true, false, not, ◌&&◌, ◌||◌, Option, none, some, List, [], ◌∷◌, ◌++◌, map,
  ◌is◌, if◌then◌else◌, ltb, ◌==◌, Result, ok, raised, any, all, filter, contains, sort_by, length,
}
use wifi_validation_framewor.Domain.Status.{RegressionClass}
use wifi_validation_framewor.Domain.Json.{Json, Fields, Float, null, obj, entry}
use wifi_validation_framewor.Domain.Entities.{Run}
use wifi_validation_framewor.Statistics.{FloatOps}

pub data ComparabilityStatus : Type 0 where
  comparable incompatible insufficient_context : ComparabilityStatus

pub record FlakyTestHistory : Type 0 where
  pub test_id : String
  pub observations : List String
  pub pass_count : ℕ
  pub fail_count : ℕ
  pub transition_count : ℕ
  pub flagged : Bool
  pub reason : String

pub record RegressionMetricComparison : Type 0 where
  pub metric_name : String
  pub unit : String
  pub baseline_value : Option Float
  pub current_value : Option Float
  pub delta_pct : Option Float
  pub threshold_pct : Option Float
  pub classification : RegressionClass
  pub reason : String

pub record RegressionAssessment : Type 0 where
  pub test_id : String
  pub node_id : String
  pub baseline_run_id : String
  pub current_run_id : String
  pub baseline_status : String
  pub current_status : String
  pub classification : RegressionClass
  pub metric_comparisons : List RegressionMetricComparison
  pub flaky_history : FlakyTestHistory
  pub reason : String

pub record RunRegressionReport : Type 0 where
  pub baseline_run_id : String
  pub current_run_id : String
  pub comparability : ComparabilityStatus
  pub reason : String
  pub assessments : List RegressionAssessment

-- The arithmetic of a delta, and `float(value)`, where none is an exception.
pub record DeltaOps : Type 0 where
  pub floats : FloatOps
  pub div : Float → Float → Float
  pub neg : Float → Float
  pub round_2 : Float → Float
  pub is_zero : Float → Bool
  pub to_float : Json → Option Float
  pub lower_is_better : String → Bool

-- `dict.get` where the value is a mapping; none also for the value None.
abbrev pub get_json : String → Json → Option Json
unfolding entry
get_json k (obj fs) = entry k fs
get_json k _ = none

abbrev pub get_in : String → Option Json → Option Json
get_in k none = none
get_in k (some j) = get_json k j

abbrev pub not_null : Option Json → Option Json
not_null (some null) = none
not_null v = v

abbrev pub or_value : Option Json → Option Json → Option Json
or_value none later = later
or_value (some v) later = some v

-- 100.0.
abbrev pub hundred : Float
hundred = 0x4059000000000000

module _ (o : DeltaOps) where
  abbrev pub checked_threshold : Option Float → Result String Float
  checked_threshold none = raised "could not convert to float"
  checked_threshold (some x) =
      if o.floats.le x 0 then raised "invalid regression threshold" else ok x

  -- `_threshold`, with the service's default.
  unfoldable pub threshold : Float → Run → String → String → Result String Float
  threshold default run test_id metric_name =
      let regression = entry "regression" run.resolved_config in
      let per_test = get_in test_id (get_in "thresholds" regression) in
      elim (or_value (not_null (get_in metric_name per_test))
        (not_null (get_in "default_threshold_pct" regression))) [
          | none ↦ ok default
          | some v ↦ checked_threshold (o.to_float v)
        ]

  -- `_delta`; 0.0 is 0.
  unfoldable pub delta : Float → Float → String → Float
  delta base current unit =
      if o.is_zero base
      then (if o.is_zero current then 0 else hundred)
      else if o.lower_is_better unit
      then o.round_2 (o.floats.mul (o.div (o.floats.sub current base) base) hundred)
      else o.round_2 (o.floats.mul (o.div (o.floats.sub base current) base) hundred)

  -- The two tests on the delta.
  unfoldable pub classify : Float → Float → RegressionClass
  classify change limit =
      if o.floats.le limit change
      then RegressionClass.soft_regression
      else if o.floats.le change (o.neg limit)
      then RegressionClass.improved
      else RegressionClass.unchanged

abbrev pub is_unvalidated : RegressionClass → Bool
is_unvalidated RegressionClass.unvalidated = true
is_unvalidated _ = false

abbrev pub is_soft : RegressionClass → Bool
is_soft RegressionClass.soft_regression = true
is_soft _ = false

abbrev pub is_improved : RegressionClass → Bool
is_improved RegressionClass.improved = true
is_improved _ = false

abbrev pub is_good : RegressionClass → Bool
is_good RegressionClass.improved = true
is_good RegressionClass.unchanged = true
is_good _ = false

-- `_aggregate_metric_classification`.
unfoldable pub aggregate : List RegressionClass → RegressionClass
aggregate values =
    if length values == 0
    then RegressionClass.unchanged
    else if any is_unvalidated values
    then RegressionClass.unvalidated
    else if any is_soft values
    then RegressionClass.soft_regression
    else if any is_improved values && all is_good values
    then RegressionClass.improved
    else RegressionClass.unchanged

-- How often neighbours differ.
unfoldable pub transitions : List String → ℕ
transitions [] = 0
transitions (x ∷ []) = 0
transitions (x ∷ y ∷ rest) =
    let later = transitions (y ∷ rest) in if x is y then later else later + 1

abbrev pub times : String → List String → ℕ
times v observations = length (filter (λ o. o is v) observations)

-- `_flaky`; empty observations are dropped.
unfoldable pub flaky : String → List String → FlakyTestHistory
flaky test_id observations =
    let values = filter (λ o. not (o is "")) observations in
    let flagged = ltb 0 (times "PASS" values) && ltb 0 (times "FAIL" values) in
    record {
      test_id = test_id;
      observations = values;
      pass_count = times "PASS" values;
      fail_count = times "FAIL" values;
      transition_count = transitions values;
      flagged = flagged;
      reason =
          if flagged
          then "mixed PASS/FAIL history under supplied observations"
          else "stable supplied history";
    }

abbrev pub same_pairs : List (String × String) → List (String × String) → Bool
same_pairs [] [] = true
same_pairs [] (q ∷ qs) = false
same_pairs (p ∷ ps) [] = false
same_pairs (p ∷ ps) (q ∷ qs) = p.0 is q.0 && p.1 is q.1 && same_pairs ps qs

-- `_suite_signature`: the names are distinct, so the order is that of the names.
unfoldable pub suite_signature : Run → List (String × String)
suite_signature run = sort_by (λ (p : String × String). p.0) run.test_definition_versions

-- `not environment_class`.
abbrev pub is_missing : Option String → Bool
is_missing none = true
is_missing (some c) = c is ""

abbrev pub same_class : Option String → Option String → Bool
same_class none none = true
same_class none (some d) = false
same_class (some c) none = false
same_class (some c) (some d) = c is d

-- `_compare_context`; the two classes are left out of the last reason.
unfoldable pub compare_context :
    Run → Run → Option String → Option String → ComparabilityStatus × String
compare_context baseline current baseline_class current_class =
    if not (baseline.validation_profile is current.validation_profile)
    then (incompatible, "validation profiles differ")
    else if not (baseline.lab_id is current.lab_id)
    then (incompatible, "lab identities differ")
    else if not (same_pairs (suite_signature baseline) (suite_signature current))
    then (incompatible, "test selection or definition versions differ")
    else if is_missing baseline_class || is_missing current_class
    then (insufficient_context, "environment class is required for regression comparability")
    else if not (same_class baseline_class current_class)
    then (incompatible, "environment classes differ")
    else (comparable, "Run contexts are comparable")
