-- ===== src/Runs/Outcome.antt =====
-- `_latest_attempt_results`, `_selected_result_map` and `derive_business_outcome` of
-- lib/services/run_service.py.
use wifi_validation_framewor.Prelude.{
  String, Bool, true, false, not, ◌&&◌, ◌||◌, Option, none, some, List, [], ◌∷◌, ◌is◌,
  if◌then◌else◌, ltb, ◌==◌, pure, reads, ◌>>=◌, all, filter, distinct, length, head?, map,
}
use wifi_validation_framewor.Domain.Status.{
  TestResultStatus, Criticality, BusinessOutcome, EnvironmentHealthStatus, FailureClass, is_passing,
  is_unfinished,
}
use wifi_validation_framewor.Domain.Entities.{Run, Attempt, TestResult}
use wifi_validation_framewor.Runs.Store.{Action}
use wifi_validation_framewor.Runs.Repositories.{attempts_of, results_of}
use wifi_validation_framewor.Runs.Lifecycle.{require_run}

-- `max(attempts, key=lambda item: item.number)`: the first of the largest.
unfoldable pub latest_from : Attempt → List Attempt → Attempt
latest_from best [] = best
latest_from best (a ∷ rest) = latest_from (if ltb best.number a.number then a else best) rest

unfoldable pub latest_attempt : List Attempt → Option Attempt
unfolding latest_from
latest_attempt [] = none
latest_attempt (a ∷ rest) = some (latest_from a rest)

unfoldable pub results_in : Option (List TestResult) → List Attempt → List TestResult
unfolding latest_attempt results_of
results_in none attempts = []
results_in (some rows) attempts = elim (latest_attempt attempts) [
  | none ↦ []
  | some a ↦ results_of a.attempt_id rows
]

unfoldable pub latest_attempt_results : String → Action (List TestResult)
latest_attempt_results run_id =
    reads (λ s. results_in s.test_results (attempts_of run_id s.attempts))

-- The identifiers that name a result.
unfoldable pub owners : List String → TestResult → List String
owners selected r = filter (λ i. i is r.node_id || i is r.test_id) selected

abbrev pub is_owned : List String → TestResult → Bool
is_owned selected r = length (owners selected r) == 1

abbrev pub owner_is : Option String → String → Bool
owner_is none i = false
owner_is (some o) i = o is i

-- `matches[identifier]`.
unfoldable pub matches : List String → List TestResult → String → List TestResult
unfolding owners
matches selected results i = filter (λ r. owner_is (head? (owners selected r)) i) results

abbrev pub only : List TestResult → Option TestResult
only [] = none
only (r ∷ []) = some r
only (r ∷ q ∷ rest) = none

abbrev pub keep_pair :
    String
    → Option TestResult
    → Option (List (String × TestResult))
    → Option (List (String × TestResult))
keep_pair i none rest = none
keep_pair i (some r) none = none
keep_pair i (some r) (some rest) = some ((i, r) ∷ rest)

unfoldable pub pair_up :
    List String → List TestResult → List String → Option (List (String × TestResult))
unfolding matches
pair_up selected results [] = some []
pair_up selected results (i ∷ rest) =
    keep_pair i (only (matches selected results i)) (pair_up selected results rest)

-- The dictionary has the order of the selected tests.
unfoldable pub selected_result_map : Run → List TestResult → Option (List (String × TestResult))
unfolding pair_up
selected_result_map run results =
    let selected = run.selected_tests in
    if length selected == 0 || not (distinct selected)
    then none
    else if all (is_owned selected) results
    then pair_up selected results selected
    else none

-- What one round of the loop of `derive_business_outcome` does.
pub data Verdict : Type 0 where
  stop : BusinessOutcome → Verdict
  warn : Verdict
  accept : Verdict

abbrev is_product : Option FailureClass → Bool
is_product (some FailureClass.product_failed) = true
is_product _ = false

-- The tests for a blocking result, and for any other.
abbrev blocking_verdict : TestResultStatus → Verdict
blocking_verdict TestResultStatus.fail = stop BusinessOutcome.rejected
blocking_verdict TestResultStatus.known_failure = stop BusinessOutcome.rejected
blocking_verdict TestResultStatus.blocked = stop BusinessOutcome.rejected
blocking_verdict TestResultStatus.skipped = stop BusinessOutcome.unvalidated
blocking_verdict TestResultStatus.xpass = stop BusinessOutcome.unvalidated
blocking_verdict TestResultStatus.pass = accept
blocking_verdict _ = stop BusinessOutcome.unvalidated

abbrev other_verdict : TestResultStatus → Verdict
other_verdict TestResultStatus.pass = accept
other_verdict _ = warn

abbrev settled_verdict : TestResult → Criticality → Verdict
settled_verdict r Criticality.blocking = blocking_verdict r.status
settled_verdict r _ = other_verdict r.status

abbrev pub is_error : TestResultStatus → Bool
is_error TestResultStatus.error = true
is_error _ = false

abbrev pub is_unvalidated : TestResultStatus → Bool
is_unvalidated TestResultStatus.unvalidated = true
is_unvalidated _ = false

unfoldable pub verdict : TestResult → Verdict
verdict r =
    if is_unvalidated r.status
    then stop BusinessOutcome.unvalidated
    else if is_passing r.status && is_unfinished r.evidence_state
    then stop BusinessOutcome.unvalidated
    else if is_error r.status
    then (if is_product r.failure_class
        then stop BusinessOutcome.rejected
        else stop BusinessOutcome.unvalidated)
    else settled_verdict r r.criticality

-- The loop, with the variable `warning`.
unfoldable pub judge : Bool → List TestResult → BusinessOutcome
judge warning [] =
    if warning then BusinessOutcome.validated_with_warnings else BusinessOutcome.validated
judge warning (r ∷ rest) = elim (verdict r) [
  | stop outcome ↦ outcome
  | warn ↦ judge true rest
  | accept ↦ judge warning rest
]

-- `environment_health in {None, FAILED, UNKNOWN}`.
abbrev pub health_unusable : Option EnvironmentHealthStatus → Bool
health_unusable none = true
health_unusable (some EnvironmentHealthStatus.failed) = true
health_unusable (some EnvironmentHealthStatus.unknown) = true
health_unusable _ = false

unfoldable pub outcome_of : Run → List TestResult → BusinessOutcome
outcome_of run results =
    if health_unusable run.environment_health
    then BusinessOutcome.unvalidated
    else elim (selected_result_map run results) [
      | none ↦ BusinessOutcome.unvalidated
      | some pairs ↦ judge false (map (λ (p : String × TestResult). p.1) pairs)
    ]

unfoldable pub derive_business_outcome : String → Action BusinessOutcome
derive_business_outcome run_id = do
  run ← require_run run_id
  results ← latest_attempt_results run_id
  pure (outcome_of run results)
