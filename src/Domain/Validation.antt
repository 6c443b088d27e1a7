-- ===== src/Domain/Validation.antt =====
-- The checks of the entities' constructors (`__post_init__`) and the two methods that extend an
-- aggregate, `Attempt.add_result` and `Run.add_attempt`, of lib/domain/models.py. A message is kept
-- without the values that the source writes into it.
use wifi_validation_framewor.Prelude.{
  ◌+◌, String, Bool, true, false, not, ◌&&◌, Option, none, some, List, [], ◌∷◌, ◌++◌, map, ◌==◌,
  ltb, ◌is◌, if◌then◌else◌, Result, ok, raised, any, all, contains, length, is_blank,
}
use wifi_validation_framewor.Domain.Status.{
  TestResultStatus, EvidenceState, is_passing, is_unfinished,
}
use wifi_validation_framewor.Domain.Json.{is_finite}
use wifi_validation_framewor.Domain.Entities.{
  Sample, Metric, TestResult, Attempt, Run, LifecycleEvent, Baseline,
}

-- `domain` is DomainValidationError, `conflict` RepositoryConflictError, and `integrity` an
-- IntegrityError of the database.
pub data Error : Type 0 where
  domain : String → Error
  conflict : String → Error
  integrity : Error

-- `_require_text` over the named fields of an entity.
unfoldable pub any_blank : List String → Bool
unfolding is_blank
any_blank values = any is_blank values

unfoldable pub check_sample : Sample → Result Error Sample
unfolding is_finite is_blank
check_sample s =
    if not (is_finite s.value)
    then raised (domain "sample value must be finite")
    else if is_blank s.status
    then raised (domain "sample status must not be empty")
    else ok s

unfoldable pub check_metric : Metric → Result Error Metric
unfolding is_blank
check_metric m =
    if is_blank m.name
    then raised (domain "metric name must not be empty")
    else if is_blank m.unit
    then raised (domain "metric unit must not be empty")
    else if m.authoritative && length m.samples == 0
    then raised (domain "authoritative metric requires at least one sample")
    else ok m

-- The second test of `TestResult.__post_init__`.
unfoldable pub passes_early : TestResult → Bool
passes_early r =
    is_passing r.status && not (r.provenance is "LEGACY_IMPORTED") && is_unfinished r.evidence_state

unfoldable pub unvalidated_complete : TestResultStatus → EvidenceState → Bool
unvalidated_complete TestResultStatus.unvalidated EvidenceState.complete = true
unvalidated_complete _ _ = false

unfoldable pub check_result : TestResult → Result Error TestResult
unfolding any_blank passes_early unvalidated_complete
check_result r =
    if any_blank (
      r.test_result_id ∷ r.run_id ∷ r.attempt_id ∷ r.test_id ∷ r.node_id ∷ r.test_version
      ∷ r.provenance ∷ [])
    then raised (domain "must not be empty")
    else if passes_early r
    then raised
        (domain "PASS/XPASS cannot be recorded before required evidence is complete and valid")
    else if unvalidated_complete r.status r.evidence_state
    then raised (domain "UNVALIDATED result must explain an evidence/environment problem")
    else ok r

unfoldable pub check_attempt : Attempt → Result Error Attempt
unfolding any_blank
check_attempt a =
    if any_blank (a.attempt_id ∷ a.run_id ∷ [])
    then raised (domain "must not be empty")
    else if ltb a.number 1
    then raised (domain "attempt number must start at 1")
    else ok a

-- `set(selected) == set(versions)`.
unfoldable pub same_tests : List String → List (String × String) → Bool
same_tests selected versions =
    let keys = map (λ (p : String × String). p.0) versions in
    all (contains keys) selected && all (contains selected) keys

unfoldable pub check_source : String → Option String → Result Error (Unit {0})
unfolding is_blank
check_source run_id none = ok tt
check_source run_id (some source) =
    if is_blank source
    then raised (domain "must not be empty")
    else if source is run_id
    then raised (domain "a Run cannot be its own source Run")
    else ok tt

unfoldable pub check_run : Run → Result Error Run
unfolding any_blank same_tests check_source
check_run r =
    if any_blank (
      r.run_id ∷ r.display_id ∷ r.firmware_version ∷ r.lab_id ∷ r.validation_profile
      ∷ r.configuration_hash ∷ r.repository_commit ∷ r.provenance ∷ [])
    then raised (domain "must not be empty")
    else elim (check_source r.run_id r.source_run_id) [
      | raised e ↦ raised e
      | ok _ ↦
          if length r.selected_tests == 0
          then raised (domain "run must contain at least one selected test")
          else if same_tests r.selected_tests r.test_definition_versions
          then ok r
          else raised (domain "every selected test must have a test definition version")
    ]

unfoldable pub check_event : LifecycleEvent → Result Error LifecycleEvent
unfolding any_blank
check_event e =
    if any_blank (e.event_id ∷ e.run_id ∷ e.event_type ∷ [])
    then raised (domain "must not be empty")
    else ok e

unfoldable pub check_baseline : Baseline → Result Error Baseline
unfolding any_blank
check_baseline b =
    if any_blank
      (b.baseline_id ∷ b.name ∷ b.baseline_run_id ∷ b.status ∷ b.promoted_by ∷ b.provenance ∷ [])
    then raised (domain "must not be empty")
    else ok b

-- `Attempt.add_result`: the attempt and what the call raised.
unfoldable pub add_result : Attempt → TestResult → Result Error Attempt
add_result a r =
    if r.run_id is a.run_id && r.attempt_id is a.attempt_id
    then (if any (λ (item : TestResult). item.test_result_id is r.test_result_id) a.results
        then raised (domain "duplicate test result id in attempt")
        else ok (record a { results = a.results ++ r ∷ [] }))
    else raised (domain "test result does not belong to this attempt")

-- `Run.add_attempt`.
unfoldable pub add_attempt : Run → Attempt → Result Error Run
add_attempt r a =
    if a.run_id is r.run_id
    then (if a.number == length r.attempts + 1
        then ok (record r { attempts = r.attempts ++ a ∷ [] })
        else raised (domain "attempt number must be"))
    else raised (domain "attempt does not belong to this run")
