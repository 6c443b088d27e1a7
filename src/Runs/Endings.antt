-- ===== src/Runs/Endings.antt =====
-- The methods of lib/services/run_service.py that end a Run, and the request to cancel one.
use Prim.Native.String.{◌++◌ as text_append}
use wifi_validation_framewor.Prelude.{
  String, Bool, true, false, not, Option, none, some, [], ◌∷◌, ◌is◌, if◌then◌else◌, pure, reject_if,
  ◌>>=◌, ◌>>◌, any,
}
use wifi_validation_framewor.Domain.Status.{
  completed, failed, lab_failed, cancelled, aborted, BusinessOutcome, FailureClass, is_validated,
  same_outcome,
}
use wifi_validation_framewor.Domain.Entities.{Run, LifecycleEvent}
use wifi_validation_framewor.Domain.Validation.{domain}
use wifi_validation_framewor.Runs.Store.{Action, clock}
use wifi_validation_framewor.Runs.Repositories.{list_events}
use wifi_validation_framewor.Runs.Lifecycle.{require_run, finish, event, is_terminal}
use wifi_validation_framewor.Runs.Outcome.{derive_business_outcome}

-- `outcome is not None and outcome is not derived_outcome`.
abbrev pub overrides : Option BusinessOutcome → BusinessOutcome → Bool
overrides none derived = false
overrides (some outcome) derived = not (same_outcome outcome derived)

unfoldable pub complete_run : String → Option BusinessOutcome → Action Run
complete_run run_id outcome = do
  derived ← derive_business_outcome run_id
  reject_if (overrides outcome derived)
      (domain "caller-supplied Run outcome cannot override persisted test/evidence facts")
  finish run_id completed derived "RUN_COMPLETED" none none

abbrev pub downgraded : BusinessOutcome → BusinessOutcome
downgraded outcome = if is_validated outcome then BusinessOutcome.unvalidated else outcome

-- The outcome of a failed Run by its failure class.
unfoldable pub failure_outcome : String → Option FailureClass → Action BusinessOutcome
failure_outcome run_id (some FailureClass.product_failed) = pure BusinessOutcome.rejected
failure_outcome run_id none = do derived ← derive_business_outcome run_id; pure (downgraded derived)
failure_outcome run_id _ = pure BusinessOutcome.unvalidated

unfoldable pub fail_run : String → Option String → Option FailureClass → Action Run
fail_run run_id reason failure_class = do
  outcome ← failure_outcome run_id failure_class
  finish run_id failed outcome "RUN_FAILED" failure_class reason

unfoldable pub lab_fail_run : String → Option String → Action Run
lab_fail_run run_id reason =
    finish run_id lab_failed BusinessOutcome.unvalidated "RUN_LAB_FAILED"
      (some FailureClass.lab_failed) reason

unfoldable pub cancel_run : String → String → String → Action Run
cancel_run run_id actor reason =
    finish run_id cancelled BusinessOutcome.unvalidated "RUN_CANCELLED"
      (some FailureClass.cancelled) (some (text_append actor (text_append ": " reason)))

unfoldable pub timeout_run : String → String → Action Run
timeout_run run_id reason =
    finish run_id aborted BusinessOutcome.unvalidated "RUN_TIMED_OUT" (some FailureClass.timed_out)
      (some reason)

unfoldable pub runner_disconnected : String → String → Action Run
runner_disconnected run_id reason =
    finish run_id aborted BusinessOutcome.unvalidated "RUN_RUNNER_DISCONNECTED"
      (some FailureClass.runner_disconnected) (some reason)

unfoldable pub worker_crashed : String → String → Action Run
worker_crashed run_id reason =
    finish run_id aborted BusinessOutcome.unvalidated "RUN_WORKER_CRASHED"
      (some FailureClass.worker_crashed) (some reason)

unfoldable pub abort_run : String → Option String → Action Run
abort_run run_id reason =
    finish run_id aborted BusinessOutcome.unvalidated "RUN_ABORTED" (some FailureClass.aborted)
      reason

unfoldable pub cancellation_requested : String → Action Bool
cancellation_requested run_id = do
  events ← list_events run_id
  pure (any (λ (e : LifecycleEvent). e.event_type is "RUN_CANCEL_REQUESTED") events)

unfoldable pub note_request : Bool → String → String → String → Action (Unit {0})
note_request true run_id actor reason = pure tt
note_request false run_id actor reason = do
  now ← clock
  event run_id "RUN_CANCEL_REQUESTED" now none
      (("actor", some actor) ∷ ("reason", some reason) ∷ [])

unfoldable pub request_cancel : String → String → String → Action Run
request_cancel run_id actor reason = do
  run ← require_run run_id
  reject_if (is_terminal run.lifecycle) (domain "cannot request cancellation for a terminal Run")
  requested ← cancellation_requested run_id
  note_request requested run_id actor reason
  pure run
