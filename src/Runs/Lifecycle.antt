-- ===== src/Runs/Lifecycle.antt =====
-- The life cycle of a Run: the table of transitions and the methods `transition`, `_finish`,
-- `_require_run` and `_event` of lib/services/run_service.py.
use wifi_validation_framewor.Prelude.{
  String, Bool, true, false, not, Option, none, some, List, [], ◌∷◌, ◌is◌, if◌then◌else◌, pure,
  lift, require, reject_if, ◌>>=◌, ◌>>◌, for_each, last?,
}
use wifi_validation_framewor.Domain.Status.{
  RunLifecycle, queued, preparing, lab_health_check, running, completed, failed, lab_failed,
  cancelled, aborted, BusinessOutcome, FailureClass, failure_class_value,
}
use wifi_validation_framewor.Domain.Entities.{Time, Run, Attempt}
use wifi_validation_framewor.Domain.Validation.{domain, check_event}
use wifi_validation_framewor.Runs.Store.{Action, clock, id_generator}
use wifi_validation_framewor.Runs.Repositories.{
  get_run, update_run, list_attempts, update_attempt, append_event,
}

-- `target in _ALLOWED_TRANSITIONS[source]`.
abbrev pub allowed : RunLifecycle → RunLifecycle → Bool
allowed queued preparing = true
allowed queued cancelled = true
allowed queued aborted = true
allowed queued lab_failed = true
allowed preparing lab_health_check = true
allowed preparing running = true
allowed preparing failed = true
allowed preparing lab_failed = true
allowed preparing cancelled = true
allowed preparing aborted = true
allowed lab_health_check running = true
allowed lab_health_check lab_failed = true
allowed lab_health_check cancelled = true
allowed lab_health_check aborted = true
allowed running completed = true
allowed running failed = true
allowed running lab_failed = true
allowed running cancelled = true
allowed running aborted = true
allowed _ _ = false

-- `lifecycle in _terminal_states()`.
abbrev pub is_terminal : RunLifecycle → Bool
is_terminal completed = true
is_terminal failed = true
is_terminal lab_failed = true
is_terminal cancelled = true
is_terminal aborted = true
is_terminal _ = false

-- f"RUN_{target.value}".
abbrev pub entered_event : RunLifecycle → String
entered_event queued = "RUN_QUEUED"
entered_event preparing = "RUN_PREPARING"
entered_event lab_health_check = "RUN_LAB_HEALTH_CHECK"
entered_event running = "RUN_RUNNING"
entered_event completed = "RUN_COMPLETED"
entered_event failed = "RUN_FAILED"
entered_event lab_failed = "RUN_LAB_FAILED"
entered_event cancelled = "RUN_CANCELLED"
entered_event aborted = "RUN_ABORTED"

unfoldable pub require_run : String → Action Run
require_run run_id = do found ← get_run run_id; require (domain "Run not found") found

unfoldable pub event :
    String → String → Time → Option String → List (String × Option String) → Action (Unit {0})
event run_id event_type occurred_at attempt_id details = do
  event_id ← id_generator
  e ← lift (
      check_event (record {
        event_id = event_id;
        run_id = run_id;
        event_type = event_type;
        occurred_at = occurred_at;
        attempt_id = attempt_id;
        test_result_id = none;
        details = details;
      }))
  append_event e

unfoldable pub transition : String → RunLifecycle → Action Run
transition run_id target = do
  run ← require_run run_id
  reject_if (not (allowed run.lifecycle target)) (domain "invalid Run lifecycle transition")
  let run' = record run { lifecycle = target }
  update_run run'
  now ← clock
  event run_id (entered_event target) now none []
  pure run'

abbrev pub is_unset : Option Time → Bool
is_unset none = true
is_unset (some _) = false

-- The loop of `_finish` over the attempts.
unfoldable pub close_attempt : Time → Attempt → Action (Unit {0})
close_attempt now a =
    if is_unset a.completed_at
    then update_attempt (record a { completed_at = some now })
    else pure tt

abbrev is_text : Option String → Bool
is_text none = false
is_text (some t) = if t is "" then false else true

abbrev pub finish_details : Option FailureClass → Option String → List (String × Option String)
finish_details (some c) reason =
    ("failure_class", some (failure_class_value c)) ∷ ("failure_reason", reason) ∷ []
finish_details none reason =
    if is_text reason then ("failure_class", none) ∷ ("failure_reason", reason) ∷ [] else []

abbrev pub attempt_id_of : Option Attempt → Option String
attempt_id_of none = none
attempt_id_of (some a) = some a.attempt_id

abbrev pub finished :
    Run → RunLifecycle → BusinessOutcome → Option FailureClass → Option String → Time → Run
finished run target outcome failure_class failure_reason now = record run {
  lifecycle = target;
  outcome = some outcome;
  failure_class = failure_class;
  failure_reason = failure_reason;
  completed_at = some now;
}

unfoldable pub finish :
    String
    → RunLifecycle
    → BusinessOutcome
    → String
    → Option FailureClass
    → Option String
    → Action Run
finish run_id target outcome event_type failure_class failure_reason = do
  run ← require_run run_id
  reject_if (not (allowed run.lifecycle target)) (domain "invalid Run lifecycle transition")
  now ← clock
  let run' = finished run target outcome failure_class failure_reason now
  update_run run'
  attempts ← list_attempts run_id
  for_each (close_attempt now) attempts
  event run_id event_type now (attempt_id_of (last? attempts))
      (finish_details failure_class failure_reason)
  pure run'
