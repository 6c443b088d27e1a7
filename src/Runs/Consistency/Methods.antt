-- ===== src/Runs/Consistency/Methods.antt =====
-- The methods of lib/services/run_service.py keep the stored Runs consistent.
use wifi_validation_framewor.Prelude.{
  ◌≡◌, refl, String, Bool, true, false, Option, none, some, [], arith, pure, ◌>>=◌, ◌>>◌, head?,
  All-find_row, Respects, Respects-bind_at, Respects-bind,
}
use wifi_validation_framewor.Domain.Status.{
  RunLifecycle, running, preparing, lab_health_check, BusinessOutcome, FailureClass,
  EnvironmentHealthStatus, is_validated,
}
use wifi_validation_framewor.Domain.Entities.{Run, Attempt, Time}
use wifi_validation_framewor.Runs.Store.{clock}
use wifi_validation_framewor.Runs.Repositories.{run_key, update_run, list_attempts}
use wifi_validation_framewor.Runs.Lifecycle.{
  is_terminal, event, transition, finish, finished, attempt_id_of,
}
use wifi_validation_framewor.Runs.Health.{
  start_attempt, start_run_after_health, start_run, prepare_if, begin_lab_health_check, worsen_if,
  is_worse, record_environment_health,
}
use wifi_validation_framewor.Runs.Promotion.{is_completed}
use wifi_validation_framewor.Runs.Advance.Quiet.{reject_if-Respects_at}
use wifi_validation_framewor.Runs.Advance.Methods.{not_terminal}
use wifi_validation_framewor.Runs.Advance.Transition.{transition-ok}
use wifi_validation_framewor.Runs.Consistency.{
  has_outcome, claims_validated, IsConsistent, Keeps, Keeps-preorder, Keeps-same, quiet_rules,
  clock-Keeps, get_run-Keeps, get_attempt-Keeps, list_events-Keeps, insert_attempt-Keeps,
  insert_result-Keeps, require_run-Keeps, close_attempt-Keeps, update_run-Keeps, insert_run-Keeps,
  require_run-Keeps_at,
}

pub ruleset method_rules = (
  quiet_rules, get_run-Keeps, get_attempt-Keeps, list_events-Keeps, insert_attempt-Keeps,
  insert_result-Keeps, require_run-Keeps, close_attempt-Keeps, update_run-Keeps,
)

-- A change between states that are not terminal.
moved-IsConsistent :
    (run : Run) (target : RunLifecycle)
    → is_terminal run.lifecycle ≡ false
    → is_terminal target ≡ false
    → IsConsistent run
    → IsConsistent (record run { lifecycle = target })
moved-IsConsistent run target live quiet h = record {
  outcome = cc (h.outcome, live, quiet);
  end = cc (h.end, live, quiet);
  validated = λ v. ground (arith, h.outcome, live);
}

pub transition-Keeps :
    (k : String) (target : RunLifecycle)
    → is_terminal target ≡ false
    → Respects Keeps (transition k target)
unfolding transition
transition-Keeps k target quiet = record {
  at = λ s. require_run-Keeps_at k _ s λ run stored h.
      reject_if-Respects_at Keeps-preorder _ _ _ s λ pass.
        (Respects-bind Keeps-preorder (update_run (record run { lifecycle = target })) _
            (update_run-Keeps (record run { lifecycle = target })
              (moved-IsConsistent run target (not_terminal run.lifecycle target pass) quiet h))
            (λ _. search method_rules)).at
          s;
}

finished-IsConsistent :
    (run : Run) (target : RunLifecycle) (o : BusinessOutcome) (c : Option FailureClass)
    (reason : Option String) (now : Time)
    → is_terminal target ≡ true
    → (is_validated o ≡ true → is_completed target ≡ true)
    → IsConsistent (finished run target o c reason now)
finished-IsConsistent run target o c reason now end v = record {
  outcome = cc end;
  end = cc end;
  validated = v;
}

pub finish-Keeps :
    (k : String) (target : RunLifecycle) (o : BusinessOutcome) (t : String)
    (c : Option FailureClass) (reason : Option String)
    → is_terminal target ≡ true
    → (is_validated o ≡ true → is_completed target ≡ true)
    → Respects Keeps (finish k target o t c reason)
unfolding finish
finish-Keeps k target o t c reason end v =
    let rule : (run : Run) (now : Time) → IsConsistent (finished run target o c reason now) =
      λ run now. finished-IsConsistent run target o c reason now end v in
    search (method_rules, rule) depth 16

start_attempt-Keeps : (now : Time) (a : Option Attempt) → Respects Keeps (start_attempt now a)
unfolding start_attempt
start_attempt-Keeps now none = search method_rules
start_attempt-Keeps now (some a) = search method_rules

started-IsConsistent :
    (run : Run) (now : Option Time)
    → IsConsistent run
    → IsConsistent (record run { started_at = now })
started-IsConsistent run now h = record {
  outcome = h.outcome;
  end = h.end;
  validated = h.validated;
}

after_start :
    (r : Run) (k : String)
    → IsConsistent r
    → Respects Keeps (do
      now ← clock
      let r' = record r { started_at = some now }
      update_run r'
      attempts ← list_attempts k
      start_attempt now (head? attempts)
      event k "RUN_STARTED" now (attempt_id_of (head? attempts)) []
      pure r')
after_start r k h = search (method_rules, start_attempt-Keeps, started-IsConsistent) depth 16

pub start_run_after_health-Keeps : (k : String) → Respects Keeps (start_run_after_health k)
unfolding start_run_after_health
start_run_after_health-Keeps k = record {
  at = λ s. require_run-Keeps_at k _ s λ run stored h.
      reject_if-Respects_at Keeps-preorder _ _ _ s λ pass.
        Respects-bind_at Keeps-preorder (transition k running) _ s
          ((transition-Keeps k running refl).at s)
          λ moved done.
            let (_, _, _, _, row) = transition-ok k running s moved done in
            record {
              kept = λ all.
                  ((after_start moved k (
                        All-find_row run_key IsConsistent k (transition k running s).1.runs all
                          row)).at
                      (transition k running s).1).kept
                    all;
            };
}

pub start_run-Keeps : (k : String) → Respects Keeps (start_run k)
unfolding start_run
start_run-Keeps k = search (
  method_rules,
  transition-Keeps k preparing refl,
  transition-Keeps k lab_health_check refl,
  start_run_after_health-Keeps,
)

prepare_if-Keeps : (b : Bool) (k : String) → Respects Keeps (prepare_if b k)
unfolding prepare_if
prepare_if-Keeps true k =
    search
      (method_rules, transition-Keeps k preparing refl, transition-Keeps k lab_health_check refl)
prepare_if-Keeps false k = transition-Keeps k lab_health_check refl

pub begin_lab_health_check-Keeps : (k : String) → Respects Keeps (begin_lab_health_check k)
unfolding begin_lab_health_check
begin_lab_health_check-Keeps k = search (method_rules, prepare_if-Keeps)

worsened-IsConsistent :
    (run : Run) (status : Option EnvironmentHealthStatus)
    → IsConsistent run
    → IsConsistent (record run { environment_health = status })
worsened-IsConsistent run status h = record {
  outcome = h.outcome;
  end = h.end;
  validated = h.validated;
}

worsen_if-Keeps :
    (b : Bool) (run : Run) (status : EnvironmentHealthStatus)
    → IsConsistent run
    → Respects Keeps (worsen_if b run status)
unfolding worsen_if
worsen_if-Keeps true run status h = search (method_rules, worsened-IsConsistent)
worsen_if-Keeps false run status h = search method_rules

pub record_environment_health-Keeps :
    (k : String) (status : EnvironmentHealthStatus)
    → Respects Keeps (record_environment_health k status)
unfolding record_environment_health
record_environment_health-Keeps k status = record {
  at = λ s. require_run-Keeps_at k _ s λ run stored h.
      reject_if-Respects_at Keeps-preorder _ _ _ s
        λ pass. (worsen_if-Keeps (is_worse status run.environment_health) run status h).at s;
}
