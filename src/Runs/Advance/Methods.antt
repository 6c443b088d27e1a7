-- ===== src/Runs/Advance/Methods.antt =====
-- Every method of the Run service (lib/services/run_service.py) advances the stored Runs.
use mathlib.Core.Path.{subst}
use wifi_validation_framewor.Prelude.{
  String, ◌≡◌, ◌∙◌, refl, sym, Bool, true, false, not, Option, none, some, List, [], ◌∷◌, ◌++◌,
  arith, inl, inr, Bool-cases, Option-cases, find_row, find_row-key, Result, ok, raised, Method,
  pure, raise, reads, writes, lift, reject_if, require, ◌>>=◌, ◌>>◌, Respects, respects_rules,
  Respects-bind_at, Respects-bind, Respects-pure, for_each, last?, head?,
}
use wifi_validation_framewor.Domain.Status.{
  running, RunLifecycle, BusinessOutcome, FailureClass, EnvironmentHealthStatus,
}
use wifi_validation_framewor.Domain.Entities.{Run, Attempt, Time}
use wifi_validation_framewor.Runs.Store.{RunService, Action, clock}
use wifi_validation_framewor.Runs.Repositories.{run_key, updated_columns, update_run, list_attempts}
use wifi_validation_framewor.Runs.Lifecycle.{
  allowed, is_terminal, require_run, event, transition, close_attempt, finish, finished,
  entered_event, attempt_id_of, finish_details,
}
use wifi_validation_framewor.Runs.Health.{
  start_attempt, start_run_after_health, start_run, prepare_if, begin_lab_health_check, worsen_if,
  is_worse, record_environment_health,
}
use wifi_validation_framewor.Runs.Advance.{Advanced, Advances, Advances-preorder, via, here}
use wifi_validation_framewor.Runs.Advance.Quiet.{
  clock_keeps_runs, require_run-Respects_at, reject_if-Respects_at,
}
use wifi_validation_framewor.Runs.Advance.Transition.{transition-ok}
use wifi_validation_framewor.Runs.Advance.Rules.{
  clock-Advances, id_generator-Advances, get_run-Advances, get_attempt-Advances,
  list_attempts-Advances, list_events-Advances, transaction-Advances, insert_run-Advances,
  insert_attempt-Advances, update_attempt-Advances, append_event-Advances, insert_result-Advances,
  update_run-Advances,
}

pub ruleset advance_rules = (
  respects_rules, Advances-preorder, clock-Advances, id_generator-Advances, get_run-Advances,
  get_attempt-Advances, list_attempts-Advances, list_events-Advances, transaction-Advances,
  insert_run-Advances, insert_attempt-Advances, update_attempt-Advances, append_event-Advances,
  insert_result-Advances,
)

pub require_run-Advances : (k : String) → Respects Advances (require_run k)
unfolding require_run
require_run-Advances k = search advance_rules

pub event-Advances :
    (k t : String) (at : Time) (a : Option String) (d : List (String × Option String))
    → Respects Advances (event k t at a d)
unfolding event
event-Advances k t at a d = search advance_rules depth 9

pub close_attempt-Advances : (now : Time) (a : Attempt) → Respects Advances (close_attempt now a)
unfolding close_attempt
close_attempt-Advances now a = search advance_rules

pub not_terminal : (l t : RunLifecycle) → not (allowed l t) ≡ false → is_terminal l ≡ false
not_terminal l t h = ground arith

-- A method that goes on with an update of the Run that it has read.
module _ {A : Type 0} (k : String) (run r : Run) (rest : Action A) (s : RunService) where
  pub update_run-Advances_at :
      find_row run_key k s.runs ≡ some run
      → r.run_id ≡ run.run_id
      → Advanced run (updated_columns r run)
      → Respects Advances rest
      → Advances s ((update_run r >> rest) s).1
  update_run-Advances_at stored same adv later =
      Respects-bind_at Advances-preorder (update_run r) (λ _. rest) s
        (update_run-Advances r run s
          (subst (λ j. find_row run_key j s.runs ≡ some run)
            (sym (same ∙ find_row-key run_key k s.runs stored)) stored)
          adv)
        (λ _ _. later.at (update_run r s).1)

-- A change of the life cycle that the table allows, with how the Run ended if it does.
moved-Advanced :
    (run : Run) (target : RunLifecycle) (outcome : Option BusinessOutcome) (c : Option FailureClass)
    (reason : Option String) (end : Option Time)
    → not (allowed run.lifecycle target) ≡ false
    → Advanced run (record run {
      lifecycle = target;
      outcome = outcome;
      failure_class = c;
      failure_reason = reason;
      completed_at = end;
    })
moved-Advanced run target outcome c reason end pass =
    let live : is_terminal run.lifecycle ≡ false = not_terminal run.lifecycle target pass in
    record {
      run_id = refl;
      selected_tests = refl;
      test_definition_versions = refl;
      firmware_version = refl;
      lab_id = refl;
      source_run_id = refl;
      path = via (ground arith) here;
      health = omega arith;
      lifecycle_kept = λ h. cc (live, h);
      outcome_kept = λ h. cc (live, h);
      failure_kept = λ h. cc (live, h);
      end_kept = λ h. cc (live, h);
    }

after_transition :
    (run : Run) (k : String) (target : RunLifecycle)
    → Respects Advances (do now ← clock; event k (entered_event target) now none []; pure run)
after_transition run k target = search (advance_rules, event-Advances)

pub transition-Advances :
    (k : String) (target : RunLifecycle) → Respects Advances (transition k target)
unfolding transition
transition-Advances k target = record {
  at = λ s. require_run-Respects_at Advances-preorder k _ s λ run stored.
      reject_if-Respects_at Advances-preorder _ _ _ s λ pass.
        update_run-Advances_at k run (record run { lifecycle = target }) _ s stored refl
          (moved-Advanced run target run.outcome run.failure_class run.failure_reason
            run.completed_at pass)
          (after_transition (record run { lifecycle = target }) k target);
}

after_finish :
    (r : Run) (k t : String) (now : Time) (c : Option FailureClass) (reason : Option String)
    → Respects Advances (do
      attempts ← list_attempts k
      for_each (close_attempt now) attempts
      event k t now (attempt_id_of (last? attempts)) (finish_details c reason)
      pure r)
after_finish r k t now c reason =
    search (advance_rules, event-Advances, close_attempt-Advances) depth 9

pub finish-Advances :
    (k : String) (target : RunLifecycle) (o : BusinessOutcome) (t : String)
    (c : Option FailureClass) (reason : Option String)
    → Respects Advances (finish k target o t c reason)
unfolding finish
finish-Advances k target o t c reason = record {
  at = λ s. require_run-Respects_at Advances-preorder k _ s λ run stored.
      reject_if-Respects_at Advances-preorder _ _ _ s λ pass.
        Respects-bind_at Advances-preorder clock _ s (clock-Advances.at s) λ now ticked.
          update_run-Advances_at k run (finished run target o c reason now) _ (clock s).1
            (subst (λ rows. find_row run_key k rows ≡ some run) (sym (clock_keeps_runs s)) stored)
            refl (moved-Advanced run target (some o) c reason (some now) pass)
            (after_finish (finished run target o c reason now) k t now c reason);
}

start_attempt-Advances : (now : Time) (a : Option Attempt) → Respects Advances (start_attempt now a)
unfolding start_attempt
start_attempt-Advances now none = search advance_rules
start_attempt-Advances now (some a) = search advance_rules

after_start :
    (r : Run) (k : String) (now : Time)
    → Respects Advances (do
      attempts ← list_attempts k
      start_attempt now (head? attempts)
      event k "RUN_STARTED" now (attempt_id_of (head? attempts)) []
      pure r)
after_start r k now = search (advance_rules, event-Advances, start_attempt-Advances) depth 9

started-Advanced : (run : Run) (now : Option Time) → Advanced run (record run { started_at = now })
started-Advanced run now = record {
  run_id = refl;
  selected_tests = refl;
  test_definition_versions = refl;
  firmware_version = refl;
  lab_id = refl;
  source_run_id = refl;
  path = here;
  health = omega arith;
  lifecycle_kept = λ h. refl;
  outcome_kept = λ h. refl;
  failure_kept = λ h. refl;
  end_kept = λ h. refl;
}

pub start_run_after_health-Advances : (k : String) → Respects Advances (start_run_after_health k)
unfolding start_run_after_health
start_run_after_health-Advances k = record {
  at = λ s. require_run-Respects_at Advances-preorder k _ s λ run stored.
      reject_if-Respects_at Advances-preorder _ _ _ s λ pass.
        Respects-bind_at Advances-preorder (transition k running) _ s
          ((transition-Advances k running).at s)
          λ moved done.
            let s1 : RunService = (transition k running s).1 in
            let (_, _, _, _, row) = transition-ok k running s moved done in
            Respects-bind_at Advances-preorder clock _ s1 (clock-Advances.at s1) λ now ticked.
              update_run-Advances_at k moved (record moved { started_at = some now }) _ (clock s1).1
                (subst (λ rows. find_row run_key k rows ≡ some moved) (sym (clock_keeps_runs s1))
                  row)
                refl (started-Advanced moved (some now))
                (after_start (record moved { started_at = some now }) k now);
}

pub start_run-Advances : (k : String) → Respects Advances (start_run k)
unfolding start_run
start_run-Advances k = search (advance_rules, transition-Advances, start_run_after_health-Advances)

prepare_if-Advances : (b : Bool) (k : String) → Respects Advances (prepare_if b k)
unfolding prepare_if
prepare_if-Advances true k = search (advance_rules, transition-Advances)
prepare_if-Advances false k = search (advance_rules, transition-Advances)

pub begin_lab_health_check-Advances : (k : String) → Respects Advances (begin_lab_health_check k)
unfolding begin_lab_health_check
begin_lab_health_check-Advances k =
    search (advance_rules, require_run-Advances, prepare_if-Advances)

worsened-Advanced :
    (run : Run) (status : EnvironmentHealthStatus)
    → is_worse status run.environment_health ≡ true
    → Advanced run (record run { environment_health = some status })
worsened-Advanced run status h = record {
  run_id = refl;
  selected_tests = refl;
  test_definition_versions = refl;
  firmware_version = refl;
  lab_id = refl;
  source_run_id = refl;
  path = here;
  health = ground arith;
  lifecycle_kept = λ _. refl;
  outcome_kept = λ _. refl;
  failure_kept = λ _. refl;
  end_kept = λ _. refl;
}

worsen_if-Advances_at :
    (b : Bool) (k : String) (run : Run) (status : EnvironmentHealthStatus) (s : RunService)
    → find_row run_key k s.runs ≡ some run
    → is_worse status run.environment_health ≡ b
    → Advances s (worsen_if b run status s).1
unfolding worsen_if
worsen_if-Advances_at true k run status s stored worse =
    update_run-Advances_at k run (record run { environment_health = some status }) _ s stored refl
      (worsened-Advanced run status worse)
      (Respects-pure Advances-preorder (record run { environment_health = some status }))
worsen_if-Advances_at false k run status s stored same = (Respects-pure Advances-preorder run).at s

pub record_environment_health-Advances :
    (k : String) (status : EnvironmentHealthStatus)
    → Respects Advances (record_environment_health k status)
unfolding record_environment_health
record_environment_health-Advances k status = record {
  at = λ s. require_run-Respects_at Advances-preorder k _ s λ run stored.
      reject_if-Respects_at Advances-preorder _ _ _ s λ pass.
        worsen_if-Advances_at (is_worse status run.environment_health) k run status s stored refl;
}
