-- ===== src/Runs/Consistency.antt =====
-- How a stored Run's life cycle, outcome and end agree (lib/services/run_service.py).
pub mod Methods
pub mod Others
use mathlib.Core.Path.{subst}
use wifi_validation_framewor.Prelude.{
  ◌≡◌, ◌∙◌, sym, refl, ap, String, Bool, true, false, not, ◌&&◌, ◌||◌, Option, none, some, List, [],
  ◌∷◌, ◌++◌, ℕ, arith, Method, Result, ok, raised, pure, reads, writes, lift, reject_if, require,
  ◌>>=◌, ◌>>◌, >>=-ok, for_each, last?, head?, find_row, update_rows, All, All-append,
  All-update_rows, All-find_row, IsPreorder, Respects, respects_rules, Respects-bind_at,
  Respects-pure, Option-cases, Bool-cases, inl, inr,
}
use wifi_validation_framewor.Domain.Status.{
  RunLifecycle, completed, running, preparing, lab_health_check, BusinessOutcome, FailureClass,
  EnvironmentHealthStatus, is_validated,
}
use wifi_validation_framewor.Domain.Entities.{
  Run, Attempt, TestResult, LifecycleEvent, Baseline, Time,
}
use wifi_validation_framewor.Domain.Validation.{Error, domain, check_run}
use wifi_validation_framewor.Registry.{TestRegistry}
use wifi_validation_framewor.Runs.Store.{RunService, Action, clock, id_generator}
use wifi_validation_framewor.Runs.Repositories.{
  run_key, run_row, updated_columns, transaction, get_run, insert_run, update_run, get_attempt,
  list_attempts, insert_attempt, update_attempt, append_event, list_events, insert_result,
  save_initial_bundle,
}
use wifi_validation_framewor.Runs.Lifecycle.{
  allowed, is_terminal, is_unset, require_run, event, transition, close_attempt, finish, finished,
  entered_event, attempt_id_of, finish_details,
}
use wifi_validation_framewor.Runs.Promotion.{is_completed}
use wifi_validation_framewor.Runs.Advance.Quiet.{
  SameRuns, clock-SameRuns, id_generator-SameRuns, list_attempts-SameRuns, update_attempt-SameRuns,
  append_event-SameRuns, event-SameRuns, require_run-Respects_at, reject_if-Respects_at,
  clock_keeps_runs,
}
use wifi_validation_framewor.Runs.Advance.Methods.{not_terminal}
use wifi_validation_framewor.Runs.Advance.Transition.{transition-ok}

abbrev pub has_outcome : Option BusinessOutcome → Bool
has_outcome none = false
has_outcome (some o) = true

abbrev pub claims_validated : Option BusinessOutcome → Bool
claims_validated none = false
claims_validated (some o) = is_validated o

-- A Run has an outcome and an end exactly when it is terminal, and only a completed one is validated.
pub record IsConsistent (r : Run) : Type 0 where
  pub outcome : has_outcome r.outcome ≡ is_terminal r.lifecycle
  pub end : is_unset r.completed_at ≡ not (is_terminal r.lifecycle)
  pub validated : claims_validated r.outcome ≡ true → is_completed r.lifecycle ≡ true

pub record Keeps (s t : RunService) : Type 0 where
  pub kept : All IsConsistent s.runs → All IsConsistent t.runs

pub Keeps-preorder : IsPreorder Keeps
Keeps-preorder = record {
  refl_at = λ s. record { kept = λ h. h };
  trans_at = λ s t u p q. record { kept = λ h. q.kept (p.kept h) };
}

Keeps-same : (s t : RunService) → t.runs ≡ s.runs → Keeps s t
Keeps-same s t e = record { kept = λ h. subst (All IsConsistent) (sym e) h }

pub Keeps-of_SameRuns : {A : Type 0} (m : Action A) → Respects SameRuns m → Respects Keeps m
Keeps-of_SameRuns m h = record { at = λ s. Keeps-same s (m s).1 (h.at s).same }

pub writes-Keeps :
    {A : Type 0} (f : RunService → A × RunService)
    → ((s : RunService) → (f s).1.runs ≡ s.runs)
    → Respects {E = Error} Keeps (writes f)
unfolding writes
writes-Keeps f h = record { at = λ s. Keeps-same s (f s).1 (h s) }

pub clock-Keeps : Respects Keeps clock
clock-Keeps = Keeps-of_SameRuns clock clock-SameRuns

pub id_generator-Keeps : Respects Keeps id_generator
id_generator-Keeps = Keeps-of_SameRuns id_generator id_generator-SameRuns

pub list_attempts-Keeps : (k : String) → Respects Keeps (list_attempts k)
list_attempts-Keeps k = Keeps-of_SameRuns (list_attempts k) (list_attempts-SameRuns k)

pub update_attempt-Keeps : (a : Attempt) → Respects Keeps (update_attempt a)
update_attempt-Keeps a = Keeps-of_SameRuns (update_attempt a) (update_attempt-SameRuns a)

pub append_event-Keeps : (e : LifecycleEvent) → Respects Keeps (append_event e)
append_event-Keeps e = Keeps-of_SameRuns (append_event e) (append_event-SameRuns e)

pub event-Keeps :
    (k t : String) (at : Time) (a : Option String) (d : List (String × Option String))
    → Respects Keeps (event k t at a d)
event-Keeps k t at a d = Keeps-of_SameRuns (event k t at a d) (event-SameRuns k t at a d)

pub ruleset quiet_rules = (
  respects_rules, Keeps-preorder, clock-Keeps, id_generator-Keeps, list_attempts-Keeps,
  update_attempt-Keeps, append_event-Keeps, event-Keeps,
)

pub get_run-Keeps : (k : String) → Respects Keeps (get_run k)
unfolding get_run
get_run-Keeps k = search quiet_rules

pub get_attempt-Keeps : (k : String) → Respects Keeps (get_attempt k)
unfolding get_attempt
get_attempt-Keeps k = search quiet_rules

pub list_events-Keeps : (k : String) → Respects Keeps (list_events k)
unfolding list_events
list_events-Keeps k = search quiet_rules

pub insert_attempt-Keeps : (a : Attempt) → Respects Keeps (insert_attempt a)
unfolding insert_attempt
insert_attempt-Keeps a = search (quiet_rules, writes-Keeps) depth 9

pub insert_result-Keeps : (r : TestResult) → Respects Keeps (insert_result r)
unfolding insert_result
insert_result-Keeps r = search (quiet_rules, writes-Keeps) depth 9

pub require_run-Keeps : (k : String) → Respects Keeps (require_run k)
unfolding require_run
require_run-Keeps k = search (quiet_rules, get_run-Keeps)

pub close_attempt-Keeps : (now : Time) (a : Attempt) → Respects Keeps (close_attempt now a)
unfolding close_attempt
close_attempt-Keeps now a = search quiet_rules

-- The columns that UPDATE sets hold all that consistency is about.
updated-IsConsistent : (r old : Run) → IsConsistent r → IsConsistent (updated_columns r old)
updated-IsConsistent r old h = record { outcome = h.outcome; end = h.end; validated = h.validated }

written-Keeps :
    (r : Run)
    → IsConsistent r
    → Respects {E = Error} Keeps (
        writes
          λ s. (tt, record s { runs = update_rows run_key r.run_id (updated_columns r) s.runs }))
unfolding writes
written-Keeps r h = record {
  at = λ s. record {
    kept = λ all.
        All-update_rows run_key IsConsistent r.run_id (updated_columns r) s.runs
          (λ old _. updated-IsConsistent r old h) all;
  };
}

pub update_run-Keeps : (r : Run) → IsConsistent r → Respects Keeps (update_run r)
unfolding update_run
update_run-Keeps r h = search (quiet_rules, written-Keeps)

appended-Keeps :
    (r : Run)
    → IsConsistent r
    → Respects {E = Error} Keeps (writes λ s. (tt, record s { runs = s.runs ++ run_row r ∷ [] }))
unfolding writes
appended-Keeps r h = record {
  at = λ s. record {
    kept = λ all.
        All-append IsConsistent s.runs (run_row r ∷ []) all
          (record { outcome = h.outcome; end = h.end; validated = h.validated }, tt);
  };
}

pub insert_run-Keeps : (r : Run) → IsConsistent r → Respects Keeps (insert_run r)
unfolding insert_run
insert_run-Keeps r h = search (quiet_rules, appended-Keeps) depth 9

-- A step on a Run that has been read may use that the Run is consistent.
module _ {A : Type 0} (k : String) (f : Run → Action A) (s : RunService) where
  pub require_run-Keeps_at :
      ((r : Run) → find_row run_key k s.runs ≡ some r → IsConsistent r → Keeps s (f r s).1)
      → Keeps s ((require_run k >>= f) s).1
  require_run-Keeps_at h = require_run-Respects_at Keeps-preorder k f s λ r stored. record {
    kept = λ all. (h r stored (All-find_row run_key IsConsistent k s.runs all stored)).kept all;
  }
