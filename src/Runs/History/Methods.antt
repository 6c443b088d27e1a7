-- ===== src/Runs/History/Methods.antt =====
-- Every method of lib/services/run_service.py only appends to the tables of events and test results.
use wifi_validation_framewor.Prelude.{
  String, Bool, true, false, Option, none, some, List, [], ◌∷◌, Result, ok, raised, Respects,
}
use wifi_validation_framewor.Domain.Status.{
  RunLifecycle, BusinessOutcome, FailureClass, EnvironmentHealthStatus,
}
use wifi_validation_framewor.Domain.Entities.{Run, Attempt, LifecycleEvent, Baseline, Time}
use wifi_validation_framewor.Domain.Validation.{Error}
use wifi_validation_framewor.Registry.{TestRegistry}
use wifi_validation_framewor.Baselines
use wifi_validation_framewor.Runs.Store.{RunService}
use wifi_validation_framewor.Runs.Repositories.{save_initial_bundle}
use wifi_validation_framewor.Runs.Lifecycle.{require_run, event, transition, close_attempt, finish}
use wifi_validation_framewor.Runs.Outcome.{latest_attempt_results, derive_business_outcome}
use wifi_validation_framewor.Runs.Health.{
  start_attempt, start_run_after_health, start_run, prepare_if, begin_lab_health_check, worsen_if,
  record_environment_health,
}
use wifi_validation_framewor.Runs.Endings.{
  complete_run, failure_outcome, fail_run, cancellation_requested, note_request, request_cancel,
}
use wifi_validation_framewor.Runs.Creation.{
  check_retry_source, RunRequest, create_run, create_attempt, time_or_now, ResultRequest,
  record_test_result,
}
use wifi_validation_framewor.Runs.Promotion.{
  replace_in, replace_active, committed_baseline, run_exists, PromotionRequest, promote_baseline,
}
use wifi_validation_framewor.Runs.Service.{
  Call, create, attempt, record_result, move, start, begin_check, record_health, start_checked,
  complete, fail, lab_fail, cancel, timeout, disconnect, crash, abort, ask_cancel, promote, call,
  calls,
}
use wifi_validation_framewor.Runs.Endings.{
  lab_fail_run, cancel_run, timeout_run, runner_disconnected, worker_crashed, abort_run,
}
use wifi_validation_framewor.Runs.History.{Grows, Grows-preorder, growth_rules}

require_run-Grows : (k : String) → Respects Grows (require_run k)
unfolding require_run
require_run-Grows k = search growth_rules depth 24

event-Grows :
    (k t : String) (at : Time) (a : Option String) (d : List (String × Option String))
    → Respects Grows (event k t at a d)
unfolding event
event-Grows k t at a d = search growth_rules depth 24

transition-Grows : (k : String) (target : RunLifecycle) → Respects Grows (transition k target)
unfolding transition
transition-Grows k target = search (growth_rules, require_run-Grows, event-Grows) depth 24

close_attempt-Grows : (now : Time) (a : Attempt) → Respects Grows (close_attempt now a)
unfolding close_attempt
close_attempt-Grows now a = search growth_rules depth 24

finish-Grows :
    (k : String) (target : RunLifecycle) (o : BusinessOutcome) (t : String)
    (c : Option FailureClass) (reason : Option String)
    → Respects Grows (finish k target o t c reason)
unfolding finish
finish-Grows k target o t c reason =
    search (growth_rules, require_run-Grows, event-Grows, close_attempt-Grows) depth 24

latest_attempt_results-Grows : (k : String) → Respects Grows (latest_attempt_results k)
unfolding latest_attempt_results
latest_attempt_results-Grows k = search growth_rules depth 24

derive_business_outcome-Grows : (k : String) → Respects Grows (derive_business_outcome k)
unfolding derive_business_outcome
derive_business_outcome-Grows k =
    search (growth_rules, require_run-Grows, latest_attempt_results-Grows) depth 24

prepare_if-Grows : (b : Bool) (k : String) → Respects Grows (prepare_if b k)
unfolding prepare_if
prepare_if-Grows true k = search (growth_rules, transition-Grows) depth 24
prepare_if-Grows false k = search (growth_rules, transition-Grows) depth 24

begin_lab_health_check-Grows : (k : String) → Respects Grows (begin_lab_health_check k)
unfolding begin_lab_health_check
begin_lab_health_check-Grows k = search (growth_rules, require_run-Grows, prepare_if-Grows) depth 24

worsen_if-Grows :
    (b : Bool) (r : Run) (h : EnvironmentHealthStatus) → Respects Grows (worsen_if b r h)
unfolding worsen_if
worsen_if-Grows true r h = search growth_rules depth 24
worsen_if-Grows false r h = search growth_rules depth 24

record_environment_health-Grows :
    (k : String) (h : EnvironmentHealthStatus) → Respects Grows (record_environment_health k h)
unfolding record_environment_health
record_environment_health-Grows k h =
    search (growth_rules, require_run-Grows, worsen_if-Grows) depth 24

start_attempt-Grows : (now : Time) (a : Option Attempt) → Respects Grows (start_attempt now a)
unfolding start_attempt
start_attempt-Grows now none = search growth_rules depth 24
start_attempt-Grows now (some a) = search growth_rules depth 24

start_run_after_health-Grows : (k : String) → Respects Grows (start_run_after_health k)
unfolding start_run_after_health
start_run_after_health-Grows k =
    search (growth_rules, require_run-Grows, event-Grows, transition-Grows, start_attempt-Grows)
      depth 24

start_run-Grows : (k : String) → Respects Grows (start_run k)
unfolding start_run
start_run-Grows k = search (growth_rules, transition-Grows, start_run_after_health-Grows) depth 24

complete_run-Grows : (k : String) (o : Option BusinessOutcome) → Respects Grows (complete_run k o)
unfolding complete_run
complete_run-Grows k o = search (growth_rules, finish-Grows, derive_business_outcome-Grows) depth 24

failure_outcome-Grows :
    (k : String) (c : Option FailureClass) → Respects Grows (failure_outcome k c)
unfolding failure_outcome
failure_outcome-Grows k none = search (growth_rules, derive_business_outcome-Grows) depth 24
failure_outcome-Grows k (some FailureClass.product_failed) = search growth_rules depth 24
failure_outcome-Grows k (some _) = search growth_rules depth 24

fail_run-Grows :
    (k : String) (reason : Option String) (c : Option FailureClass)
    → Respects Grows (fail_run k reason c)
unfolding fail_run
fail_run-Grows k reason c = search (growth_rules, finish-Grows, failure_outcome-Grows) depth 24

lab_fail_run-Grows : (k : String) (reason : Option String) → Respects Grows (lab_fail_run k reason)
unfolding lab_fail_run
lab_fail_run-Grows k reason = search (growth_rules, finish-Grows) depth 24

cancel_run-Grows : (k actor reason : String) → Respects Grows (cancel_run k actor reason)
unfolding cancel_run
cancel_run-Grows k actor reason = search (growth_rules, finish-Grows) depth 24

timeout_run-Grows : (k reason : String) → Respects Grows (timeout_run k reason)
unfolding timeout_run
timeout_run-Grows k reason = search (growth_rules, finish-Grows) depth 24

runner_disconnected-Grows : (k reason : String) → Respects Grows (runner_disconnected k reason)
unfolding runner_disconnected
runner_disconnected-Grows k reason = search (growth_rules, finish-Grows) depth 24

worker_crashed-Grows : (k reason : String) → Respects Grows (worker_crashed k reason)
unfolding worker_crashed
worker_crashed-Grows k reason = search (growth_rules, finish-Grows) depth 24

abort_run-Grows : (k : String) (reason : Option String) → Respects Grows (abort_run k reason)
unfolding abort_run
abort_run-Grows k reason = search (growth_rules, finish-Grows) depth 24

cancellation_requested-Grows : (k : String) → Respects Grows (cancellation_requested k)
unfolding cancellation_requested
cancellation_requested-Grows k = search growth_rules depth 24

note_request-Grows :
    (b : Bool) (k actor reason : String) → Respects Grows (note_request b k actor reason)
unfolding note_request
note_request-Grows true k actor reason = search growth_rules depth 24
note_request-Grows false k actor reason = search (growth_rules, event-Grows) depth 24

request_cancel-Grows : (k actor reason : String) → Respects Grows (request_cancel k actor reason)
unfolding request_cancel
request_cancel-Grows k actor reason =
    search (growth_rules, require_run-Grows, cancellation_requested-Grows, note_request-Grows) depth
      24

check_retry_source-Grows : (k : Option String) → Respects Grows (check_retry_source k)
unfolding check_retry_source
check_retry_source-Grows none = search growth_rules depth 24
check_retry_source-Grows (some k) = search growth_rules depth 24

save_initial_bundle-Grows :
    (r : Run) (a : Attempt) (e f : LifecycleEvent) → Respects Grows (save_initial_bundle r a e f)
unfolding save_initial_bundle
save_initial_bundle-Grows r a e f = search growth_rules depth 24

create_run-Grows : (q : RunRequest) → Respects Grows (create_run q)
unfolding create_run
create_run-Grows q =
    search (growth_rules, check_retry_source-Grows, save_initial_bundle-Grows) depth 24

create_attempt-Grows : (k : String) → Respects Grows (create_attempt k)
unfolding create_attempt
create_attempt-Grows k = search (growth_rules, require_run-Grows, event-Grows) depth 24

time_or_now-Grows : (t : Option Time) → Respects Grows (time_or_now t)
unfolding time_or_now
time_or_now-Grows none = search growth_rules depth 24
time_or_now-Grows (some t) = search growth_rules depth 24

record_test_result-Grows : (q : ResultRequest) → Respects Grows (record_test_result q)
unfolding record_test_result
record_test_result-Grows q =
    search (growth_rules, require_run-Grows, event-Grows, time_or_now-Grows) depth 24

committed-Grows :
    (r : Result Error (List Baseline)) (s : RunService) → Grows s (committed_baseline r s).1
committed-Grows (ok new) s =
    let same : Grows s s = Grows-preorder.refl_at s in
    record { events = same.events; results = same.results }
committed-Grows (raised e) s = Grows-preorder.refl_at s

replace_in-Grows :
    (table : Option (List Baseline)) (b : Baseline) → Respects Grows (replace_in table b)
unfolding replace_in
replace_in-Grows none b = record { at = λ s. Grows-preorder.refl_at s }
replace_in-Grows (some rows) b = record {
  at = λ s. committed-Grows (Baselines.save_replacing_active (run_exists s) b rows) s;
}

replace_active-Grows : (b : Baseline) → Respects Grows (replace_active b)
unfolding replace_active
replace_active-Grows b = record { at = λ s. (replace_in-Grows s.baselines b).at s }

promote_baseline-Grows :
    (default : TestRegistry) (k : String) (q : PromotionRequest)
    → Respects Grows (promote_baseline default k q)
unfolding promote_baseline
promote_baseline-Grows default k q =
    search
      (
        growth_rules, require_run-Grows, event-Grows, latest_attempt_results-Grows,
        derive_business_outcome-Grows, replace_active-Grows,
      )
      depth 24

call-Grows : (c : Call) (s : RunService) → Grows s (call c s)
unfolding call
call-Grows (create q) s = (create_run-Grows q).at s
call-Grows (attempt k) s = (create_attempt-Grows k).at s
call-Grows (record_result q) s = (record_test_result-Grows q).at s
call-Grows (move k target) s = (transition-Grows k target).at s
call-Grows (start k) s = (start_run-Grows k).at s
call-Grows (begin_check k) s = (begin_lab_health_check-Grows k).at s
call-Grows (record_health k h) s = (record_environment_health-Grows k h).at s
call-Grows (start_checked k) s = (start_run_after_health-Grows k).at s
call-Grows (complete k o) s = (complete_run-Grows k o).at s
call-Grows (fail k reason c) s = (fail_run-Grows k reason c).at s
call-Grows (lab_fail k reason) s = (lab_fail_run-Grows k reason).at s
call-Grows (cancel k actor reason) s = (cancel_run-Grows k actor reason).at s
call-Grows (timeout k reason) s = (timeout_run-Grows k reason).at s
call-Grows (disconnect k reason) s = (runner_disconnected-Grows k reason).at s
call-Grows (crash k reason) s = (worker_crashed-Grows k reason).at s
call-Grows (abort k reason) s = (abort_run-Grows k reason).at s
call-Grows (ask_cancel k actor reason) s = (request_cancel-Grows k actor reason).at s
call-Grows (promote default k q) s = (promote_baseline-Grows default k q).at s

-- Through any sequence of calls, whichever of them raise, the tables of lifecycle events and of test
-- results keep their rows, unchanged and in place: the new tables begin with the old ones.
pub calls-Grows : (cs : List Call) (s : RunService) → Grows s (calls cs s)
unfolding calls
calls-Grows [] s = Grows-preorder.refl_at s
calls-Grows (c ∷ cs) s =
    Grows-preorder.trans_at s (call c s) (calls cs (call c s)) (call-Grows c s)
      (calls-Grows cs (call c s))
