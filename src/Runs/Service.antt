-- ===== src/Runs/Service.antt =====
-- The calls that a client makes on the service (lib/services/run_service.py), one after the other,
-- and what they make of the stored Runs.
use wifi_validation_framewor.Prelude.{◌≡◌, String, Option, some, List, [], ◌∷◌, find_row}
use wifi_validation_framewor.Domain.Status.{
  RunLifecycle, BusinessOutcome, FailureClass, EnvironmentHealthStatus,
}
use wifi_validation_framewor.Domain.Entities.{Run}
use wifi_validation_framewor.Registry.{TestRegistry}
use wifi_validation_framewor.Runs.Store.{RunService}
use wifi_validation_framewor.Runs.Repositories.{run_key}
use wifi_validation_framewor.Runs.Lifecycle.{transition}
use wifi_validation_framewor.Runs.Health.{
  start_run, begin_lab_health_check, record_environment_health, start_run_after_health,
}
use wifi_validation_framewor.Runs.Endings.{
  complete_run, fail_run, lab_fail_run, cancel_run, timeout_run, runner_disconnected,
  worker_crashed, abort_run, request_cancel,
}
use wifi_validation_framewor.Runs.Creation.{
  RunRequest, create_run, create_attempt, ResultRequest, record_test_result,
}
use wifi_validation_framewor.Runs.Promotion.{PromotionRequest, promote_baseline}
use wifi_validation_framewor.Runs.Advance.{Advances, Advances-preorder, Advanced}
use wifi_validation_framewor.Runs.Advance.Methods.{
  transition-Advances, finish-Advances, start_run-Advances, begin_lab_health_check-Advances,
  record_environment_health-Advances, start_run_after_health-Advances,
}
use wifi_validation_framewor.Runs.Advance.Others.{
  complete_run-Advances, fail_run-Advances, request_cancel-Advances, create_run-Advances,
  create_attempt-Advances, record_test_result-Advances, promote_baseline-Advances,
}

-- The methods that change state, with their arguments.
pub data Call : Type 0 where
  create : RunRequest → Call
  attempt : String → Call
  record_result : ResultRequest → Call
  move : String → RunLifecycle → Call
  start : String → Call
  begin_check : String → Call
  record_health : String → EnvironmentHealthStatus → Call
  start_checked : String → Call
  complete : String → Option BusinessOutcome → Call
  fail : String → Option String → Option FailureClass → Call
  lab_fail : String → Option String → Call
  cancel : String → String → String → Call
  timeout : String → String → Call
  disconnect : String → String → Call
  crash : String → String → Call
  abort : String → Option String → Call
  ask_cancel : String → String → String → Call
  promote : TestRegistry → String → PromotionRequest → Call

-- The state that a call leaves, whether it returns or raises.
unfoldable pub call : Call → RunService → RunService
call (create q) s = (create_run q s).1
call (attempt k) s = (create_attempt k s).1
call (record_result q) s = (record_test_result q s).1
call (move k target) s = (transition k target s).1
call (start k) s = (start_run k s).1
call (begin_check k) s = (begin_lab_health_check k s).1
call (record_health k status) s = (record_environment_health k status s).1
call (start_checked k) s = (start_run_after_health k s).1
call (complete k outcome) s = (complete_run k outcome s).1
call (fail k reason c) s = (fail_run k reason c s).1
call (lab_fail k reason) s = (lab_fail_run k reason s).1
call (cancel k actor reason) s = (cancel_run k actor reason s).1
call (timeout k reason) s = (timeout_run k reason s).1
call (disconnect k reason) s = (runner_disconnected k reason s).1
call (crash k reason) s = (worker_crashed k reason s).1
call (abort k reason) s = (abort_run k reason s).1
call (ask_cancel k actor reason) s = (request_cancel k actor reason s).1
call (promote default k q) s = (promote_baseline default k q s).1

unfoldable pub calls : List Call → RunService → RunService
unfolding call
calls [] s = s
calls (c ∷ cs) s = calls cs (call c s)

call-Advances : (c : Call) (s : RunService) → Advances s (call c s)
unfolding call lab_fail_run cancel_run timeout_run runner_disconnected worker_crashed abort_run
call-Advances (create q) s = (create_run-Advances q).at s
call-Advances (attempt k) s = (create_attempt-Advances k).at s
call-Advances (record_result q) s = (record_test_result-Advances q).at s
call-Advances (move k target) s = (transition-Advances k target).at s
call-Advances (start k) s = (start_run-Advances k).at s
call-Advances (begin_check k) s = (begin_lab_health_check-Advances k).at s
call-Advances (record_health k status) s = (record_environment_health-Advances k status).at s
call-Advances (start_checked k) s = (start_run_after_health-Advances k).at s
call-Advances (complete k outcome) s = (complete_run-Advances k outcome).at s
call-Advances (fail k reason c) s = (fail_run-Advances k reason c).at s
call-Advances (lab_fail k reason) s = (finish-Advances _ _ _ _ _ _).at s
call-Advances (cancel k actor reason) s = (finish-Advances _ _ _ _ _ _).at s
call-Advances (timeout k reason) s = (finish-Advances _ _ _ _ _ _).at s
call-Advances (disconnect k reason) s = (finish-Advances _ _ _ _ _ _).at s
call-Advances (crash k reason) s = (finish-Advances _ _ _ _ _ _).at s
call-Advances (abort k reason) s = (finish-Advances _ _ _ _ _ _).at s
call-Advances (ask_cancel k actor reason) s = (request_cancel-Advances k actor reason).at s
call-Advances (promote default k q) s = (promote_baseline-Advances default k q).at s

calls-Advances : (cs : List Call) (s : RunService) → Advances s (calls cs s)
unfolding calls
calls-Advances [] s = Advances-preorder.refl_at s
calls-Advances (c ∷ cs) s =
    Advances-preorder.trans_at s (call c s) (calls cs (call c s)) (call-Advances c s)
      (calls-Advances cs (call c s))

-- Through any sequence of calls, whichever of them raise, a stored Run stays stored: its life cycle
-- follows the table of transitions, the health recorded on it never gets better, its tests, versions,
-- firmware, laboratory and source stay, and once terminal it keeps its life cycle, outcome, failure
-- class and end.
pub calls-Advanced :
    (cs : List Call) (s : RunService) (k : String) (r : Run)
    → find_row run_key k s.runs ≡ some r
    → (r' : Run) × (find_row run_key k (calls cs s).runs ≡ some r') × Advanced r r'
calls-Advanced cs s k r h = (calls-Advances cs s).at_run k r h
