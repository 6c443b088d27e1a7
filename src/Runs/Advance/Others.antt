-- ===== src/Runs/Advance/Others.antt =====
-- The methods of lib/services/run_service.py that create, end and promote, as steps of the stored
-- Runs.
use wifi_validation_framewor.Prelude.{
  String, refl, Bool, true, false, Option, none, some, List, Result, ok, raised, Respects,
}
use wifi_validation_framewor.Domain.Status.{FailureClass, BusinessOutcome}
use wifi_validation_framewor.Domain.Entities.{Run, Attempt, LifecycleEvent, Baseline, Time}
use wifi_validation_framewor.Domain.Validation.{Error}
use wifi_validation_framewor.Registry.{TestRegistry}
use wifi_validation_framewor.Runs.Store.{RunService}
use wifi_validation_framewor.Runs.Repositories.{save_initial_bundle}
use wifi_validation_framewor.Runs.Outcome.{latest_attempt_results, derive_business_outcome}
use wifi_validation_framewor.Runs.Endings.{
  complete_run, failure_outcome, fail_run, cancellation_requested, note_request, request_cancel,
}
use wifi_validation_framewor.Runs.Creation.{
  check_retry_source, RunRequest, create_run, create_attempt, time_or_now, ResultRequest,
  record_test_result,
}
use wifi_validation_framewor.Baselines
use wifi_validation_framewor.Runs.Promotion.{
  replace_active, replace_in, committed_baseline, run_exists, PromotionRequest, promote_baseline,
}
use wifi_validation_framewor.Runs.Advance.{Advances, Advances-same, Advances-preorder}
use wifi_validation_framewor.Runs.Advance.Methods.{
  advance_rules, require_run-Advances, event-Advances, finish-Advances,
}

pub latest_attempt_results-Advances : (k : String) → Respects Advances (latest_attempt_results k)
unfolding latest_attempt_results
latest_attempt_results-Advances k = search advance_rules

pub derive_business_outcome-Advances : (k : String) → Respects Advances (derive_business_outcome k)
unfolding derive_business_outcome
derive_business_outcome-Advances k =
    search (advance_rules, require_run-Advances, latest_attempt_results-Advances)

ruleset service_rules = (
  advance_rules, require_run-Advances, event-Advances, finish-Advances,
  latest_attempt_results-Advances, derive_business_outcome-Advances,
)

pub complete_run-Advances :
    (k : String) (o : Option BusinessOutcome) → Respects Advances (complete_run k o)
unfolding complete_run
complete_run-Advances k o = search service_rules

failure_outcome-Advances :
    (k : String) (c : Option FailureClass) → Respects Advances (failure_outcome k c)
unfolding failure_outcome
failure_outcome-Advances k none = search service_rules
failure_outcome-Advances k (some FailureClass.product_failed) = search service_rules
failure_outcome-Advances k _ = search service_rules

pub fail_run-Advances :
    (k : String) (reason : Option String) (c : Option FailureClass)
    → Respects Advances (fail_run k reason c)
unfolding fail_run
fail_run-Advances k reason c = search (service_rules, failure_outcome-Advances)

cancellation_requested-Advances : (k : String) → Respects Advances (cancellation_requested k)
unfolding cancellation_requested
cancellation_requested-Advances k = search service_rules

note_request-Advances :
    (b : Bool) (k actor reason : String) → Respects Advances (note_request b k actor reason)
unfolding note_request
note_request-Advances true k actor reason = search service_rules
note_request-Advances false k actor reason = search service_rules

pub request_cancel-Advances :
    (k actor reason : String) → Respects Advances (request_cancel k actor reason)
unfolding request_cancel
request_cancel-Advances k actor reason =
    search (service_rules, cancellation_requested-Advances, note_request-Advances) depth 9

check_retry_source-Advances : (k : Option String) → Respects Advances (check_retry_source k)
unfolding check_retry_source
check_retry_source-Advances none = search service_rules
check_retry_source-Advances (some k) = search service_rules

save_initial_bundle-Advances :
    (r : Run) (a : Attempt) (e f : LifecycleEvent) → Respects Advances (save_initial_bundle r a e f)
unfolding save_initial_bundle
save_initial_bundle-Advances r a e f = search service_rules depth 16

pub create_run-Advances : (q : RunRequest) → Respects Advances (create_run q)
unfolding create_run
create_run-Advances q =
    search (service_rules, check_retry_source-Advances, save_initial_bundle-Advances) depth 24

pub create_attempt-Advances : (k : String) → Respects Advances (create_attempt k)
unfolding create_attempt
create_attempt-Advances k = search service_rules depth 16

time_or_now-Advances : (t : Option Time) → Respects Advances (time_or_now t)
unfolding time_or_now
time_or_now-Advances none = search service_rules
time_or_now-Advances (some t) = search service_rules

pub record_test_result-Advances : (q : ResultRequest) → Respects Advances (record_test_result q)
unfolding record_test_result
record_test_result-Advances q = search (service_rules, time_or_now-Advances) depth 24

committed-Advances :
    (r : Result Error (List Baseline)) (s : RunService) → Advances s (committed_baseline r s).1
committed-Advances (ok new) s = Advances-same s (record s { baselines = some new }) refl
committed-Advances (raised e) s = Advances-preorder.refl_at s

replace_in-Advances :
    (table : Option (List Baseline)) (b : Baseline) → Respects Advances (replace_in table b)
unfolding replace_in
replace_in-Advances none b = record { at = λ s. Advances-preorder.refl_at s }
replace_in-Advances (some rows) b = record {
  at = λ s. committed-Advances (Baselines.save_replacing_active (run_exists s) b rows) s;
}

replace_active-Advances : (b : Baseline) → Respects Advances (replace_active b)
unfolding replace_active
replace_active-Advances b = record { at = λ s. (replace_in-Advances s.baselines b).at s }

pub promote_baseline-Advances :
    (default : TestRegistry) (k : String) (q : PromotionRequest)
    → Respects Advances (promote_baseline default k q)
unfolding promote_baseline
promote_baseline-Advances default k q = search (service_rules, replace_active-Advances) depth 24
