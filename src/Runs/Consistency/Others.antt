-- ===== src/Runs/Consistency/Others.antt =====
-- The methods that create, end and promote keep the stored Runs consistent, and so does every sequence
-- of calls of the service (lib/services/run_service.py).
use mathlib.Core.Path.{subst}
use wifi_validation_framewor.Prelude.{
  all, ◌≡◌, refl, ap, String, Bool, true, false, not, Option, none, some, List, [], ◌∷◌, arith,
  Result, ok, raised, pure, lift, ◌>>=◌, >>=-ok, All, Respects, Respects-bind_at,
}
use wifi_validation_framewor.Domain.Status.{
  completed, failed, BusinessOutcome, FailureClass, is_validated,
}
use wifi_validation_framewor.Domain.Entities.{Run, Attempt, LifecycleEvent, Baseline, Time}
use wifi_validation_framewor.Domain.Validation.{Error, check_run}
use wifi_validation_framewor.Domain.Json.{Fields}
use wifi_validation_framewor.Registry.{TestRegistry}
use wifi_validation_framewor.Baselines
use wifi_validation_framewor.Runs.Store.{RunService, Action}
use wifi_validation_framewor.Runs.Repositories.{transaction, save_initial_bundle}
use wifi_validation_framewor.Runs.Lifecycle.{is_terminal, finish}
use wifi_validation_framewor.Runs.Outcome.{latest_attempt_results, derive_business_outcome}
use wifi_validation_framewor.Runs.Endings.{
  complete_run, failure_outcome, downgraded, fail_run, cancellation_requested, note_request,
  request_cancel,
}
use wifi_validation_framewor.Runs.Creation.{
  check_retry_source, new_run, RunRequest, create_run, create_attempt, time_or_now, ResultRequest,
  record_test_result,
}
use wifi_validation_framewor.Runs.Promotion.{
  replace_in, replace_active, committed_baseline, run_exists, PromotionRequest, promote_baseline,
}
use wifi_validation_framewor.Runs.Consistency.{
  IsConsistent, Keeps, Keeps-preorder, Keeps-same, insert_run-Keeps,
}
use wifi_validation_framewor.Runs.Consistency.Methods.{
  method_rules, transition-Keeps, finish-Keeps, start_run_after_health-Keeps, start_run-Keeps,
  begin_lab_health_check-Keeps, record_environment_health-Keeps,
}
use wifi_validation_framewor.Runs.Service.{
  Call, create, attempt, record_result, move, start, begin_check, record_health, start_checked,
  complete, fail, lab_fail, cancel, timeout, disconnect, crash, abort, ask_cancel, promote, call,
  calls,
}
use wifi_validation_framewor.Runs.Endings.{
  lab_fail_run, cancel_run, timeout_run, runner_disconnected, worker_crashed, abort_run,
}

pub latest_attempt_results-Keeps : (k : String) → Respects Keeps (latest_attempt_results k)
unfolding latest_attempt_results
latest_attempt_results-Keeps k = search method_rules

pub derive_business_outcome-Keeps : (k : String) → Respects Keeps (derive_business_outcome k)
unfolding derive_business_outcome
derive_business_outcome-Keeps k = search (method_rules, latest_attempt_results-Keeps)

ruleset service_rules = (method_rules, latest_attempt_results-Keeps, derive_business_outcome-Keeps)

pub complete_run-Keeps :
    (k : String) (o : Option BusinessOutcome) → Respects Keeps (complete_run k o)
unfolding complete_run
complete_run-Keeps k o =
    let rule : (derived : BusinessOutcome)
        → Respects Keeps (finish k completed derived "RUN_COMPLETED" none none) =
      λ derived. finish-Keeps k completed derived "RUN_COMPLETED" none none refl (λ _. refl) in
    search (service_rules, rule)

failure_outcome-Keeps :
    (k : String) (c : Option FailureClass) → Respects Keeps (failure_outcome k c)
unfolding failure_outcome
failure_outcome-Keeps k none = search service_rules
failure_outcome-Keeps k (some FailureClass.product_failed) = search service_rules
failure_outcome-Keeps k (some _) = search service_rules

downgraded-validated : (o : BusinessOutcome) → is_validated (downgraded o) ≡ false
downgraded-validated o = ground arith

-- A failed Run is never given a validated outcome.
pub failure_outcome-ok :
    (k : String) (c : Option FailureClass) (s : RunService) (o : BusinessOutcome)
    → (failure_outcome k c s).0 ≡ ok o
    → is_validated o ≡ false
unfolding failure_outcome pure
failure_outcome-ok k none s o h =
    let (derived, _, p) = >>=-ok (derive_business_outcome k) (λ d. pure (downgraded d)) s h in
    let q : downgraded derived ≡ o = cc (h, ap (λ r. r.0) p) in
    subst (λ x. is_validated x ≡ false) q (downgraded-validated derived)
failure_outcome-ok k (some FailureClass.product_failed) s o h =
    let p : BusinessOutcome.rejected ≡ o = cc h in subst (λ x. is_validated x ≡ false) p refl
failure_outcome-ok k (some FailureClass.lab_failed) s o h =
    let p : BusinessOutcome.unvalidated ≡ o = cc h in subst (λ x. is_validated x ≡ false) p refl
failure_outcome-ok k (some FailureClass.runner_disconnected) s o h =
    let p : BusinessOutcome.unvalidated ≡ o = cc h in subst (λ x. is_validated x ≡ false) p refl
failure_outcome-ok k (some FailureClass.worker_crashed) s o h =
    let p : BusinessOutcome.unvalidated ≡ o = cc h in subst (λ x. is_validated x ≡ false) p refl
failure_outcome-ok k (some FailureClass.timed_out) s o h =
    let p : BusinessOutcome.unvalidated ≡ o = cc h in subst (λ x. is_validated x ≡ false) p refl
failure_outcome-ok k (some FailureClass.cancelled) s o h =
    let p : BusinessOutcome.unvalidated ≡ o = cc h in subst (λ x. is_validated x ≡ false) p refl
failure_outcome-ok k (some FailureClass.aborted) s o h =
    let p : BusinessOutcome.unvalidated ≡ o = cc h in subst (λ x. is_validated x ≡ false) p refl

pub fail_run-Keeps :
    (k : String) (reason : Option String) (c : Option FailureClass)
    → Respects Keeps (fail_run k reason c)
unfolding fail_run
fail_run-Keeps k reason c = record {
  at = λ s.
      Respects-bind_at Keeps-preorder (failure_outcome k c) _ s ((failure_outcome-Keeps k c).at s)
        λ o done.
          (finish-Keeps k failed o "RUN_FAILED" c reason refl
              (λ v. cc (failure_outcome-ok k c s o done, v))).at
            (failure_outcome k c s).1;
}

cancellation_requested-Keeps : (k : String) → Respects Keeps (cancellation_requested k)
unfolding cancellation_requested
cancellation_requested-Keeps k = search service_rules

note_request-Keeps :
    (b : Bool) (k actor reason : String) → Respects Keeps (note_request b k actor reason)
unfolding note_request
note_request-Keeps true k actor reason = search service_rules
note_request-Keeps false k actor reason = search service_rules

pub request_cancel-Keeps :
    (k actor reason : String) → Respects Keeps (request_cancel k actor reason)
unfolding request_cancel
request_cancel-Keeps k actor reason =
    search (service_rules, cancellation_requested-Keeps, note_request-Keeps) depth 9

check_retry_source-Keeps : (k : Option String) → Respects Keeps (check_retry_source k)
unfolding check_retry_source
check_retry_source-Keeps none = search service_rules
check_retry_source-Keeps (some k) = search service_rules

rolled_back :
    {A : Type 0} (s : RunService) (r : Result Error A × RunService)
    → Keeps s r.1
    → Keeps s (transaction (λ _. r) s).1
unfolding transaction
rolled_back s (ok a, t) h = h
rolled_back s (raised e, t) h = Keeps-preorder.refl_at s

transaction-Keeps : {A : Type 0} (m : Action A) → Respects Keeps m → Respects Keeps (transaction m)
unfolding transaction
transaction-Keeps m h = record { at = λ s. rolled_back s (m s) (h.at s) }

save_initial_bundle-Keeps :
    (r : Run) (a : Attempt) (e f : LifecycleEvent)
    → IsConsistent r
    → Respects Keeps (save_initial_bundle r a e f)
unfolding save_initial_bundle
save_initial_bundle-Keeps r a e f h =
    search (service_rules, transaction-Keeps, insert_run-Keeps) depth 16

check_run-same : (r x : Run) → check_run r ≡ ok x → r ≡ x
unfolding check_run
check_run-same r x h = ground arith

-- `check_run` gives its argument back.
module _ {B : Type 0} (r : Run) (f : Run → Action B) where
  checked-Keeps : Respects Keeps (f r) → Respects Keeps (lift (check_run r) >>= f)
  unfolding lift
  checked-Keeps h = record {
    at = λ s.
        Respects-bind_at Keeps-preorder (lift (check_run r)) f s (Keeps-preorder.refl_at s)
          λ x done. subst (λ y. Keeps s (f y s).1) (check_run-same r x done) (h.at s);
  }

new_run-IsConsistent :
    (q : RunRequest) (k d : String) (config : Fields) (digest : String) (now : Time)
    → IsConsistent (new_run q k d config digest now)
new_run-IsConsistent q k d config digest now = record {
  outcome = refl;
  end = refl;
  validated = λ v. cc v;
}

pub create_run-Keeps : (q : RunRequest) → Respects Keeps (create_run q)
unfolding create_run
create_run-Keeps q =
    search
      (
        service_rules, check_retry_source-Keeps, checked-Keeps, save_initial_bundle-Keeps,
        new_run-IsConsistent,
      )
      depth 24

pub create_attempt-Keeps : (k : String) → Respects Keeps (create_attempt k)
unfolding create_attempt
create_attempt-Keeps k = search service_rules depth 16

time_or_now-Keeps : (t : Option Time) → Respects Keeps (time_or_now t)
unfolding time_or_now
time_or_now-Keeps none = search service_rules
time_or_now-Keeps (some t) = search service_rules

pub record_test_result-Keeps : (q : ResultRequest) → Respects Keeps (record_test_result q)
unfolding record_test_result
record_test_result-Keeps q = search (service_rules, time_or_now-Keeps) depth 24

committed-Keeps :
    (r : Result Error (List Baseline)) (s : RunService) → Keeps s (committed_baseline r s).1
committed-Keeps (ok new) s = Keeps-same s (record s { baselines = some new }) refl
committed-Keeps (raised e) s = Keeps-preorder.refl_at s

replace_in-Keeps :
    (table : Option (List Baseline)) (b : Baseline) → Respects Keeps (replace_in table b)
unfolding replace_in
replace_in-Keeps none b = record { at = λ s. Keeps-preorder.refl_at s }
replace_in-Keeps (some rows) b = record {
  at = λ s. committed-Keeps (Baselines.save_replacing_active (run_exists s) b rows) s;
}

replace_active-Keeps : (b : Baseline) → Respects Keeps (replace_active b)
unfolding replace_active
replace_active-Keeps b = record { at = λ s. (replace_in-Keeps s.baselines b).at s }

pub promote_baseline-Keeps :
    (default : TestRegistry) (k : String) (q : PromotionRequest)
    → Respects Keeps (promote_baseline default k q)
unfolding promote_baseline
promote_baseline-Keeps default k q = search (service_rules, replace_active-Keeps) depth 24

-- The program calls `transition` itself only with a state that is not terminal; a Run ends by the
-- methods that give it an outcome.
abbrev pub is_proper : Call → Bool
is_proper (move k target) = not (is_terminal target)
is_proper _ = true

not-true : (b : Bool) → not b ≡ true → b ≡ false
not-true b h = ground arith

call-Keeps : (c : Call) (s : RunService) → is_proper c ≡ true → Keeps s (call c s)
unfolding call lab_fail_run cancel_run timeout_run runner_disconnected worker_crashed abort_run
call-Keeps (create q) s h = (create_run-Keeps q).at s
call-Keeps (attempt k) s h = (create_attempt-Keeps k).at s
call-Keeps (record_result q) s h = (record_test_result-Keeps q).at s
call-Keeps (move k target) s h = (transition-Keeps k target (not-true (is_terminal target) h)).at s
call-Keeps (start k) s h = (start_run-Keeps k).at s
call-Keeps (begin_check k) s h = (begin_lab_health_check-Keeps k).at s
call-Keeps (record_health k status) s h = (record_environment_health-Keeps k status).at s
call-Keeps (start_checked k) s h = (start_run_after_health-Keeps k).at s
call-Keeps (complete k outcome) s h = (complete_run-Keeps k outcome).at s
call-Keeps (fail k reason c) s h = (fail_run-Keeps k reason c).at s
call-Keeps (lab_fail k reason) s h = (finish-Keeps _ _ _ _ _ _ refl (λ v. cc v)).at s
call-Keeps (cancel k actor reason) s h = (finish-Keeps _ _ _ _ _ _ refl (λ v. cc v)).at s
call-Keeps (timeout k reason) s h = (finish-Keeps _ _ _ _ _ _ refl (λ v. cc v)).at s
call-Keeps (disconnect k reason) s h = (finish-Keeps _ _ _ _ _ _ refl (λ v. cc v)).at s
call-Keeps (crash k reason) s h = (finish-Keeps _ _ _ _ _ _ refl (λ v. cc v)).at s
call-Keeps (abort k reason) s h = (finish-Keeps _ _ _ _ _ _ refl (λ v. cc v)).at s
call-Keeps (ask_cancel k actor reason) s h = (request_cancel-Keeps k actor reason).at s
call-Keeps (promote default k q) s h = (promote_baseline-Keeps default k q).at s

-- Through any sequence of calls, whichever of them raise, the stored Runs stay consistent, if no call
-- moves a Run to a terminal state by `transition` alone: a Run has an outcome and an end exactly when
-- it is terminal, and only a completed Run is validated.
pub calls-Consistent :
    (cs : List Call) (s : RunService)
    → all is_proper cs ≡ true
    → All IsConsistent s.runs
    → All IsConsistent (calls cs s).runs
unfolding calls
calls-Consistent [] s p h = h
calls-Consistent (c ∷ cs) s p h =
    calls-Consistent cs (call c s) (ground arith) ((call-Keeps c s (ground arith)).kept h)
