-- ===== src/Runs/Gains.antt =====
-- What it takes for `complete_run` and `promote_baseline` (lib/services/run_service.py) to return.
use wifi_validation_framewor.Prelude.{
  some-eq, >>=-ok, for_each, last?, ◌≡◌, ◌∙◌, sym, ap, String, Bool, true, false, not, ◌||◌, Option,
  none, some, List, arith, map, ok, pure, reads, ◌>>=◌, ◌>>◌, find_row, Option-cases, inl, inr,
  reads-ok, reject_if-ok, require-ok, lift-ok,
}
use wifi_validation_framewor.Domain.Status.{
  FailureClass, BusinessOutcome, RunLifecycle, is_validated,
}
use wifi_validation_framewor.Domain.Entities.{Time, Run, TestResult, Baseline}
use wifi_validation_framewor.Registry.{TestRegistry}
use wifi_validation_framewor.Runs.Store.{RunService, Action, clock}
use wifi_validation_framewor.Runs.Repositories.{run_key, attempts_of, update_run, list_attempts}
use wifi_validation_framewor.Runs.Lifecycle.{
  require_run, allowed, finish, finished, event, close_attempt, attempt_id_of, finish_details,
}
use wifi_validation_framewor.Runs.Outcome.{
  latest_attempt_results, derive_business_outcome, outcome_of, results_in, selected_result_map,
}
use wifi_validation_framewor.Runs.Promotion.{
  PromotionRequest, promote_baseline, is_completed, is_healthy, has_outcome, check_each,
  registry_of,
}
use wifi_validation_framewor.Runs.Advance.Quiet.{
  require_run_lem, require_run_missing, Returns, Returns-bind, Returns-pure,
}

-- The results of the latest attempt of a Run.
abbrev pub results_at : String → RunService → List TestResult
results_at k s = results_in s.test_results (attempts_of k s.attempts)

module _ {B : Type 0} (s : RunService) {b : B} where
  require_run-ok :
      (k : String) (f : Run → Action B)
      → ((require_run k >>= f) s).0 ≡ ok b
      → (run : Run) × (find_row run_key k s.runs ≡ some run) × ((f run s).0 ≡ ok b)
  unfolding ◌>>=◌
  require_run-ok k f h = elim (Option-cases (find_row run_key k s.runs)) [
    | inl missing ↦ cc (rw (require_run_missing k s missing) at h)
    | inr (run, stored) ↦ (run, stored, rw (require_run_lem k s stored) at h)
  ]

  derive-ok :
      (k : String) (f : BusinessOutcome → Action B)
      → ((derive_business_outcome k >>= f) s).0 ≡ ok b
      → (run : Run) × (find_row run_key k s.runs ≡ some run)
        × ((f (outcome_of run (results_at k s)) s).0 ≡ ok b)
  unfolding derive_business_outcome latest_attempt_results ◌>>=◌
  derive-ok k f h = elim (Option-cases (find_row run_key k s.runs)) [
    | inl missing ↦ cc (rw (require_run_missing k s missing) at h)
    | inr (run, stored) ↦ (run, stored, rw (require_run_lem k s stored) at h)
  ]

-- What a Run and its recorded facts must be for a baseline.
pub record IsPromotable (default : TestRegistry) (k : String) (s : RunService) : Type 0 where
  pub run : Run
  pub stored : find_row run_key k s.runs ≡ some run
  pub ended : is_completed run.lifecycle ≡ true
  pub healthy : is_healthy run.environment_health ≡ true
  pub outcome : run.outcome ≡ some (outcome_of run (results_at k s))
  pub validated : is_validated (outcome_of run (results_at k s)) ≡ true
  pub pairs : List (String × TestResult)
  pub mapped : selected_result_map run (results_at k s) ≡ some pairs
  pub checked :
      check_each s.host.floats
        (registry_of s.test_registry default)
        (map (λ (p : String × TestResult). p.1) pairs)
      ≡ ok tt

not-false : (b : Bool) → not b ≡ false → b ≡ true
not-false b h = ground arith

both-false : (a b : Bool) → (not a || not b) ≡ false → (a ≡ true) × (b ≡ true)
both-false a b h = (ground arith, ground arith)

has_outcome-some :
    (o : Option BusinessOutcome) (d : BusinessOutcome) → has_outcome o d ≡ true → o ≡ some d
has_outcome-some none d h = cc h
has_outcome-some (some o) d h = ap some (ground arith)

-- `promote_baseline` returns only for a stored Run that is COMPLETED and HEALTHY, whose stored outcome is
-- the one that its recorded results give, a validated one, and whose selected results each pass the
-- checks for a promotion.
pub promote_baseline-ok :
    (default : TestRegistry) (k : String) (q : PromotionRequest) (s : RunService) (b : Baseline)
    → (promote_baseline default k q s).0 ≡ ok b
    → IsPromotable default k s
unfolding promote_baseline reads latest_attempt_results
promote_baseline-ok default k q s b h =
    let (_, _, h1) = require-ok s _ _ _ (reads-ok s _ _ h) in
    let (run, stored, h2) = require_run-ok s k _ h1 in
    let (state, h3) = reject_if-ok s _ _ _ h2 in
    let (run', stored', h4) = derive-ok s k _ h3 in
    let (agrees, h5) = reject_if-ok s _ _ _ h4 in
    let (_, h6) = reject_if-ok s _ _ _ h5 in
    let h7 : _ = reads-ok s _ _ h6 in
    let (pairs, mapped, h8) = require-ok s _ _ _ h7 in
    let (_, checked, _) = lift-ok s _ _ (reads-ok s _ _ h8) in
    let (completed_run, healthy_run) =
      both-false (is_completed run.lifecycle) (is_healthy run.environment_health) state in
    let same : run' ≡ run = some-eq (sym stored' ∙ stored) in
    let (matches, fine) =
      both-false (has_outcome run.outcome (outcome_of run' (results_at k s)))
        (is_validated (outcome_of run' (results_at k s))) agrees in
    record {
      run = run;
      stored = stored;
      ended = completed_run;
      healthy = healthy_run;
      outcome =
          has_outcome-some run.outcome _ matches
          ∙ ap (λ r. some (outcome_of r (results_at k s))) same;
      validated = ap (λ r. is_validated (outcome_of r (results_at k s))) (sym same) ∙ fine;
      pairs = pairs;
      mapped = mapped;
      checked = checked;
    }

-- A Run as it was when it ended, and as it is given back.
pub record EndsAs (k : String) (target : RunLifecycle) (outcome : BusinessOutcome)
    (c : Option FailureClass) (reason : Option String) (s : RunService) (r : Run) : Type 0 where
  pub run : Run
  pub stored : find_row run_key k s.runs ≡ some run
  pub legal : allowed run.lifecycle target ≡ true
  pub now : Time
  pub given : r ≡ finished run target outcome c reason now

finish-rest :
    (x : Run) (k t : String) (now : Time) (c : Option FailureClass) (reason : Option String)
    → Returns x (do
      update_run x
      attempts ← list_attempts k
      for_each (close_attempt now) attempts
      event k t now (attempt_id_of (last? attempts)) (finish_details c reason)
      pure x)
finish-rest x k t now c reason = search (Returns-bind, Returns-pure) depth 9

pub finish-ok :
    (k : String) (target : RunLifecycle) (o : BusinessOutcome) (t : String)
    (c : Option FailureClass) (reason : Option String) (s : RunService) (r : Run)
    → (finish k target o t c reason s).0 ≡ ok r
    → EndsAs k target o c reason s r
unfolding finish
finish-ok k target o t c reason s r h =
    let (run, stored, h1) = require_run-ok s k _ h in
    let (legal, h2) = reject_if-ok s _ _ _ h1 in
    let (now, _, p) = >>=-ok clock _ s h2 in
    record {
      run = run;
      stored = stored;
      legal = not-false (allowed run.lifecycle target) legal;
      now = now;
      given =
          (finish-rest (finished run target o c reason now) k t now c reason).value (clock s).1 r
            (sym (ap (λ q. q.0) p) ∙ h2);
    }
