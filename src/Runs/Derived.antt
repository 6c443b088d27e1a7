-- ===== src/Runs/Derived.antt =====
-- When `derive_business_outcome` (lib/services/run_service.py) finds a Run validated, from what the
-- store holds of it.
use wifi_validation_framewor.Prelude.{
  String, ◌≡◌, refl, ◌>>=◌, Bool, true, false, some, List, ◌↔◌, ok, find_row,
}
use wifi_validation_framewor.Domain.Status.{BusinessOutcome, is_validated}
use wifi_validation_framewor.Domain.Entities.{Run, TestResult}
use wifi_validation_framewor.Runs.Store.{RunService}
use wifi_validation_framewor.Runs.Repositories.{run_key, attempts_of}
use wifi_validation_framewor.Runs.Outcome.{
  derive_business_outcome, latest_attempt_results, results_in, outcome_of,
}
use wifi_validation_framewor.Runs.Judgement.{
  Acceptable, Passed, is_plain, Mapped, judged, judge-Acceptable, judge-Passed,
}
use wifi_validation_framewor.Runs.Advance.Quiet.{require_run_lem}
use wifi_validation_framewor.Runs.Latest.{AreLatest, results_in-AreLatest}
use wifi_validation_framewor.Runs.Selected.{Evidence, Mapped-Evidence}

-- An outcome is derived, and it passes the test exactly on the evidence of the latest results.
pub record IsDerived (accepted : BusinessOutcome → Bool) (P : TestResult → Type 0) (s : RunService)
    (run_id : String) (run : Run) : Type 0 where
  pub results : List TestResult
  pub latest : AreLatest s run_id results
  pub outcome : BusinessOutcome
  pub returns : (derive_business_outcome run_id s).0 ≡ ok outcome
  pub evidence : (accepted outcome ≡ true) ↔ Evidence P run results

module _ (s : RunService) (run_id : String) (run : Run)
    (found : find_row run_key run_id s.runs ≡ some run) where
  abbrev stored : List TestResult
  stored = results_in s.test_results (attempts_of run_id s.attempts)

  derives : (derive_business_outcome run_id s).0 ≡ ok (outcome_of run stored)
  unfolding derive_business_outcome latest_attempt_results ◌>>=◌
  derives = rw (require_run_lem run_id s found) refl

  by_evidence :
      (accepted : BusinessOutcome → Bool) (P : TestResult → Type 0)
      → ((results : List TestResult)
          → (accepted (outcome_of run results) ≡ true) ↔ Mapped P run results)
      → IsDerived accepted P s run_id run
  by_evidence accepted P spec = record {
    results = stored;
    latest = results_in-AreLatest s run_id;
    outcome = outcome_of run stored;
    returns = derives;
    evidence = (
      λ h. (Mapped-Evidence P run stored).0 ((spec stored).0 h),
      λ e. (spec stored).1 ((Mapped-Evidence P run stored).1 e),
    );
  }

  -- The outcome that is derived for a stored Run is a validated one, with or without warnings,
  -- exactly where its environment was usable and, of the results of its latest attempt, each is named
  -- by exactly one of its distinct selected tests and each selected test names one, which does not
  -- stand in the way.
  pub derive_business_outcome-validated : IsDerived is_validated Acceptable s run_id run
  derive_business_outcome-validated =
      by_evidence is_validated Acceptable
        (judged is_validated Acceptable refl (judge-Acceptable false) run)

  -- The outcome that is derived for a stored Run is VALIDATED without warnings exactly where its
  -- environment was usable and, of the results of its latest attempt, each is named by exactly one of
  -- its distinct selected tests and each selected test names one, which passed with its evidence.
  pub derive_business_outcome-plain : IsDerived is_plain Passed s run_id run
  derive_business_outcome-plain =
      by_evidence is_plain Passed (judged is_plain Passed refl judge-Passed run)
