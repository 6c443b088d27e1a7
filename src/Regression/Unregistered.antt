-- ===== src/Regression/Unregistered.antt =====
-- What lib/services/regression_intelligence.py makes of a selected test that the registry does not know.
use mathlib.Core.Path.{subst}
use wifi_validation_framewor.Prelude.{
  String, ◌≡◌, sym, refl, inl, inr, arith, eq_iff, Bool, true, false, Option, none, some, List, [],
  ◌∷◌, ◌is◌, Result, ok, raised, Bool-cases, find_row, contains,
}
use wifi_validation_framewor.Domain.Entities.{Run, TestResult}
use wifi_validation_framewor.Registry.{get}
use wifi_validation_framewor.Runs.Store.{RunService}
use wifi_validation_framewor.Runs.Repositories.{run_key}
use wifi_validation_framewor.Regression.{compare_context, ComparabilityStatus, RegressionAssessment}
use wifi_validation_framewor.Regression.Assessment.{compare_test}
use wifi_validation_framewor.Regression.Coverage.{result_for-test_id}
use wifi_validation_framewor.Regression.Runs.{
  Comparison, result_for, is_comparable, assess, assess_all, compare_found, compare_runs, test_ids,
  latest_results, missing_current, context_blocked, new_test, add_assessment, report, compare_pair,
}

abbrev pub gives_report : {A : Type 0} → Result String A → Bool
gives_report (ok a) = true
gives_report (raised e) = false

module _ (c : Comparison) (baseline current : Run) (context : ComparabilityStatus × String)
    (t : String) (unknown : get c.registry t ≡ none) where
  compared-unknown :
      (base : Option TestResult) (r : TestResult)
      → r.test_id ≡ t
      → gives_report (compare_pair c baseline current t base r) ≡ false
  unfolding new_test compare_test
  compared-unknown none r same = rw unknown refl
  compared-unknown (some b) r same = rw (same, unknown) refl

  assess-unknown :
      (base found : Option TestResult)
      → ((r : TestResult) → found ≡ some r → r.test_id ≡ t)
      → gives_report (assess c baseline current context t base found) ≡ false
  unfolding assess missing_current context_blocked
  assess-unknown base none same = rw unknown refl
  assess-unknown base (some r) same = elim (Bool-cases (is_comparable context.0)) [
    | inr apart ↦ rw (apart, unknown) refl
    | inl together ↦ rw together (compared-unknown base r (same r refl))
  ]

  first-unknown :
      (a : Result String RegressionAssessment) (rest : Result String (List RegressionAssessment))
      → gives_report a ≡ false
      → gives_report (add_assessment c a rest) ≡ false
  first-unknown (raised e) rest h = refl
  first-unknown (ok a) rest h = cc h

  later-unknown :
      (a : Result String RegressionAssessment) (rest : Result String (List RegressionAssessment))
      → gives_report rest ≡ false
      → gives_report (add_assessment c a rest) ≡ false
  later-unknown (raised e) rest h = refl
  later-unknown (ok a) (raised e) h = refl
  later-unknown (ok a) (ok xs) h = cc h

  assess_all-unknown :
      (before now : List TestResult) (ts : List String)
      → contains ts t ≡ true
      → gives_report (assess_all c baseline current context before now ts) ≡ false
  unfolding assess_all
  assess_all-unknown before now [] h = cc h
  assess_all-unknown before now (x ∷ ts) h = elim (Bool-cases (x is t)) [
    | inl e ↦ first-unknown _ _ (
        subst
          (λ k.
            gives_report
              (assess c baseline current context k (result_for k before) (result_for k now))
            ≡ false)
          (sym ((eq_iff x t).0 e))
          (assess-unknown (result_for t before) (result_for t now)
            (λ r p. result_for-test_id t now r p)))
    | inr e ↦ later-unknown _ _ (assess_all-unknown before now ts (ground arith))
  ]

report-unknown :
    (c : Comparison) (k j reason : String) (status : ComparabilityStatus)
    (res : Result String (List RegressionAssessment))
    → gives_report res ≡ false
    → gives_report (report c k j status reason res) ≡ false
report-unknown c k j reason status (raised e) h = refl
report-unknown c k j reason status (ok xs) h = cc h

-- One selected test that the registry does not know keeps two stored Runs from being compared at all:
-- the comparison raises, though the registry makes an identifier for such a test.
pub compare_runs-unknown :
    (c : Comparison) (s : RunService) (baseline_id current_id : String)
    (baseline_class current_class : Option String) (baseline current : Run) (t : String)
    → find_row run_key baseline_id s.runs ≡ some baseline
    → find_row run_key current_id s.runs ≡ some current
    → contains (test_ids c baseline current) t ≡ true
    → get c.registry t ≡ none
    → gives_report (compare_runs c s baseline_id current_id baseline_class current_class) ≡ false
unfolding compare_runs compare_found
compare_runs-unknown c s baseline_id current_id baseline_class current_class baseline current t p q
      selected unknown =
    let context : ComparabilityStatus × String =
      compare_context baseline current baseline_class current_class in
    rw (p, q)
      (report-unknown c baseline_id current_id context.1 context.0 _ (
        assess_all-unknown c baseline current context t unknown (latest_results s (some baseline))
          (latest_results s (some current)) (test_ids c baseline current) selected))
