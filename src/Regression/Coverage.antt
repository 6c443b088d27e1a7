-- ===== src/Regression/Coverage.antt =====
-- Which tests a report of lib/services/regression_intelligence.py assesses.
use mathlib.Core.Path.{subst}
use wifi_validation_framewor.Prelude.{
  any, ◌||◌, ◌∙◌, ◌++◌, distinct, contains, contains-sorted_set, distinct-sorted_set, any-append,
  String, ◌≡◌, sym, refl, ap, inl, inr, arith, eq_iff, eq_refl, Bool, true, Option, none, some,
  List, [], ◌∷◌, map, ◌is◌, Result, ok, raised, Bool-cases, find_row,
}
use wifi_validation_framewor.Domain.Json.{Float}
use wifi_validation_framewor.Domain.Entities.{Run, TestResult}
use wifi_validation_framewor.Registry.{TestRegistry, TestDefinition, get}
use wifi_validation_framewor.Runs.Store.{RunService}
use wifi_validation_framewor.Runs.Repositories.{run_key}
use wifi_validation_framewor.Regression.{
  compare_context, ComparabilityStatus, RegressionMetricComparison, RegressionAssessment,
  RunRegressionReport, DeltaOps, FlakyTestHistory,
}
use wifi_validation_framewor.Regression.Assessment.{
  compare_registered, compare_defined, compare_test, measured, compare_metrics, metric_names,
}
use wifi_validation_framewor.Regression.Runs.{
  Comparison, result_for, is_comparable, assess, assess_all, compare_found, compare_runs, test_ids,
  selected_test_id, latest_results, missing_current, context_blocked, new_test, add_assessment,
  report, assessed, compare_pair,
}

-- An assessment that is given is one of the test.
abbrev pub names : String → Result String RegressionAssessment → Bool
names t (raised e) = true
names t (ok a) = a.test_id is t

measured-names :
    (o : DeltaOps) (registry : TestRegistry) (default : Float) (base curr : TestResult)
    (history : FlakyTestHistory) (r : Result String (List RegressionMetricComparison))
    → names curr.test_id (measured o registry default base curr history r) ≡ true
measured-names o registry default base curr history (raised e) = refl
measured-names o registry default base curr history (ok cs) = eq_refl curr.test_id

compare_registered-names :
    (o : DeltaOps) (registry : TestRegistry) (default : Float)
    (overrides : List (String × String × Float)) (run : Run) (base curr : TestResult)
    (history : FlakyTestHistory)
    → names curr.test_id (compare_registered o registry default overrides run base curr history)
      ≡ true
unfolding compare_registered
compare_registered-names o registry default overrides run base curr history =
    let metrics : names curr.test_id _ ≡ true =
      measured-names o registry default base curr history (
        compare_metrics o registry default overrides run base curr
          (metric_names o registry default base curr)) in
    ground (arith, metrics, eq_refl curr.test_id)

compare_test-names :
    (o : DeltaOps) (registry : TestRegistry) (default : Float)
    (overrides : List (String × String × Float)) (run : Run) (base curr : TestResult)
    (observations : List String)
    → names curr.test_id (compare_test o registry default overrides run base curr observations)
      ≡ true
unfolding compare_test
compare_test-names o registry default overrides run base curr observations =
    by_definition (get registry curr.test_id)
  where
    by_definition :
        (d : Option TestDefinition)
        → names curr.test_id
            (compare_defined o registry default overrides run base curr observations d)
          ≡ true
    by_definition none = refl
    by_definition (some d) = compare_registered-names o registry default overrides run base curr _

pub result_for-test_id :
    (t : String) (rs : List TestResult) (r : TestResult) → result_for t rs ≡ some r → r.test_id ≡ t
unfolding result_for
result_for-test_id t [] r h = cc h
result_for-test_id t (x ∷ rs) r h = ground (arith, result_for-test_id t rs r, eq_iff x.test_id t)

assessed-names :
    (c : Comparison) (t : String) (a : TestDefinition → RegressionAssessment)
    → ((d : TestDefinition) → (a d).test_id ≡ t)
    → (d : Option TestDefinition) → names t (assessed c d a) ≡ true
assessed-names c t a h none = refl
assessed-names c t a h (some d) = (eq_iff (a d).test_id t).1 (h d)

module _ (c : Comparison) (baseline current : Run) where
  pair-names :
      (t : String) (base : Option TestResult) (r : TestResult)
      → r.test_id ≡ t
      → names t (compare_pair c baseline current t base r) ≡ true
  unfolding new_test
  pair-names t none r same = assessed-names c t _ (λ d. refl) (get c.registry t)
  pair-names t (some b) r same =
      subst (λ k. names k (compare_pair c baseline current t (some b) r) ≡ true) same
        (compare_test-names c.ops c.registry c.default_threshold c.overrides current b r _)

  found-names :
      (context : ComparabilityStatus × String) (t : String) (base found : Option TestResult)
      → ((r : TestResult) → found ≡ some r → r.test_id ≡ t)
      → names t (assess c baseline current context t base found) ≡ true
  unfolding assess missing_current context_blocked
  found-names context t base none same = assessed-names c t _ (λ d. refl) (get c.registry t)
  found-names context t base (some r) same = elim (Bool-cases (is_comparable context.0)) [
    | inr apart ↦ rw apart (assessed-names c t _ (λ d. refl) (get c.registry t))
    | inl together ↦ rw together (pair-names t base r (same r refl))
  ]

  add-map :
      (t : String) (ts : List String) (a : Result String RegressionAssessment)
      (rest : Result String (List RegressionAssessment)) (all : List RegressionAssessment)
      → names t a ≡ true
      → ((xs : List RegressionAssessment)
          → rest ≡ ok xs
          → map (λ (x : RegressionAssessment). x.test_id) xs ≡ ts)
      → add_assessment c a rest ≡ ok all
      → map (λ (x : RegressionAssessment). x.test_id) all ≡ t ∷ ts
  add-map t ts (raised e) rest all n h p = cc p
  add-map t ts (ok a) (raised e) all n h p = cc p
  add-map t ts (ok a) (ok xs) all n h p =
      let whole : a ∷ xs ≡ all = cc p in
      subst (λ l. map (λ (x : RegressionAssessment). x.test_id) l ≡ t ∷ ts) whole
        (rw ((eq_iff a.test_id t).0 n, h xs refl))

  assess_all-test_ids :
      (context : ComparabilityStatus × String) (before now : List TestResult) (ts : List String)
      (all : List RegressionAssessment)
      → assess_all c baseline current context before now ts ≡ ok all
      → map (λ (x : RegressionAssessment). x.test_id) all ≡ ts
  unfolding assess_all
  assess_all-test_ids context before now [] all h =
      let whole : [] ≡ all = cc h in ap (map (λ (x : RegressionAssessment). x.test_id)) (sym whole)
  assess_all-test_ids context before now (t ∷ ts) all h =
      add-map t ts (assess c baseline current context t (result_for t before) (result_for t now)) _
        all
        (found-names context t (result_for t before) (result_for t now)
          (λ r e. result_for-test_id t now r e))
        (λ xs e. assess_all-test_ids context before now ts xs e) h

report-assessments :
    (c : Comparison) (k j reason : String) (status : ComparabilityStatus)
    (res : Result String (List RegressionAssessment)) (r : RunRegressionReport)
    → report c k j status reason res ≡ ok r
    → res ≡ ok r.assessments
report-assessments c k j reason status (raised e) r h = cc h
report-assessments c k j reason status (ok found) r h =
    ap (λ (x : Result String RunRegressionReport). assessments_in x) h
  where
    assessments_in : Result String RunRegressionReport → Result String (List RegressionAssessment)
    assessments_in (raised e) = raised e
    assessments_in (ok x) = ok x.assessments

-- A Run selects the test: one of the names that it selects stands for it.
abbrev pub selects : Comparison → Run → String → Bool
selects c run t = any (λ n. selected_test_id c n is t) run.selected_tests

-- Identifiers without repeats, those of the tests that either Run selects.
pub record CoversBoth (c : Comparison) (baseline current : Run) (ids : List String) : Type 0 where
  pub once : distinct ids ≡ true
  pub each : (t : String) → contains ids t ≡ (selects c baseline t || selects c current t)

contains-map :
    (f : String → String) (xs : List String) (t : String)
    → contains (map f xs) t ≡ any (λ n. f n is t) xs
contains-map f [] t = refl
contains-map f (x ∷ xs) t = ap (λ b. f x is t || b) (contains-map f xs t)

test_ids-CoversBoth :
    (c : Comparison) (baseline current : Run)
    → CoversBoth c baseline current (test_ids c baseline current)
unfolding test_ids
test_ids-CoversBoth c baseline current =
    let selected = baseline.selected_tests ++ current.selected_tests in
    record {
      once = distinct-sorted_set (map (selected_test_id c) selected);
      each = λ t.
          contains-sorted_set (map (selected_test_id c) selected) t
          ∙ contains-map (selected_test_id c) selected t
          ∙ any-append (λ n. selected_test_id c n is t) baseline.selected_tests
              current.selected_tests;
    }

-- A report on two stored Runs assesses each test that either of them selects once, and no other test,
-- whether or not there are results for it.
pub compare_runs-CoversBoth :
    (c : Comparison) (s : RunService) (baseline_id current_id : String)
    (baseline_class current_class : Option String) (baseline current : Run)
    (r : RunRegressionReport)
    → find_row run_key baseline_id s.runs ≡ some baseline
    → find_row run_key current_id s.runs ≡ some current
    → compare_runs c s baseline_id current_id baseline_class current_class ≡ ok r
    → CoversBoth c baseline current (map (λ (x : RegressionAssessment). x.test_id) r.assessments)
unfolding compare_runs compare_found
compare_runs-CoversBoth c s baseline_id current_id baseline_class current_class baseline current r p
      q h =
    let context : ComparabilityStatus × String =
      compare_context baseline current baseline_class current_class in
    let found : compare_found c s baseline_id current_id baseline_class current_class
          (some baseline) (some current)
        ≡ ok r =
      rw (p, q) at h in
    subst (CoversBoth c baseline current)
      (sym (
        assess_all-test_ids c baseline current context (latest_results s (some baseline))
          (latest_results s (some current)) (test_ids c baseline current) r.assessments
          (report-assessments c baseline_id current_id context.1 context.0 _ r found)))
      (test_ids-CoversBoth c baseline current)
