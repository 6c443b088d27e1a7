-- ===== src/Regression/Decisions.antt =====
-- What the comparison of two Runs decides (lib/services/regression_intelligence.py).
use mathlib.Core.Path.{subst}
use mathlib.Core.List.{Perm}
use wifi_validation_framewor.Prelude.{
  String, ◌≡◌, refl, ◌↔◌, arith, eq_iff, Bool, true, false, not, ◌&&◌, Option, none, some, List, [],
  ◌∷◌, map, distinct, ap, some-eq, Result, ok, raised, any, all,
}
use wifi_validation_framewor.Domain.Status.{RegressionClass, is_pass}
use wifi_validation_framewor.Domain.Json.{Float}
use wifi_validation_framewor.Domain.Entities.{Run, TestResult}
use wifi_validation_framewor.Registry.{TestRegistry}
use wifi_validation_framewor.Regression.{
  RegressionMetricComparison, RegressionAssessment, DeltaOps, FlakyTestHistory, aggregate,
  compare_context, is_missing, same_class, is_unvalidated, is_soft, is_improved, is_good,
}
use wifi_validation_framewor.Regression.Assessment.{
  compare_registered, is_broken, is_fail, measured, compare_metrics, metric_names,
}
use wifi_validation_framewor.Regression.Runs.{is_comparable}
use wifi_validation_framewor.Regression.Suites.{test_name, same_pairs-Perm}

same_class_equal : (c d : Option String) → (same_class c d ≡ true) ↔ (c ≡ d)
same_class_equal none none = (λ _. refl, λ _. refl)
same_class_equal none (some d) = (λ h. cc h, λ h. cc h)
same_class_equal (some c) none = (λ h. cc h, λ h. cc h)
same_class_equal (some c) (some d) =
    (λ h. ap some ((eq_iff c d).0 h), λ h. (eq_iff c d).1 (some-eq h))

-- Two Runs are compared test by test exactly where their profiles and laboratories agree, they have
-- the same tests in the same versions, in whatever order, and the environment class of the baseline is
-- named and is that of the current Run; in the baseline no test may be named twice.
pub compare_context-comparable :
    (baseline current : Run) (c d : Option String)
    → distinct (map test_name baseline.test_definition_versions) ≡ true
    → (is_comparable (compare_context baseline current c d).0 ≡ true) ↔ (
        (baseline.validation_profile ≡ current.validation_profile)
        × (baseline.lab_id ≡ current.lab_id)
        × Perm baseline.test_definition_versions current.test_definition_versions
        × (is_missing c ≡ false)
        × (c ≡ d))
unfolding compare_context
compare_context-comparable baseline current c d fresh = (
  λ h. (
    (eq_iff baseline.validation_profile current.validation_profile).0 (ground arith),
    (eq_iff baseline.lab_id current.lab_id).0 (ground arith),
    (same_pairs-Perm baseline current fresh).0 (ground arith),
    ground arith,
    (same_class_equal c d).0 (ground arith),
  ),
  λ h.
      let (profile, lab, suite, named, same) = h in
      let other : is_missing d ≡ false = subst (λ x. is_missing x ≡ false) same named in
      rw (
        (eq_iff baseline.validation_profile current.validation_profile).1 profile,
        (eq_iff baseline.lab_id current.lab_id).1 lab,
        (same_pairs-Perm baseline current fresh).1 suite,
        named,
        other,
        (same_class_equal c d).1 same,
      ),
)

all_good :
    (values : List RegressionClass)
    → all is_good values ≡ true
    → (any is_unvalidated values ≡ false) × (any is_soft values ≡ false)
all_good [] h = (refl, refl)
all_good (v ∷ values) h =
    let (p, q) = all_good values (ground arith) in (ground (arith, p), ground (arith, q))

-- The classification of several metrics is UNVALIDATED exactly if one is, SOFT_REGRESSION exactly if one
-- is and none is UNVALIDATED, and IMPROVED exactly if one is and all are IMPROVED or UNCHANGED.
pub aggregate_lem :
    (values : List RegressionClass)
    → (is_unvalidated (aggregate values) ≡ any is_unvalidated values)
      × (is_soft (aggregate values) ≡ (not (any is_unvalidated values) && any is_soft values))
      × (is_improved (aggregate values) ≡ (any is_improved values && all is_good values))
unfolding aggregate
aggregate_lem [] = (refl, refl, refl)
aggregate_lem (v ∷ values) = (ground arith, ground arith, ground (arith, all_good (v ∷ values)))

abbrev pub is_regression : RegressionClass → Bool
is_regression RegressionClass.regression = true
is_regression _ = false

abbrev pub class_is : (RegressionClass → Bool) → Result String RegressionAssessment → Bool
class_is p (raised e) = false
class_is p (ok a) = p a.classification

aggregate-no_regression : (values : List RegressionClass) → is_regression (aggregate values) ≡ false
unfolding aggregate
aggregate-no_regression values = ground arith

module _ (o : DeltaOps) (registry : TestRegistry) (default : Float) (base curr : TestResult)
    (history : FlakyTestHistory) where
  measured-no_regression :
      (r : Result String (List RegressionMetricComparison))
      → class_is is_regression (measured o registry default base curr history r) ≡ false
  measured-no_regression (raised e) = refl
  measured-no_regression (ok cs) = aggregate-no_regression _

-- A test is a REGRESSION exactly where its definition has one version in both Runs, it passed in the
-- baseline and fails now, with evidence that is not broken; whatever its metrics are.
pub compare_registered-regression :
    (o : DeltaOps) (registry : TestRegistry) (default : Float)
    (overrides : List (String × String × Float)) (run : Run) (base curr : TestResult)
    (history : FlakyTestHistory)
    → (class_is is_regression
          (compare_registered o registry default overrides run base curr history)
        ≡ true)
      ↔ ((base.test_version ≡ curr.test_version)
          × (is_pass base.status ≡ true)
          × (is_fail curr.status ≡ true)
          × (is_broken curr.evidence_state ≡ false))
unfolding compare_registered
compare_registered-regression o registry default overrides run base curr history =
    let other : class_is is_regression (measured o registry default base curr history _) ≡ false =
      measured-no_regression o registry default base curr history (
        compare_metrics o registry default overrides run base curr
          (metric_names o registry default base curr)) in
    (
      λ h. (
        (eq_iff base.test_version curr.test_version).0 (ground (arith, other)),
        ground (arith, other),
        ground (arith, other),
        ground (arith, other),
      ),
      λ h. ground (arith, (eq_iff base.test_version curr.test_version).1 h.0, h.1, h.2, h.3),
    )
