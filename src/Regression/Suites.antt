-- ===== src/Regression/Suites.antt =====
-- When the two suite signatures of lib/services/regression_intelligence.py agree.
use mathlib.Core.Path.{subst}
use mathlib.Core.Bool.{Bool-set}
use mathlib.Core.Logic.{∥∥₁_elim}
use mathlib.Core.List.{Perm}
use mathlib.Core.List.Perm
use wifi_validation_framewor.Prelude.{
  String, ◌≡◌, refl, sym, ◌↔◌, arith, eq_iff, eq_refl, true, List, [], ◌∷◌, map, distinct,
  sort_by-Perm, sort_by-Permᴰ,
}
use wifi_validation_framewor.Domain.Entities.{Run}
use wifi_validation_framewor.Regression.{suite_signature, same_pairs}

abbrev pub test_name : String × String → String
test_name p = p.0

same_pairs_refl : (ps : List (String × String)) → same_pairs ps ps ≡ true
same_pairs_refl [] = refl
same_pairs_refl (p ∷ ps) = ground (arith, eq_refl p.0, eq_refl p.1, same_pairs_refl ps)

same_pairs_equal : (ps qs : List (String × String)) → same_pairs ps qs ≡ true → ps ≡ qs
same_pairs_equal [] [] h = refl
same_pairs_equal [] (q ∷ qs) h = cc h
same_pairs_equal (p ∷ ps) [] h = cc h
same_pairs_equal ((t, v) ∷ ps) ((u, w) ∷ qs) h =
    rw
      (
        (eq_iff t u).0 (ground (arith, h)),
        (eq_iff v w).0 (ground (arith, h)),
        same_pairs_equal ps qs (ground (arith, h)),
      )
      refl

-- Signatures agree where the versions are the same, in whatever order, if no test is named twice.
pub same_pairs-Perm :
    (baseline current : Run)
    → distinct (map test_name baseline.test_definition_versions) ≡ true
    → (same_pairs (suite_signature baseline) (suite_signature current) ≡ true)
      ↔ Perm baseline.test_definition_versions current.test_definition_versions
unfolding suite_signature
same_pairs-Perm baseline current fresh = (
  λ h.
      let same = same_pairs_equal (suite_signature baseline) (suite_signature current) h in
      Perm.trans (Perm.symm (sort_by-Perm test_name baseline.test_definition_versions)) (
        subst (λ l. Perm l current.test_definition_versions) (sym same)
          (sort_by-Perm test_name current.test_definition_versions)),
  λ p. ∥∥₁_elim p (Bool-set _ _) (λ d.
      subst (λ l. same_pairs (suite_signature baseline) l ≡ true) (sort_by-Permᴰ test_name fresh d)
        (same_pairs_refl (suite_signature baseline))),
)
