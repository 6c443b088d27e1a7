-- ===== src/Release/Issues.antt =====
-- When each of the tests of the release gate (lib/services/release_gate.py) finds an issue.
use wifi_validation_framewor.Prelude.{
  without_repeats, sorted_set, String, ◌≡◌, ◌∙◌, refl, ap, ◌↔◌, inl, inr, Bool, true, false, not,
  ◌&&◌, ◌||◌, List, [], ◌∷◌, ◌++◌, map, arith, eq_iff, ◌is◌, any, filter, contains, sort_by,
  insert_by, All, Bool-cases,
}
use wifi_validation_framewor.Registry.{lookup}
use wifi_validation_framewor.Release.{
  ReleaseGateIssue, ReleaseGateInput, is_some, key_of, issue_if, issues_if, missing_issue,
  class_issue, is_failing, status_issue, state_of, is_lacking, evidence_issue, run_issue, lab_issue,
  baseline_issue, issues_of,
}

abbrev pub is_empty : {A : Type 0} → List A → Bool
is_empty [] = true
is_empty (x ∷ xs) = false

module _ {A : Type 0} where
  empty-append : (xs ys : List A) → is_empty (xs ++ ys) ≡ (is_empty xs && is_empty ys)
  empty-append [] ys = refl
  empty-append (x ∷ xs) ys = refl

  any-insert_by :
      (key : A → String) (p : A → Bool) (x : A) (xs : List A)
      → any p (insert_by key x xs) ≡ (p x || any p xs)
  unfolding insert_by
  any-insert_by key p x [] = refl
  any-insert_by key p x (y ∷ xs) = ground (arith, any-insert_by key p x xs)

  any-sort_by : (key : A → String) (p : A → Bool) (xs : List A) → any p (sort_by key xs) ≡ any p xs
  unfolding sort_by
  any-sort_by key p [] = refl
  any-sort_by key p (x ∷ xs) = any-insert_by key p x (sort_by key xs) ∙ rw (any-sort_by key p xs)

  pub any-none : (p : A → Bool) (xs : List A) → (any p xs ≡ false) ↔ All (λ x. p x ≡ false) xs
  any-none p [] = (λ _. tt, λ _. refl)
  any-none p (x ∷ xs) = (
    λ h. (ground arith, (any-none p xs).0 (ground arith)),
    λ h. let rest : any p xs ≡ false = (any-none p xs).1 h.1 in ground (arith, rest, h.0),
  )

module _ {A B : Type 0} where
  -- No issue is raised exactly where no element is to blame.
  none_blamed :
      (f : A → B) (p : A → Bool) (xs : List A) → is_empty (map f (filter p xs)) ≡ not (any p xs)
  none_blamed f p [] = refl
  none_blamed f p (x ∷ xs) = ground (arith, none_blamed f p xs)

any-contained :
    (p : String → Bool) (x : String) (xs : List String)
    → contains xs x ≡ true
    → p x ≡ true
    → any p xs ≡ true
any-contained p x [] h k = cc h
any-contained p x (y ∷ xs) h k = elim (Bool-cases (y is x)) [
  | inl e ↦ let same : y ≡ x = (eq_iff y x).0 e in rw (same, k)
  | inr e ↦
      let rest : any p xs ≡ true = any-contained p x xs (ground arith) k in ground (arith, rest)
]

any-without_repeats : (p : String → Bool) (xs : List String) → any p (without_repeats xs) ≡ any p xs
unfolding without_repeats
any-without_repeats p [] = refl
any-without_repeats p (x ∷ xs) = elim (Bool-cases (contains (without_repeats xs) x)) [
  | inl e ↦ elim (Bool-cases (p x)) [
    | inl k ↦ rw (e, k) (any-contained p x (without_repeats xs) e k)
    | inr k ↦ rw (e, k) (any-without_repeats p xs)
  ]
  | inr e ↦ rw (e, any-without_repeats p xs)
]

any-sorted_set : (p : String → Bool) (xs : List String) → any p (sorted_set xs) ≡ any p xs
any-sorted_set p xs = any-sort_by (λ x. x) p (without_repeats xs) ∙ any-without_repeats p xs

not-not : (b : Bool) → not (not b) ≡ b
not-not true = refl
not-not false = refl

both-empty :
    {A : Type 0} (xs ys : List A) {p q : Bool}
    → is_empty xs ≡ p
    → is_empty ys ≡ q
    → is_empty (xs ++ ys) ≡ (p && q)
both-empty xs ys h k = empty-append xs ys ∙ rw (h, k)

module _ {A : Type 0} (a b c e f g h : List A) {p q r s t u v : Bool} where
  all-empty :
      is_empty a ≡ p
      → is_empty b ≡ q
      → is_empty c ≡ r
      → is_empty e ≡ s
      → is_empty f ≡ t
      → is_empty g ≡ u
      → is_empty h ≡ v
      → is_empty (a ++ b ++ c ++ e ++ f ++ g ++ h) ≡ (p && q && r && s && t && u && v)
  all-empty i j k l m n o =
      both-empty (a ++ b ++ c ++ e ++ f ++ g) h
        (both-empty (a ++ b ++ c ++ e ++ f) g
          (both-empty (a ++ b ++ c ++ e) f
            (both-empty (a ++ b ++ c) e (both-empty (a ++ b) c (both-empty a b i j) k) l) m)
          n)
        o

abbrev pub tests_missing : ReleaseGateInput → Bool
tests_missing d = any (λ t. not (contains d.observed_test_ids t)) d.required_test_ids

abbrev pub class_disallowed : ReleaseGateInput → Bool
class_disallowed d =
    any (λ (p : String × String). contains d.policy.disallowed_classifications p.1)
      d.regression_classifications

abbrev pub status_failing : ReleaseGateInput → Bool
status_failing d = any (λ (p : String × String). is_failing p.1) d.test_statuses

abbrev pub evidence_lacking : ReleaseGateInput → Bool
evidence_lacking d =
    any (λ t. is_lacking (state_of (lookup t d.evidence_states))) d.required_test_ids

empty-issue_if : (b : Bool) (i : ReleaseGateIssue) → is_empty (issue_if b i) ≡ not b
empty-issue_if true i = refl
empty-issue_if false i = refl

empty-issues_if :
    (b : Bool) (found : List ReleaseGateIssue) (blamed : Bool)
    → is_empty found ≡ not blamed
    → is_empty (issues_if b found) ≡ not (b && blamed)
empty-issues_if true found blamed h = h
empty-issues_if false found blamed h = refl

-- The seven tests of `evaluate`.
pub issues_of-empty :
    (d : ReleaseGateInput)
    → is_empty (issues_of d) ≡ (
        not (d.policy.require_completed_run && not (d.run_lifecycle is "COMPLETED"))
        && not (d.policy.require_healthy_lab && not (is_some d.lab_health "HEALTHY"))
        && d.baseline_available
        && not (d.policy.require_all_required_tests && tests_missing d)
        && not (class_disallowed d)
        && not (status_failing d)
        && not (d.policy.require_valid_required_evidence && evidence_lacking d))
unfolding issues_of
issues_of-empty d =
    let tests : is_empty _ ≡ not (tests_missing d) =
      none_blamed missing_issue (λ t. not (contains d.observed_test_ids t))
        (sorted_set d.required_test_ids)
      ∙ ap not (any-sorted_set _ d.required_test_ids) in
    let classes : is_empty _ ≡ not (class_disallowed d) =
      none_blamed class_issue
        (λ (p : String × String). contains d.policy.disallowed_classifications p.1)
        (sort_by key_of d.regression_classifications)
      ∙ ap not (any-sort_by key_of _ d.regression_classifications) in
    let statuses : is_empty _ ≡ not (status_failing d) =
      none_blamed status_issue (λ (p : String × String). is_failing p.1)
        (sort_by key_of d.test_statuses)
      ∙ ap not (any-sort_by key_of _ d.test_statuses) in
    let evidence : is_empty _ ≡ not (evidence_lacking d) =
      none_blamed (evidence_issue d.evidence_states)
        (λ t. is_lacking (state_of (lookup t d.evidence_states))) (sorted_set d.required_test_ids)
      ∙ ap not (any-sorted_set _ d.required_test_ids) in
    all-empty
      (issue_if (d.policy.require_completed_run && not (d.run_lifecycle is "COMPLETED"))
        (run_issue d))
      (issue_if (d.policy.require_healthy_lab && not (is_some d.lab_health "HEALTHY"))
        (lab_issue d))
      (issue_if (not d.baseline_available) baseline_issue)
      (issues_if d.policy.require_all_required_tests (map missing_issue _)) (map class_issue _)
      (map status_issue _)
      (issues_if d.policy.require_valid_required_evidence
        (map (evidence_issue d.evidence_states) _))
      (empty-issue_if _ (run_issue d)) (empty-issue_if _ (lab_issue d))
      (empty-issue_if (not d.baseline_available) baseline_issue ∙ not-not d.baseline_available)
      (empty-issues_if d.policy.require_all_required_tests _ (tests_missing d) tests) classes
      statuses
      (empty-issues_if d.policy.require_valid_required_evidence _ (evidence_lacking d) evidence)
