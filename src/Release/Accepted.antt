-- ===== src/Release/Accepted.antt =====
-- When the release gate (lib/services/release_gate.py) accepts.
use wifi_validation_framewor.Prelude.{
  ℕ, String, ◌≡◌, ◌∙◌, refl, sym, ap, ◌↔◌, inl, inr, Bool, true, false, not, ◌&&◌, Option, none,
  some, List, [], ◌∷◌, arith, some-eq, All-map, eq_iff, filter, contains, All, Bool-cases,
}
use wifi_validation_framewor.Domain.Entities.{Time}
use wifi_validation_framewor.Registry.{lookup}
use wifi_validation_framewor.Release.{
  ReleaseGateIssue, ReleaseGateInput, is_active, accepted, is_some, is_failing, state_of,
  is_lacking, issues_of, is_waived, filtered, decision, evaluate,
}
use wifi_validation_framewor.Release.Issues.{
  is_empty, any-none, tests_missing, evidence_lacking, issues_of-empty,
}

-- What the gate asks for: a completed Run in a healthy laboratory, a baseline, a result for every
-- required test, no disallowed classification, no failing status, and evidence for every required test;
-- where the policy asks for it.
pub record Releasable (d : ReleaseGateInput) : Type 0 where
  pub completed : d.policy.require_completed_run ≡ true → d.run_lifecycle ≡ "COMPLETED"
  pub healthy : d.policy.require_healthy_lab ≡ true → d.lab_health ≡ some "HEALTHY"
  pub baseline : d.baseline_available ≡ true
  pub tests :
      d.policy.require_all_required_tests ≡ true
      → All (λ t. contains d.observed_test_ids t ≡ true) d.required_test_ids
  pub classes :
      All
        (λ (p : String × String). contains d.policy.disallowed_classifications p.1 ≡ false)
        d.regression_classifications
  pub statuses : All (λ (p : String × String). is_failing p.1 ≡ false) d.test_statuses
  pub evidence :
      d.policy.require_valid_required_evidence ≡ true
      → All (λ t. is_lacking (state_of (lookup t d.evidence_states)) ≡ false) d.required_test_ids

some-is : (o : Option String) (t : String) → (is_some o t ≡ true) ↔ (o ≡ some t)
some-is none t = (λ h. cc h, λ h. cc h)
some-is (some s) t =
    (λ h. ap some ((eq_iff s t).0 h), λ h. let same : s ≡ t = some-eq h in (eq_iff s t).1 same)

negated :
    {A : Type 0} (p : A → Bool) (xs : List A)
    → All (λ x. not (p x) ≡ false) xs
    → All (λ x. p x ≡ true) xs
negated p xs h = All-map _ _ (λ x e. ground (arith, e)) xs h

renegated :
    {A : Type 0} (p : A → Bool) (xs : List A)
    → All (λ x. p x ≡ true) xs
    → All (λ x. not (p x) ≡ false) xs
renegated p xs h = All-map _ _ (λ x e. ground (arith, e)) xs h

guarded : (b x : Bool) → (b ≡ true → x ≡ true) → not (b && not x) ≡ true
guarded true x h = rw (h refl)
guarded false x h = refl

unblamed : (b x : Bool) → (b ≡ true → x ≡ false) → not (b && x) ≡ true
unblamed true x h = rw (h refl)
unblamed false x h = refl

-- The tests together, and what the gate asks for.
clean-Releasable : (d : ReleaseGateInput) → (is_empty (issues_of d) ≡ true) ↔ Releasable d
clean-Releasable d = (
  λ h.
      let all : _ = sym (issues_of-empty d) ∙ h in
      record {
        completed = λ p. (eq_iff d.run_lifecycle "COMPLETED").0 (ground (arith, all));
        healthy = λ p. (some-is d.lab_health "HEALTHY").0 (ground (arith, all));
        baseline = ground (arith, all);
        tests = λ p. negated (contains d.observed_test_ids) d.required_test_ids (
            (any-none (λ t. not (contains d.observed_test_ids t)) d.required_test_ids).0
              (ground (arith, all)));
        classes = (any-none _ d.regression_classifications).0 (ground (arith, all));
        statuses = (any-none _ d.test_statuses).0 (ground (arith, all));
        evidence = λ p. (any-none _ d.required_test_ids).0 (ground (arith, all));
      },
  λ r.
      issues_of-empty d
      ∙ rw (
        guarded d.policy.require_completed_run _
            (λ p. (eq_iff d.run_lifecycle "COMPLETED").1 (r.completed p)),
        guarded d.policy.require_healthy_lab _
            (λ p. (some-is d.lab_health "HEALTHY").1 (r.healthy p)),
        r.baseline,
        unblamed d.policy.require_all_required_tests (tests_missing d) (λ p.
            (any-none _ d.required_test_ids).1
              (renegated (contains d.observed_test_ids) d.required_test_ids (r.tests p))),
        (any-none (λ (p : String × String). contains d.policy.disallowed_classifications p.1)
              d.regression_classifications).1
            r.classes,
        (any-none (λ (p : String × String). is_failing p.1) d.test_statuses).1 r.statuses,
        unblamed d.policy.require_valid_required_evidence (evidence_lacking d) (λ p.
            (any-none (λ t. is_lacking (state_of (lookup t d.evidence_states)))
                d.required_test_ids).1
              (r.evidence p)),
      ),
)

evaluate-empty :
    (number_text : ℕ → String) (now : Time) (d : ReleaseGateInput)
    → accepted (evaluate number_text now d) ≡ is_empty (filtered now d)
unfolding evaluate
evaluate-empty number_text now d = by_list (filtered now d)
  where
    by_list :
        (found : List ReleaseGateIssue) → accepted (decision number_text found) ≡ is_empty found
    by_list [] = refl
    by_list (i ∷ rest) = refl

filter-empty :
    {A : Type 0} (p : A → Bool) (xs : List A)
    → (is_empty (filter (λ x. not (p x)) xs) ≡ true) ↔ All (λ x. p x ≡ true) xs
filter-empty p [] = (λ _. tt, λ _. refl)
filter-empty p (x ∷ xs) = elim (Bool-cases (p x)) [
  | inl e ↦ rw e ((λ h. (refl, (filter-empty p xs).0 h)), λ h. (filter-empty p xs).1 h.1)
  | inr e ↦ rw e ((λ h. cc h), λ h. cc h.0)
]

pub evaluate-accepted :
    (number_text : ℕ → String) (now : Time) (d : ReleaseGateInput)
    → (accepted (evaluate number_text now d) ≡ true)
      ↔ All (λ i. is_waived d.run_id (filter (is_active now) d.waivers) i ≡ true) (issues_of d)
unfolding filtered
evaluate-accepted number_text now d =
    let p : _ = evaluate-empty number_text now d in
    let q : _ =
      filter-empty (is_waived d.run_id (filter (is_active now) d.waivers)) (issues_of d) in
    (λ h. q.0 (sym p ∙ h), λ h. p ∙ q.1 h)

all_waived :
    (p : ReleaseGateIssue → Bool) (xs : List ReleaseGateIssue)
    → ((i : ReleaseGateIssue) → p i ≡ false)
    → All (λ i. p i ≡ true) xs
    → is_empty xs ≡ true
all_waived p [] none_waived h = refl
all_waived p (i ∷ xs) none_waived h = cc (none_waived i, h.0)

empty-All : {A : Type 0} (P : A → Type 0) (xs : List A) → is_empty xs ≡ true → All P xs
empty-All P [] h = tt
empty-All P (x ∷ xs) h = cc h

-- With no waiver in force, the gate accepts exactly a releasable Run: a completed one in a healthy
-- laboratory, with a baseline, a result and evidence for each required test, no disallowed
-- classification and no failing status, each as far as the policy asks for it.
pub evaluate-Releasable :
    (number_text : ℕ → String) (now : Time) (d : ReleaseGateInput)
    → filter (is_active now) d.waivers ≡ []
    → (accepted (evaluate number_text now d) ≡ true) ↔ Releasable d
evaluate-Releasable number_text now d idle =
    let waived : (i : ReleaseGateIssue)
        → is_waived d.run_id (filter (is_active now) d.waivers) i ≡ false =
      λ i. rw idle in
    (
      λ h. (clean-Releasable d).0 (
          all_waived (is_waived d.run_id (filter (is_active now) d.waivers)) (issues_of d) waived
            ((evaluate-accepted number_text now d).0 h)),
      λ r.
          (evaluate-accepted number_text now d).1
            (empty-All _ (issues_of d) ((clean-Releasable d).1 r)),
    )
