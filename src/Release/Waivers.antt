-- ===== src/Release/Waivers.antt =====
-- What waivers do to the decision of the release gate (lib/services/release_gate.py).
use wifi_validation_framewor.Prelude.{
  ℕ, String, ◌≡◌, ◌∙◌, refl, sym, ap, Bool, true, false, not, ◌&&◌, Option, none, List, [], ◌∷◌,
  ◌++◌, arith, All-map, ◌is◌, any, all, filter, All, filter-append, any-append,
}
use wifi_validation_framewor.Domain.Status.{WaiverScope}
use wifi_validation_framewor.Domain.Entities.{Time}
use wifi_validation_framewor.Release.{
  ReleaseWaiver, ReleaseGateIssue, ReleaseGateInput, is_active, accepted, issue_if, run_issue,
  issues_of, waiver_matches_issue, is_waived, evaluate, targets,
}
use wifi_validation_framewor.Release.Accepted.{evaluate-accepted}

more_waived :
    (now : Time) (run_id : Option String) (ws more : List ReleaseWaiver) (i : ReleaseGateIssue)
    → is_waived run_id (filter (is_active now) ws) i ≡ true
    → is_waived run_id (filter (is_active now) (ws ++ more)) i ≡ true
more_waived now run_id ws more i h =
    let w : ReleaseWaiver → Bool = λ x. waiver_matches_issue run_id x i in
    ap (any w) (filter-append (is_active now) ws more)
    ∙ any-append w (filter (is_active now) ws) (filter (is_active now) more)
    ∙ rw h

-- Further waivers, in force or not, never make the gate reject what it accepts.
pub evaluate-more_waivers :
    (number_text : ℕ → String) (now : Time) (d : ReleaseGateInput) (more : List ReleaseWaiver)
    → accepted (evaluate number_text now d) ≡ true
    → accepted (evaluate number_text now (record d { waivers = d.waivers ++ more })) ≡ true
unfolding issues_of
evaluate-more_waivers number_text now d more h =
    (evaluate-accepted number_text now (record d { waivers = d.waivers ++ more })).1 (
      All-map _ _ (more_waived now d.run_id d.waivers more) (issues_of d)
        ((evaluate-accepted number_text now d).0 h))

-- A waiver that reaches an issue of the Run or the laboratory: one for this Run, for every Run, or for
-- the whole release.
abbrev pub covers_run : Option String → ReleaseWaiver → Bool
covers_run run_id w = elim w.scope [
  | WaiverScope.test ↦ false
  | WaiverScope.run ↦ targets w.target_id run_id
  | WaiverScope.regression ↦ false
  | WaiverScope.release ↦ w.target_id is "*"
]

run_waiver :
    (run_id : Option String) (w : ReleaseWaiver) (i : ReleaseGateIssue)
    → i.test_id ≡ none
    → waiver_matches_issue run_id w i ≡ (w.issue_code is i.code && covers_run run_id w)
unfolding waiver_matches_issue
run_waiver run_id w i h = by_scope w.scope (w.issue_code is i.code) i.test_id h
  where
    by_scope :
        (s : WaiverScope) (b : Bool) (t : Option String)
        → t ≡ none
        → (b && (elim s [
          | WaiverScope.test ↦ targets w.target_id t
          | WaiverScope.run ↦ targets w.target_id run_id
          | WaiverScope.regression ↦ targets w.target_id t
          | WaiverScope.release ↦ w.target_id is "*"
        ]))
          ≡ (b && (elim s [
            | WaiverScope.test ↦ false
            | WaiverScope.run ↦ targets w.target_id run_id
            | WaiverScope.regression ↦ false
            | WaiverScope.release ↦ w.target_id is "*"
          ]))
    by_scope WaiverScope.test b t e = rw e
    by_scope WaiverScope.run b t e = refl
    by_scope WaiverScope.regression b t e = rw e
    by_scope WaiverScope.release b t e = refl

any-filter :
    {A : Type 0} (p q : A → Bool) (xs : List A) → any p (filter q xs) ≡ any (λ x. q x && p x) xs
any-filter p q [] = refl
any-filter p q (x ∷ xs) = ground (arith, any-filter p q xs)

any-same :
    {A : Type 0} (p q : A → Bool) → ((x : A) → p x ≡ q x) → (xs : List A) → any p xs ≡ any q xs
any-same p q h [] = refl
any-same p q h (x ∷ xs) = rw (h x, any-same p q h xs)

first-All :
    (P : ReleaseGateIssue → Type 0) (b : Bool) (x : ReleaseGateIssue)
    (a c e f g h : List ReleaseGateIssue)
    → b ≡ true
    → All P (issue_if b x ++ a ++ c ++ e ++ f ++ g ++ h)
    → P x
first-All P true x a c e f g h p all = all.0
first-All P false x a c e f g h p all = cc p

-- Where a completed Run is asked for, the gate accepts one that is not completed only under a waiver in
-- force for just that issue, which is for this Run, for every Run or for the whole release; no waiver of
-- a test or of a regression does it.
pub evaluate-not_completed :
    (number_text : ℕ → String) (now : Time) (d : ReleaseGateInput)
    → accepted (evaluate number_text now d) ≡ true
    → d.policy.require_completed_run ≡ true
    → (d.run_lifecycle is "COMPLETED") ≡ false
    → any
        (λ (w : ReleaseWaiver).
          is_active now w && (w.issue_code is "RUN_NOT_COMPLETED" && covers_run d.run_id w))
        d.waivers
      ≡ true
unfolding issues_of
evaluate-not_completed number_text now d h asked unended =
    let waived : is_waived d.run_id (filter (is_active now) d.waivers) (run_issue d) ≡ true =
      first-All (λ i. is_waived d.run_id (filter (is_active now) d.waivers) i ≡ true)
        (d.policy.require_completed_run && not (d.run_lifecycle is "COMPLETED")) (run_issue d) _ _ _
        _ _ _ (rw (asked, unended)) ((evaluate-accepted number_text now d).0 h) in
    sym (
      any-filter (λ (w : ReleaseWaiver). waiver_matches_issue d.run_id w (run_issue d))
        (is_active now) d.waivers
      ∙ any-same _ _
          (λ w. ap (λ b. is_active now w && b) (run_waiver d.run_id w (run_issue d) refl))
          d.waivers)
    ∙ waived
