-- ===== src/Runs/Judgement.antt =====
-- When `derive_business_outcome` (lib/services/run_service.py) finds a Run validated or rejected.
use mathlib.Core.Path.{subst}
use wifi_validation_framewor.Prelude.{
  some-eq, ◌≡◌, refl, ap, ◌∙◌, sym, String, Bool, true, false, some, List, [], ◌∷◌, map, ◌↔◌, ◌⊎◌,
  inl, inr, Bool-cases, Option-cases, arith, All,
}
use wifi_validation_framewor.Domain.Status.{
  Criticality, BusinessOutcome, is_validated, is_passing, is_pass, is_unfinished,
}
use wifi_validation_framewor.Domain.Entities.{Run, TestResult}
use wifi_validation_framewor.Runs.Outcome.{
  Verdict, stop, warn, accept, verdict, judge, health_unusable, selected_result_map, outcome_of,
  is_error, is_unvalidated,
}

abbrev pub is_blocking : Criticality → Bool
is_blocking Criticality.blocking = true
is_blocking _ = false

-- A result that does not stand in the way: it is neither unvalidated nor an error, its evidence is
-- complete if it passed, and a blocking test passed.
pub record Acceptable (r : TestResult) : Type 0 where
  pub settled : is_unvalidated r.status ≡ false
  pub not_error : is_error r.status ≡ false
  pub evidence : is_passing r.status ≡ true → is_unfinished r.evidence_state ≡ false
  pub blocking : is_blocking r.criticality ≡ true → is_pass r.status ≡ true

-- A test that passed with its evidence.
pub record Passed (r : TestResult) : Type 0 where
  pub status : is_pass r.status ≡ true
  pub evidence : is_unfinished r.evidence_state ≡ false

abbrev pub stops : Verdict → Bool
stops (stop _) = true
stops _ = false

abbrev pub accepts : Verdict → Bool
accepts accept = true
accepts _ = false

abbrev pub is_rejected : BusinessOutcome → Bool
is_rejected BusinessOutcome.rejected = true
is_rejected _ = false

abbrev pub is_plain : BusinessOutcome → Bool
is_plain BusinessOutcome.validated = true
is_plain _ = false

verdict-Acceptable : (r : TestResult) → (stops (verdict r) ≡ false) ↔ Acceptable r
unfolding verdict
verdict-Acceptable r = (
  λ h. record {
    settled = ground arith;
    not_error = ground arith;
    evidence = λ p. ground arith;
    blocking = λ p. ground arith;
  },
  λ a. ground (arith, a.settled, a.not_error, a.evidence, a.blocking),
)

verdict-Passed : (r : TestResult) → (accepts (verdict r) ≡ true) ↔ Passed r
unfolding verdict
verdict-Passed r = (
  λ h. record { status = ground arith; evidence = ground arith },
  λ a. ground (arith, a.status, a.evidence),
)

absurd_bool {ℓ} : {A : Type ℓ} {b : Bool} → b ≡ false → b ≡ true → A
absurd_bool p q = cc (p, q)

Verdict-cases : (v : Verdict) → ((o : BusinessOutcome) × (v ≡ stop o)) ⊎ ((v ≡ warn) ⊎ (v ≡ accept))
Verdict-cases (stop o) = inl (o, refl)
Verdict-cases warn = inr (inl refl)
Verdict-cases accept = inr (inr refl)

verdict-stop : (r : TestResult) (o : BusinessOutcome) → verdict r ≡ stop o → is_validated o ≡ false
unfolding verdict
verdict-stop r o h = ground arith

judge-stop :
    (w : Bool) (r : TestResult) (rest : List TestResult) (o : BusinessOutcome)
    → verdict r ≡ stop o
    → judge w (r ∷ rest) ≡ o
unfolding judge
judge-stop w r rest o h = rw (judge, h)

judge-warn :
    (w : Bool) (r : TestResult) (rest : List TestResult)
    → verdict r ≡ warn
    → judge w (r ∷ rest) ≡ judge true rest
unfolding judge
judge-warn w r rest h = rw (judge, h)

judge-accept :
    (w : Bool) (r : TestResult) (rest : List TestResult)
    → verdict r ≡ accept
    → judge w (r ∷ rest) ≡ judge w rest
unfolding judge
judge-accept w r rest h = rw (judge, h)

plain-validated : (o : BusinessOutcome) → is_validated o ≡ false → is_plain o ≡ false
plain-validated o h = ground arith

-- A loop whose outcome passes a test that no stopping verdict passes.
module _ (w : Bool) (r : TestResult) (rest : List TestResult)
    (accepted : BusinessOutcome → Bool) where
  stopped :
      (o : BusinessOutcome)
      → verdict r ≡ stop o
      → accepted o ≡ false
      → accepted (judge w (r ∷ rest)) ≡ false
  stopped o e h = ap accepted (judge-stop w r rest o e) ∙ h

pub judge-Acceptable :
    (w : Bool) (rs : List TestResult) → (is_validated (judge w rs) ≡ true) ↔ All Acceptable rs
unfolding judge
judge-Acceptable true [] = (λ _. tt, λ _. refl)
judge-Acceptable false [] = (λ _. tt, λ _. refl)
judge-Acceptable w (r ∷ rest) = elim (Verdict-cases (verdict r)) [
  | inl (o, e) ↦ (
    λ h. cc (stopped w r rest is_validated o e (verdict-stop r o e), h),
    λ a.
        let live : stops (verdict r) ≡ false = (verdict-Acceptable r).1 a.0 in
        cc (ap stops e, live),
  )
  | inr (inl e) ↦
      let step : judge w (r ∷ rest) ≡ judge true rest = judge-warn w r rest e in
      (
        λ h. (
          (verdict-Acceptable r).0 (ap stops e),
          (judge-Acceptable true rest).0 (ap is_validated (sym step) ∙ h),
        ),
        λ a. ap is_validated step ∙ (judge-Acceptable true rest).1 a.1,
      )
  | inr (inr e) ↦
      let step : judge w (r ∷ rest) ≡ judge w rest = judge-accept w r rest e in
      (
        λ h. (
          (verdict-Acceptable r).0 (ap stops e),
          (judge-Acceptable w rest).0 (ap is_validated (sym step) ∙ h),
        ),
        λ a. ap is_validated step ∙ (judge-Acceptable w rest).1 a.1,
      )
]

warned : (rs : List TestResult) → is_plain (judge true rs) ≡ false
unfolding judge
warned [] = refl
warned (r ∷ rest) = elim (Verdict-cases (verdict r)) [
  | inl (o, e) ↦ stopped true r rest is_plain o e (plain-validated o (verdict-stop r o e))
  | inr (inl e) ↦ ap is_plain (judge-warn true r rest e) ∙ warned rest
  | inr (inr e) ↦ ap is_plain (judge-accept true r rest e) ∙ warned rest
]

pub judge-Passed : (rs : List TestResult) → (is_plain (judge false rs) ≡ true) ↔ All Passed rs
unfolding judge
judge-Passed [] = (λ _. tt, λ _. refl)
judge-Passed (r ∷ rest) = elim (Verdict-cases (verdict r)) [
  | inl (o, e) ↦ (
    λ h.
        let no : is_plain (judge false (r ∷ rest)) ≡ false =
          stopped false r rest is_plain o e (plain-validated o (verdict-stop r o e)) in
        absurd_bool no h,
    λ a.
        let pass : accepts (verdict r) ≡ true = (verdict-Passed r).1 a.0 in cc (ap accepts e, pass),
  )
  | inr (inl e) ↦ (
    λ h. absurd_bool (ap is_plain (judge-warn false r rest e) ∙ warned rest) h,
    λ a.
        let pass : accepts (verdict r) ≡ true = (verdict-Passed r).1 a.0 in cc (ap accepts e, pass),
  )
  | inr (inr e) ↦
      let step : judge false (r ∷ rest) ≡ judge false rest = judge-accept false r rest e in
      (
        λ h. (
          (verdict-Passed r).0 (ap accepts e),
          (judge-Passed rest).0 (ap is_plain (sym step) ∙ h),
        ),
        λ a. ap is_plain step ∙ (judge-Passed rest).1 a.1,
      )
]

-- What a validated Run shows: usable health, and results that are mapped and pass.
pub record Mapped (P : TestResult → Type 0) (run : Run) (results : List TestResult) : Type 0 where
  pub health : health_unusable run.environment_health ≡ false
  pub pairs : List (String × TestResult)
  pub mapped : selected_result_map run results ≡ some pairs
  pub each : All P (map (λ (p : String × TestResult). p.1) pairs)

module _ (accepted : BusinessOutcome → Bool) (P : TestResult → Type 0) where
  pub judged :
      accepted BusinessOutcome.unvalidated ≡ false
      → ((rs : List TestResult) → (accepted (judge false rs) ≡ true) ↔ All P rs)
      → (run : Run) (results : List TestResult)
      → (accepted (outcome_of run results) ≡ true) ↔ Mapped P run results
  unfolding outcome_of
  judged refused spec run results = elim (Bool-cases (health_unusable run.environment_health)) [
    | inl bad ↦ rw bad ((λ h. absurd_bool refused h), λ e. absurd_bool e.health bad)
    | inr good ↦ rw good (elim (Option-cases (selected_result_map run results)) [
      | inl none_found ↦
          rw none_found ((λ h. absurd_bool refused h), λ e. cc (none_found, e.mapped))
      | inr (pairs, found) ↦ rw found (
        (λ h. record {
          health = good;
          pairs = pairs;
          mapped = found;
          each = (spec (map (λ (p : String × TestResult). p.1) pairs)).0 h;
        }),
        λ e.
            let same : pairs ≡ e.pairs = some-eq (sym found ∙ e.mapped) in
            (spec (map (λ (p : String × TestResult). p.1) pairs)).1
              (subst (λ ps. All P (map (λ (p : String × TestResult). p.1) ps)) (sym same) e.each),
      )
    ])
  ]
