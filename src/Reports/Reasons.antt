-- ===== src/Reports/Reasons.antt =====
-- Where `map_pytest_reports` (lib/services/pytest_result_mapping.py) gives a reason.
use Prim.Native.String.{◌++◌ as text_append}
use Prim.Native.String.{len}
use text.Mathlib.TextPositions.{len-append}
use wifi_validation_framewor.Prelude.{
  ap, String, ◌≡◌, refl, arith, eq_iff, Bool, true, false, not, ◌||◌, Option, none, some, ◌is◌,
  if◌then◌else◌, Bool-cases, inl, inr,
}
use wifi_validation_framewor.Domain.Status.{TestResultStatus, is_pass}
use wifi_validation_framewor.Reports.{
  Report, Reports, Mapped, is_outcome, has_failed, was_skipped, or_default, longrepr_of,
  xfail_result, call_result, finished_call, setup_result, or_else, map_pytest_reports,
}

-- A reason that is a text with characters.
abbrev pub has_reason : Option String → Bool
has_reason none = false
has_reason (some reason) = not (reason is "")

-- An expected failure is declared with a reason, or not at all.
abbrev pub gives_reason : Option Report → Bool
gives_reason none = true
gives_reason (some r) = elim r.wasxfail [ none ↦ true | some reason ↦ not (reason is "") ]

abbrev unexpected : String
unexpected = "Unexpected pass (xfail condition not met): "

append-has_reason : (reason : String) → (text_append unexpected reason is "") ≡ false
append-has_reason reason = elim (Bool-cases (text_append unexpected reason is "")) [
  | inr e ↦ e
  | inl e ↦
      let empty : text_append unexpected reason ≡ "" =
        (eq_iff (text_append unexpected reason) "").0 e in
      absurd (omega (arith, ap len empty, len-append unexpected reason))
]

or_default-has_reason :
    (text default : String) → (default is "") ≡ false → (or_default text default is "") ≡ false
or_default-has_reason text default h = elim (Bool-cases (text is "")) [
  | inl e ↦ rw e h
  | inr e ↦ rw (e, e)
]

-- A reason is given with every status but PASS.
abbrev answers : Mapped → Bool
answers m = if has_reason m.1 then not (is_pass m.0) else is_pass m.0

abbrev answers_if : Option Mapped → Bool
answers_if none = true
answers_if (some m) = answers m

-- The parts of the mapping, each with what its phase gave as a reason.
xfail_result-reason :
    (c : Report) (mark : Option String)
    → elim mark [ none ↦ true | some reason ↦ not (reason is "") ] ≡ true
    → answers_if (xfail_result c mark) ≡ true
xfail_result-reason c none n = refl
xfail_result-reason c (some reason) n =
    by_outcome (is_outcome c.outcome "skipped")
      (is_outcome c.outcome "passed" || is_outcome c.outcome "failed")
  where
    by_outcome :
        (skipped finished : Bool)
        → answers_if (
            if skipped
            then some (TestResultStatus.known_failure, some (or_default c.longrepr reason))
            else if finished
            then some (TestResultStatus.xpass, some (text_append unexpected reason))
            else none)
          ≡ true
    by_outcome true b = rw (or_default-has_reason c.longrepr reason (ground arith))
    by_outcome false true = rw (append-has_reason reason)
    by_outcome false false = refl

call_result-reason :
    (c : Option Report) (later : Mapped)
    → gives_reason c ≡ true
    → answers later ≡ true
    → answers (or_else (call_result c) later) ≡ true
call_result-reason none later h k = k
call_result-reason (some c) later h k =
    by_result (xfail_result c c.wasxfail) (is_outcome c.outcome "failed")
      (xfail_result-reason c c.wasxfail h)
  where
    by_result :
        (o : Option Mapped) (failing : Bool)
        → answers_if o ≡ true
        → answers (
            or_else
              (elim o [
                | some m ↦ some m
                | none ↦
                    if failing
                    then some
                        (TestResultStatus.fail, some (or_default c.longrepr "pytest call failed"))
                    else none
              ])
              later)
          ≡ true
    by_result (some m) failing n = n
    by_result none true n = rw (or_default-has_reason c.longrepr "pytest call failed" refl)
    by_result none false n = k

setup_result-reason : (o : Option Report) → gives_reason o ≡ true → answers (setup_result o) ≡ true
setup_result-reason none h = refl
setup_result-reason (some setup) h = by_mark setup.wasxfail refl
  where
    by_mark :
        (mark : Option String) → setup.wasxfail ≡ mark → answers (setup_result (some setup)) ≡ true
    by_mark none e =
        let text = or_default-has_reason setup.longrepr "pytest setup skipped" refl in
        rw e (elim (Bool-cases (was_skipped setup)) [ inl a ↦ rw (a, text) | inr a ↦ rw a ])
    by_mark (some reason) e =
        let named : (reason is "") ≡ false = ground arith in
        let text = or_default-has_reason setup.longrepr reason named in
        rw e (elim (Bool-cases (was_skipped setup)) [ inl a ↦ rw (a, text) | inr a ↦ rw a ])

finished_call-reason :
    (c : Option Report) (later : Mapped)
    → answers later ≡ true
    → answers (or_else (finished_call c) later) ≡ true
finished_call-reason none later k = k
finished_call-reason (some c) later k =
    let text = or_default-has_reason c.longrepr "pytest skipped" refl in
    elim (Bool-cases (is_outcome c.outcome "passed")) [
      | inl a ↦ rw a
      | inr a ↦ elim (Bool-cases (is_outcome c.outcome "skipped")) [
        | inl b ↦ rw (a, b, text)
        | inr b ↦ rw (a, b) k
      ]
    ]

-- Where the phases that declare an expected failure give a reason for it, a test is given a reason, and
-- not an empty one, exactly with the statuses other than PASS.
pub map_pytest_reports-reason :
    (r : Reports)
    → gives_reason r.setup ≡ true
    → gives_reason r.call ≡ true
    → has_reason (map_pytest_reports r).1 ≡ not (is_pass (map_pytest_reports r).0)
unfolding map_pytest_reports
map_pytest_reports-reason r named_setup named_call =
    let teardown = or_default-has_reason (longrepr_of r.teardown) "teardown failed" refl in
    let setup = or_default-has_reason (longrepr_of r.setup) "setup failed" refl in
    let finished : answers (or_else (finished_call r.call) (setup_result r.setup)) ≡ true =
      finished_call-reason r.call (setup_result r.setup)
        (setup_result-reason r.setup named_setup) in
    settled (map_pytest_reports r) (elim (Bool-cases (has_failed r.setup)) [
      | inl e ↦ rw (e, setup)
      | inr e ↦ rw e (
          call_result-reason r.call _ named_call (elim (Bool-cases (has_failed r.teardown)) [
            | inl t ↦ rw (t, teardown)
            | inr t ↦ rw t finished
          ]))
    ])
  where
    settled : (m : Mapped) → answers m ≡ true → has_reason m.1 ≡ not (is_pass m.0)
    settled m h = ground arith
