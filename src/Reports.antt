-- ===== src/Reports.antt =====
-- lib/services/pytest_result_mapping.py: the status of a test from pytest's reports of its phases. A
-- report holds what the source reads of it by `getattr`: texts are what `str` gives, and a missing
-- attribute is its default.
pub mod Reasons
use Prim.Native.String.{◌++◌ as text_append}
use wifi_validation_framewor.Prelude.{
  ap, String, ◌≡◌, ◌↔◌, refl, arith, eq_iff, Bool, true, false, not, ◌&&◌, ◌||◌, Option, none, some,
  ◌is◌, if◌then◌else◌, Bool-cases, inl, inr,
}
use wifi_validation_framewor.Domain.Status.{TestResultStatus, is_pass}

pub record Report : Type 0 where
  pub failed : Bool
  pub skipped : Bool
  pub outcome : Option String
  pub longrepr : String
  pub wasxfail : Option String

-- The dictionary of reports.
pub record Reports : Type 0 where
  pub setup : Option Report
  pub call : Option Report
  pub teardown : Option Report

abbrev pub is_outcome : Option String → String → Bool
is_outcome none t = false
is_outcome (some o) t = o is t

abbrev pub has_failed : Option Report → Bool
has_failed none = false
has_failed (some r) = r.failed || is_outcome r.outcome "failed"

abbrev pub was_skipped : Report → Bool
was_skipped r = r.skipped || is_outcome r.outcome "skipped"

-- `text or default`.
abbrev pub or_default : String → String → String
or_default text default = if text is "" then default else text

abbrev pub longrepr_of : Option Report → String
longrepr_of none = ""
longrepr_of (some r) = r.longrepr

abbrev pub Mapped : Type 0
Mapped = TestResultStatus × Option String

-- The block on an expected failure; none where it does not return.
abbrev pub xfail_result : Report → Option String → Option Mapped
xfail_result call none = none
xfail_result call (some reason) =
    if is_outcome call.outcome "skipped"
    then some (TestResultStatus.known_failure, some (or_default call.longrepr reason))
    else if is_outcome call.outcome "passed" || is_outcome call.outcome "failed"
    then some (
      TestResultStatus.xpass,
      some (text_append "Unexpected pass (xfail condition not met): " reason),
    )
    else none

-- What the call says before the teardown is looked at.
abbrev pub call_result : Option Report → Option Mapped
call_result none = none
call_result (some call) = elim (xfail_result call call.wasxfail) [
  | some m ↦ some m
  | none ↦
      if is_outcome call.outcome "failed"
      then some (TestResultStatus.fail, some (or_default call.longrepr "pytest call failed"))
      else none
]

abbrev pub finished_call : Option Report → Option Mapped
finished_call none = none
finished_call (some call) =
    if is_outcome call.outcome "passed"
    then some (TestResultStatus.pass, none)
    else if is_outcome call.outcome "skipped"
    then some (TestResultStatus.skipped, some (or_default call.longrepr "pytest skipped"))
    else none

abbrev pub skipped_setup : Report → Option String → Mapped
skipped_setup setup none =
    (TestResultStatus.skipped, some (or_default setup.longrepr "pytest setup skipped"))
skipped_setup setup (some reason) =
    (TestResultStatus.known_failure, some (or_default setup.longrepr reason))

abbrev pub inconclusive : Mapped
inconclusive = (TestResultStatus.unvalidated, some "pytest produced no conclusive call report")

abbrev pub setup_result : Option Report → Mapped
setup_result none = inconclusive
setup_result (some setup) =
    if was_skipped setup then skipped_setup setup setup.wasxfail else inconclusive

abbrev pub or_else : Option Mapped → Mapped → Mapped
or_else none later = later
or_else (some m) later = m

unfoldable pub map_pytest_reports : Reports → Mapped
map_pytest_reports r =
    if has_failed r.setup
    then (TestResultStatus.error, some (or_default (longrepr_of r.setup) "setup failed"))
    else or_else (call_result r.call) (
        if has_failed r.teardown
        then (TestResultStatus.error, some (or_default (longrepr_of r.teardown) "teardown failed"))
        else or_else (finished_call r.call) (setup_result r.setup))

-- A call that passed as it was expected to.
abbrev pub passed_call : Option Report → Bool
passed_call none = false
passed_call (some c) =
    is_outcome c.outcome "passed" && (elim c.wasxfail [ none ↦ true | some _ ↦ false ])

passed_text :
    (o : Option String)
    → is_outcome o "passed" ≡ true
    → (is_outcome o "skipped" ≡ false) × (is_outcome o "failed" ≡ false)
passed_text none h = cc h
passed_text (some o) h = let same : o ≡ "passed" = (eq_iff o "passed").0 h in rw same (refl, refl)

-- What the two looks at such a call give.
passed_call-results :
    (c : Option Report)
    → passed_call c ≡ true
    → (call_result c ≡ none) × (finished_call c ≡ some (TestResultStatus.pass, none))
passed_call-results none h = cc h
passed_call-results (some c) h =
    let passed : is_outcome c.outcome "passed" ≡ true = ground arith in
    let expected : c.wasxfail ≡ none = ground arith in
    let (_, sound) = passed_text c.outcome passed in (rw (expected, sound), rw passed)

-- A test is PASS exactly when neither its setup nor its teardown failed and its call passed without an
-- expected failure being declared; in particular a test with no report of its call is never PASS.
pub map_pytest_reports-pass :
    (r : Reports)
    → (is_pass (map_pytest_reports r).0 ≡ true) ↔ (
        (has_failed r.setup ≡ false)
        × (passed_call r.call ≡ true)
        × (has_failed r.teardown ≡ false))
unfolding map_pytest_reports
map_pytest_reports-pass r = (
  λ h. (ground arith, ground arith, ground arith),
  λ h. let (looked, finished) = passed_call-results r.call h.1 in rw (h.0, looked, h.2, finished),
)
