-- ===== src/Release.antt =====
-- The release gate: lib/services/release_gate.py, with the waivers of lib/domain/operations.py.
-- `datetime.now` and the printing of a number are parameters. A mapping is a list of pairs with
-- distinct keys.
pub mod Issues
pub mod Accepted
pub mod Waivers
use Prim.Native.String.{◌++◌ as text_append}
use wifi_validation_framewor.Prelude.{
  ℕ, String, Bool, true, false, not, ◌&&◌, ◌||◌, Option, none, some, List, [], ◌∷◌, ◌++◌, map, ◌is◌,
  if◌then◌else◌, ltb, any, all, filter, contains, sort_by, sorted_set, length, ◌==◌,
}
use wifi_validation_framewor.Domain.Status.{WaiverScope}
use wifi_validation_framewor.Domain.Entities.{Time}
use wifi_validation_framewor.Registry.{lookup}

pub record ReleaseWaiver : Type 0 where
  pub waiver_id : String
  pub scope : WaiverScope
  pub target_id : String
  pub issue_code : String
  pub reason : String
  pub created_by : String
  pub created_at : Time
  pub expires_at : Option Time
  pub audit_reference : String
  pub active : Bool

abbrev pub not_expired : Time → Option Time → Bool
not_expired now none = true
not_expired now (some t) = ltb now t

abbrev pub is_active : Time → ReleaseWaiver → Bool
is_active now w = w.active && not_expired now w.expires_at

pub data ReleaseGateStatus : Type 0 where
  accept reject : ReleaseGateStatus

pub record ReleaseGatePolicy : Type 0 where
  pub disallowed_classifications : List String
  pub require_healthy_lab : Bool
  pub require_completed_run : Bool
  pub require_all_required_tests : Bool
  pub require_valid_required_evidence : Bool

abbrev pub default_policy : ReleaseGatePolicy
default_policy = record {
  disallowed_classifications =
      "REGRESSION" ∷ "SOFT_REGRESSION" ∷ "NEW_FAILURE" ∷ "NO_BASELINE" ∷ "UNVALIDATED" ∷ [];
  require_healthy_lab = true;
  require_completed_run = true;
  require_all_required_tests = true;
  require_valid_required_evidence = true;
}

pub record ReleaseGateIssue : Type 0 where
  pub code : String
  pub message : String
  pub test_id : Option String

pub record ReleaseGateInput : Type 0 where
  pub run_lifecycle : String
  pub lab_health : Option String
  pub baseline_available : Bool
  pub required_test_ids : List String
  pub observed_test_ids : List String
  pub test_statuses : List (String × String)
  pub evidence_states : List (String × String)
  pub regression_classifications : List (String × String)
  pub policy : ReleaseGatePolicy
  pub waivers : List ReleaseWaiver
  pub run_id : Option String

pub record ReleaseGateDecision : Type 0 where
  pub status : ReleaseGateStatus
  pub issues : List ReleaseGateIssue
  pub summary : String

abbrev pub accepted : ReleaseGateDecision → Bool
accepted d = elim d.status [ accept ↦ true | reject ↦ false ]

-- The value of an optional text, and a text compared with one.
abbrev pub is_some : Option String → String → Bool
is_some none t = false
is_some (some s) t = s is t

abbrev text_or : String → Option String → String
text_or default none = default
text_or default (some t) = if t is "" then default else t

abbrev pub key_of : String × String → String
key_of p = p.0

-- One issue where a condition is violated.
abbrev pub issue_if : Bool → ReleaseGateIssue → List ReleaseGateIssue
issue_if true i = i ∷ []
issue_if false i = []

abbrev pub issues_if : Bool → List ReleaseGateIssue → List ReleaseGateIssue
issues_if true found = found
issues_if false found = []

abbrev pub missing_issue : String → ReleaseGateIssue
missing_issue t = record {
  code = "MISSING_REQUIRED_TEST";
  message = "required test has no persisted current result";
  test_id = some t;
}

abbrev pub class_issue : String × String → ReleaseGateIssue
class_issue (t, c) = record {
  code = "DISALLOWED_REGRESSION_CLASS";
  message = text_append "regression classification " (text_append c " is not releasable");
  test_id = some t;
}

abbrev pub is_failing : String → Bool
is_failing s = s is "FAIL" || s is "ERROR" || s is "BLOCKED" || s is "UNVALIDATED"

abbrev pub status_issue : String × String → ReleaseGateIssue
status_issue (t, s) = record {
  code = "NON_PASSING_TEST";
  message = text_append "current test status is " s;
  test_id = some t;
}

-- `evidence_states.get(test_id, 'MISSING')`.
abbrev pub state_of : Option String → String
state_of none = "MISSING"
state_of (some s) = s

abbrev pub is_lacking : String → Bool
is_lacking s = s is "MISSING" || s is "INCOMPLETE" || s is "INVALID"

abbrev pub evidence_issue : List (String × String) → String → ReleaseGateIssue
evidence_issue states t = record {
  code = "INVALID_REQUIRED_EVIDENCE";
  message = text_append "required evidence state is " (state_of (lookup t states));
  test_id = some t;
}

abbrev pub run_issue : ReleaseGateInput → ReleaseGateIssue
run_issue d = record {
  code = "RUN_NOT_COMPLETED";
  message = text_append "current Run lifecycle is " d.run_lifecycle;
  test_id = none;
}

abbrev pub lab_issue : ReleaseGateInput → ReleaseGateIssue
lab_issue d = record {
  code = "LAB_NOT_HEALTHY";
  message = text_append "lab health is " (text_or "UNKNOWN" d.lab_health);
  test_id = none;
}

abbrev pub baseline_issue : ReleaseGateIssue
baseline_issue = record {
  code = "NO_BASELINE";
  message = "no comparable baseline is available";
  test_id = none;
}

-- The list `issues`, in the source's order.
unfoldable pub issues_of : ReleaseGateInput → List ReleaseGateIssue
issues_of d =
    issue_if (d.policy.require_completed_run && not (d.run_lifecycle is "COMPLETED")) (run_issue d)
    ++ issue_if (d.policy.require_healthy_lab && not (is_some d.lab_health "HEALTHY")) (lab_issue d)
    ++ issue_if (not d.baseline_available) baseline_issue
    ++ issues_if d.policy.require_all_required_tests (
        map missing_issue
          (filter (λ t. not (contains d.observed_test_ids t)) (sorted_set d.required_test_ids)))
    ++ map class_issue (
        filter (λ (p : String × String). contains d.policy.disallowed_classifications p.1)
          (sort_by key_of d.regression_classifications))
    ++ map status_issue
        (filter (λ (p : String × String). is_failing p.1) (sort_by key_of d.test_statuses))
    ++ issues_if d.policy.require_valid_required_evidence (
        map (evidence_issue d.evidence_states) (
          filter (λ t. is_lacking (state_of (lookup t d.evidence_states)))
            (sorted_set d.required_test_ids)))

-- `target in {"*", name}` for a name that may be missing.
abbrev pub targets : String → Option String → Bool
targets target none = false
targets target (some name) = target is "*" || target is name

unfoldable pub waiver_matches_issue : Option String → ReleaseWaiver → ReleaseGateIssue → Bool
waiver_matches_issue run_id w issue = w.issue_code is issue.code && (elim w.scope [
  | WaiverScope.test ↦ targets w.target_id issue.test_id
  | WaiverScope.run ↦ targets w.target_id run_id
  | WaiverScope.regression ↦ targets w.target_id issue.test_id
  | WaiverScope.release ↦ w.target_id is "*"
])

abbrev pub is_waived : Option String → List ReleaseWaiver → ReleaseGateIssue → Bool
is_waived run_id active issue =
    any (λ (w : ReleaseWaiver). waiver_matches_issue run_id w issue) active

unfoldable pub filtered : Time → ReleaseGateInput → List ReleaseGateIssue
filtered now d =
    filter (λ i. not (is_waived d.run_id (filter (is_active now) d.waivers) i)) (issues_of d)

abbrev pub decision : (ℕ → String) → List ReleaseGateIssue → ReleaseGateDecision
decision number_text [] = record { status = accept; issues = []; summary = "release gate accepted" }
decision number_text (i ∷ rest) = record {
  status = reject;
  issues = i ∷ rest;
  summary =
      text_append "release gate rejected with "
        (text_append (number_text (length (i ∷ rest))) " issue(s)");
}

unfoldable pub evaluate : (ℕ → String) → Time → ReleaseGateInput → ReleaseGateDecision
evaluate number_text now d = decision number_text (filtered now d)
