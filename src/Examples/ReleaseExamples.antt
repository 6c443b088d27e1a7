-- ===== src/Examples/ReleaseExamples.antt =====
-- The theorems on the release gate and on pytest's reports at concrete inputs.
use wifi_validation_framewor.Prelude.{
  without_repeats, ℕ, String, ◌≡◌, ◌↔◌, refl, true, false, not, ◌&&◌, none, some, [], ◌∷◌, any,
  sort_by, insert_by, text_le, ◌is◌,
}
use wifi_validation_framewor.Domain.Status.{WaiverScope, is_pass}
use wifi_validation_framewor.Release.{
  ReleaseWaiver, ReleaseGateInput, default_policy, accepted, is_active, evaluate, filtered,
  issues_of, waiver_matches_issue,
}
use wifi_validation_framewor.Release.Accepted.{Releasable, evaluate-Releasable}
use wifi_validation_framewor.Release.Waivers.{
  evaluate-more_waivers, evaluate-not_completed, covers_run,
}
use wifi_validation_framewor.Reports.Reasons.{has_reason, map_pytest_reports-reason}
use wifi_validation_framewor.Reports.{
  Report, Reports, map_pytest_reports, has_failed, passed_call, map_pytest_reports-pass,
}

abbrev complete_input : ReleaseGateInput
complete_input = record {
  run_lifecycle = "COMPLETED";
  lab_health = some "HEALTHY";
  baseline_available = true;
  required_test_ids = "t2" ∷ "t1" ∷ [];
  observed_test_ids = "t1" ∷ "t2" ∷ [];
  test_statuses = ("t1", "PASS") ∷ ("t2", "FAIL") ∷ [];
  evidence_states = ("t1", "COMPLETE") ∷ [];
  regression_classifications = ("t1", "UNCHANGED") ∷ [];
  policy = default_policy;
  waivers = [];
  run_id = some "r1";
}

abbrev number_text : ℕ → String
number_text n = "n"

evaluate-Releasable_example :
    (accepted (evaluate number_text 7 complete_input) ≡ true) ↔ Releasable complete_input
evaluate-Releasable_example = evaluate-Releasable number_text 7 complete_input refl

abbrev release_waiver : ReleaseWaiver
release_waiver = record {
  waiver_id = "w1";
  scope = WaiverScope.release;
  target_id = "*";
  issue_code = "RUN_NOT_COMPLETED";
  reason = "known";
  created_by = "lead";
  created_at = 1;
  expires_at = some 10;
  audit_reference = "audit";
  active = true;
}

abbrev running_input : ReleaseGateInput
running_input = record complete_input {
  run_lifecycle = "RUNNING";
  required_test_ids = [];
  test_statuses = ("t1", "PASS") ∷ [];
  waivers = release_waiver ∷ [];
}

running_accepted : accepted (evaluate number_text 7 running_input) ≡ true
unfolding evaluate filtered issues_of waiver_matches_issue without_repeats sort_by insert_by text_le
running_accepted = refl

evaluate-more_waivers_example :
    accepted (
      evaluate number_text 7
        (record running_input { waivers = release_waiver ∷ release_waiver ∷ [] }))
    ≡ true
evaluate-more_waivers_example =
    evaluate-more_waivers number_text 7 running_input (release_waiver ∷ []) running_accepted

evaluate-not_completed_example :
    any
      (λ (w : ReleaseWaiver).
        is_active 7 w && (w.issue_code is "RUN_NOT_COMPLETED" && covers_run (some "r1") w))
      (release_waiver ∷ [])
    ≡ true
evaluate-not_completed_example =
    evaluate-not_completed number_text 7 running_input running_accepted refl refl

abbrev passed_report : Report
passed_report = record {
  failed = false;
  skipped = false;
  outcome = some "passed";
  longrepr = "";
  wasxfail = none;
}

abbrev failed_report : Report
failed_report = record passed_report { failed = true; outcome = some "failed"; longrepr = "boom" }

abbrev torn_down : Reports
torn_down = record {
  setup = some passed_report;
  call = some passed_report;
  teardown = some failed_report;
}

map_pytest_reports-pass_example : (is_pass (map_pytest_reports torn_down).0 ≡ true) ↔ (
    (has_failed torn_down.setup ≡ false)
    × (passed_call torn_down.call ≡ true)
    × (has_failed torn_down.teardown ≡ false))
map_pytest_reports-pass_example = map_pytest_reports-pass torn_down

map_pytest_reports-reason_example :
    has_reason (map_pytest_reports torn_down).1 ≡ not (is_pass (map_pytest_reports torn_down).0)
map_pytest_reports-reason_example = map_pytest_reports-reason torn_down refl refl
