-- ===== src/Examples/RunExamples.antt =====
-- The theorems on the Run service at concrete calls.
use wifi_validation_framewor.Prelude.{
  ◌≡◌, refl, true, none, some, List, [], ◌∷◌, ok, raised, ◌>>=◌, pure, raise, reads, writes, lift,
  require, reject_if, for_each, find_row, has_row, update_rows, All, is_blank, is_space, strip,
  lstrip, rstrip, sort_by, insert_by, text_le,
}
use wifi_validation_framewor.Domain.Status.{
  queued, preparing, completed, BusinessOutcome, is_validated, EnvironmentHealthStatus,
}
use wifi_validation_framewor.Domain.Json.{no_fields}
use wifi_validation_framewor.Domain.Entities.{Run, Baseline}
use wifi_validation_framewor.Domain.Validation.{domain, any_blank, check_event, check_baseline}
use wifi_validation_framewor.Registry
use wifi_validation_framewor.Baselines
use wifi_validation_framewor.Runs.Store.{RunService, clock, id_generator}
use wifi_validation_framewor.Runs.Repositories.{
  run_key, get_run, update_run, list_attempts, attempts_of, by_number, insert_numbered,
  append_event, results_of,
}
use wifi_validation_framewor.Runs.Lifecycle.{require_run, event, transition, finished, allowed}
use wifi_validation_framewor.Runs.Outcome.{
  latest_attempt_results, latest_from, latest_attempt, results_in, selected_result_map, pair_up,
  matches, owners, verdict, judge, outcome_of, derive_business_outcome,
}
use wifi_validation_framewor.Runs.Creation.{RunRequest, create_run, check_retry_source}
use wifi_validation_framewor.Runs.Promotion.{
  PromotionRequest, promote_baseline, check_each, check_promotable, before_dot, replace_active,
  replace_in,
}
use wifi_validation_framewor.Runs.Service.{
  Call, complete, cancel, record_health, calls, calls-Advanced,
}
use wifi_validation_framewor.Runs.Advance.{Advanced}
use wifi_validation_framewor.Runs.Advance.Transition.{transition-ok}
use wifi_validation_framewor.Runs.Consistency.{IsConsistent}
use wifi_validation_framewor.Runs.Consistency.Others.{calls-Consistent}
use wifi_validation_framewor.Runs.Judgement.{Acceptable, Passed, is_plain}
use wifi_validation_framewor.Runs.Derived.{
  IsDerived, derive_business_outcome-validated, derive_business_outcome-plain,
}
use wifi_validation_framewor.Runs.Gains.{IsPromotable, promote_baseline-ok}
use wifi_validation_framewor.Runs.History.{Grows}
use wifi_validation_framewor.Runs.History.Methods.{calls-Grows}
use wifi_validation_framewor.Runs.Created.{SameTables, create_run-raised}
use wifi_validation_framewor.Runs.Redacted.{hides_fields, redact_configuration-hides}
use wifi_validation_framewor.Runs.Redaction.{redact_configuration}
use wifi_validation_framewor.Examples.Data.{running_run, running_service, completed_service}

-- A completion, and what is tried on the completed Run.
abbrev three_calls : List Call
three_calls =
    complete "r1" none
    ∷ cancel "r1" "operator" "late"
    ∷ record_health "r1" EnvironmentHealthStatus.failed
    ∷ []

calls-Advanced_example :
    (r' : Run) × (find_row run_key "r1" (calls three_calls running_service).runs ≡ some r')
    × Advanced running_run r'
unfolding find_row
calls-Advanced_example = calls-Advanced three_calls running_service "r1" running_run refl

running-IsConsistent : IsConsistent running_run
running-IsConsistent = record { outcome = refl; end = refl; validated = λ v. cc v }

calls-Consistent_example : All IsConsistent (calls three_calls running_service).runs
calls-Consistent_example =
    calls-Consistent three_calls running_service refl (running-IsConsistent, tt)

derive_business_outcome-validated_example :
    IsDerived is_validated Acceptable running_service "r1" running_run
unfolding find_row
derive_business_outcome-validated_example =
    derive_business_outcome-validated running_service "r1" running_run refl

derive_business_outcome-plain_example : IsDerived is_plain Passed running_service "r1" running_run
unfolding find_row
derive_business_outcome-plain_example =
    derive_business_outcome-plain running_service "r1" running_run refl

abbrev done : Run
done = finished running_run completed BusinessOutcome.validated none none 100

abbrev promotion : PromotionRequest
promotion = record {
  name = "golden";
  promoted_by = "lead";
  device_scope = "";
  firmware_major_scope = "";
  test_suite_version = "";
  lab_class = "";
}

abbrev golden : Baseline
golden = record {
  baseline_id = "id";
  name = "golden";
  baseline_run_id = "r1";
  status = "ACTIVE";
  promoted_by = "lead";
  promoted_at = 100;
  device_scope = "";
  firmware_major_scope = "2";
  test_suite_version = "digest";
  lab_class = "lab";
  superseded_by = none;
  provenance = "NATIVE";
}

promoted_ok : (promote_baseline [] "r1" promotion completed_service).0 ≡ ok golden
unfolding ◌>>=◌ pure raise reads writes lift require reject_if for_each find_row has_row update_rows
    is_blank is_space strip lstrip rstrip sort_by insert_by text_le any_blank check_event
    check_baseline clock id_generator get_run list_attempts attempts_of by_number insert_numbered
    append_event results_of require_run event latest_attempt_results latest_from latest_attempt
    results_in selected_result_map pair_up matches owners verdict judge outcome_of
    derive_business_outcome promote_baseline check_each check_promotable before_dot replace_active
    replace_in Baselines.save_replacing_active Baselines.supersede_name Baselines.insert_row
    Registry.get
promoted_ok = refl

promote_baseline-ok_example : IsPromotable [] "r1" completed_service
promote_baseline-ok_example =
    promote_baseline-ok [] "r1" promotion completed_service golden promoted_ok

calls-Grows_example : Grows running_service (calls three_calls running_service)
calls-Grows_example = calls-Grows three_calls running_service

abbrev early_retry : RunRequest
early_retry = record {
  firmware_version = "2.1.0";
  lab_id = "lab";
  validation_profile = "smoke";
  selected_tests = "t1" ∷ [];
  test_definition_versions = ("t1", "1.0") ∷ [];
  resolved_config = no_fields;
  repository_commit = "abc";
  source_run_id = some "r1";
}

-- The source of the retry is still running.
refused_create :
    (create_run early_retry running_service).0
    ≡ raised (domain "only terminal Runs can be used as retry sources")
unfolding ◌>>=◌ pure raise reads require reject_if find_row get_run check_retry_source create_run
refused_create = refl

create_run-raised_example : SameTables running_service (create_run early_retry running_service).1
create_run-raised_example =
    create_run-raised early_retry running_service
      (domain "only terminal Runs can be used as retry sources") refused_create

abbrev queued_run : Run
queued_run = record running_run { lifecycle = queued }

abbrev queued_service : RunService
queued_service = record running_service { runs = queued_run ∷ [] }

abbrev prepared_run : Run
prepared_run = record queued_run { lifecycle = preparing }

prepared_ok : (transition "r1" preparing queued_service).0 ≡ ok prepared_run
unfolding ◌>>=◌ pure raise reads writes lift require reject_if find_row has_row update_rows is_blank
    is_space any_blank check_event clock id_generator get_run update_run append_event require_run
    event transition
prepared_ok = refl

transition-ok_example :
    (run : Run) × (find_row run_key "r1" queued_service.runs ≡ some run)
    × (allowed run.lifecycle preparing ≡ true)
    × (prepared_run ≡ record run { lifecycle = preparing })
    × (find_row run_key "r1" (transition "r1" preparing queued_service).1.runs ≡ some prepared_run)
transition-ok_example = transition-ok "r1" preparing queued_service prepared_run prepared_ok

redact_configuration-hides_example :
    (hides_fields (redact_configuration running_run.resolved_config) ≡ true)
    × (redact_configuration (redact_configuration running_run.resolved_config)
        ≡ redact_configuration running_run.resolved_config)
redact_configuration-hides_example = redact_configuration-hides running_run.resolved_config
