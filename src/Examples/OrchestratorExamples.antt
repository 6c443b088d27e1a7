-- ===== src/Examples/OrchestratorExamples.antt =====
-- A session on a laboratory and a device, while another process holds another laboratory.
use wifi_validation_framewor.Prelude.{
  ◌≡◌, refl, ap, none, some, [], ◌∷◌, ok, raised, Result, pure, raise, reads, writes, lift, require,
  handling, reject_if, ◌>>=◌, find_row, has_row, update_rows, is_blank, is_space, lstrip, rstrip,
  strip, text_le, insert_by, sort_by, without_repeats,
}
use wifi_validation_framewor.Domain.Json.{obj, null, entry, no_fields, field, str}
use wifi_validation_framewor.Domain.Status.{preparing}
use wifi_validation_framewor.Domain.Validation.{
  any_blank, same_tests, check_source, check_run, check_event, check_attempt,
}
use wifi_validation_framewor.Runs.Store.{clock, id_generator}
use wifi_validation_framewor.Runs.Repositories.{
  transaction, get_run, insert_run, update_run, insert_attempt, append_event, save_initial_bundle,
}
use wifi_validation_framewor.Runs.Lifecycle.{require_run, event, transition}
use wifi_validation_framewor.Runs.Redaction.{lower, occurs, is_sensitive, redact_configuration}
use wifi_validation_framewor.Runs.Creation.{
  RunRequest, new_run, new_attempt, check_retry_source, create_run,
}
use wifi_validation_framewor.Locks.{
  validate_duration, validate_identity, system_call, lease_on, write, try_lock,
}
use wifi_validation_framewor.Locks.Requests.{
  validate_all, open_file, take_lease, poll, acquire, acquire_each, acquire_sorted, acquire_many,
}
use wifi_validation_framewor.Locks.Exclusion.{Steady, Steady-refl}
use wifi_validation_framewor.Configuration.{
  ResolvedConfiguration, resolve, merge_all, merge_source, merge_layer, copy_config, set_entry,
  put_value, append_layer, note_layer, forget_if,
}
use wifi_validation_framewor.Orchestrator.{
  Orchestration, RunExecutionSession, PrepareRequest, Answers, Error, on_service, on_machine,
  is_truthy, resources, prepare_run, prepare_leased, finalize, prepare,
}
use wifi_validation_framewor.Orchestrator
use wifi_validation_framewor.Orchestrator.Session.{Prepared, prepare-Prepared, prepare-finalize}
use wifi_validation_framewor.Examples.Data.{running_service}
use wifi_validation_framewor.Examples.LockExamples.{
  lock_path, held_elsewhere, held_elsewhere-IsSound, other_releases, other_releases-Steady,
}

abbrev free_lab : Orchestration
free_lab = record { service = running_service; machine = held_elsewhere }

abbrev request : RunRequest
request = record {
  firmware_version = "fw";
  lab_id = "L2";
  validation_profile = "smoke";
  selected_tests = "t1" ∷ [];
  test_definition_versions = ("t1", "1") ∷ [];
  resolved_config = no_fields;
  repository_commit = "commit";
  source_run_id = none;
}

abbrev prepare_request : PrepareRequest
prepare_request = record {
  request = request;
  defaults = obj (field "device_id" (str "D0") no_fields);
  environment = null;
  lab = null;
  device = obj (field "device_id" (str "D1") no_fields);
  run_overrides = null;
  test_overrides = null;
  device_identity = no_fields;
  pid = "1";
  last_eight = λ s. s;
  str_of = λ j. "D1";
  digest = λ fs. "hash";
}

abbrev configuration : ResolvedConfiguration
configuration = record {
  values = field "device_id" (str "D1") no_fields;
  configuration_hash = "hash";
  provenance = ("device_id", "defaults" ∷ "device" ∷ []) ∷ [];
}

abbrev answers : Answers
answers = record { launcher = some (ok tt); fingerprint = ok tt }

-- The fingerprint cannot be captured.
abbrev bad_answers : Answers
bad_answers = record answers { fingerprint = raised "no kernel" }

prepare-Prepared_example :
    Prepared 1 prepare_request held_elsewhere
      (prepare 1 other_releases lock_path prepare_request bad_answers free_lab)
prepare-Prepared_example =
    prepare-Prepared 1 other_releases other_releases-Steady lock_path free_lab
      held_elsewhere-IsSound prepare_request bad_answers

abbrev prepared_session : RunExecutionSession
prepared_session = record {
  run =
      record (new_run request "xid" "WIFI-xid" (field "device_id" (str "D1") no_fields) "hash"
        100) { lifecycle = preparing };
  attempt = new_attempt "xxxid" "xid" 1;
  configuration = configuration;
  lease = 2 ∷ 1 ∷ [];
}

abbrev prepared : Result Error RunExecutionSession × Orchestration
prepared = prepare 1 other_releases lock_path prepare_request answers free_lab

prepared_ok : prepared.0 ≡ ok prepared_session
unfolding pure raise reads writes lift require handling reject_if ◌>>=◌ find_row has_row update_rows
    is_blank is_space lstrip rstrip strip text_le insert_by sort_by without_repeats any_blank
    same_tests check_source check_run check_event check_attempt clock id_generator transaction
    get_run insert_run update_run insert_attempt append_event save_initial_bundle require_run event
    transition lower occurs is_sensitive redact_configuration check_retry_source create_run
    validate_duration validate_identity system_call lease_on write try_lock validate_all open_file
    take_lease poll acquire acquire_each acquire_sorted acquire_many on_service on_machine
    Orchestrator.get resolve merge_all merge_source merge_layer copy_config set_entry put_value
    append_layer note_layer forget_if entry is_truthy resources prepare_run prepare_leased prepare
prepared_ok = refl

-- The tests interrupted the session: the Run is aborted.
prepare-finalize_example :
    Steady 1 held_elsewhere (finalize prepared_session 2 none prepared.1).1.machine
prepare-finalize_example =
    prepare-finalize 1 other_releases other_releases-Steady lock_path free_lab
      held_elsewhere-IsSound prepare_request answers prepared_session prepared.1 prepared.1 2 none
      (ap (λ (r : Result Error RunExecutionSession). (r, prepared.1)) prepared_ok)
      (Steady-refl 1 prepared.1.machine)
