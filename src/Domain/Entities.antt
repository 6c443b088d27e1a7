-- ===== src/Domain/Entities.antt =====
-- The entities of lib/domain/models.py. A `datetime` is the number of microseconds since the epoch,
-- and a mapping from texts to texts is a list of pairs with distinct keys. Left out are the
-- artifacts of a result and the environment and configuration snapshots of a Run, which the methods
-- of the Run service pass on or leave empty.
use wifi_validation_framewor.Prelude.{ℕ, String, Bool, List, Option}
use wifi_validation_framewor.Domain.Status.{
  RunLifecycle, BusinessOutcome, TestResultStatus, Criticality, Severity, EvidenceState,
  EnvironmentHealthStatus, FailureClass,
}
use wifi_validation_framewor.Domain.Json.{Json, Fields, Float}

abbrev pub Time : Type 0
Time = ℕ

pub record Sample : Type 0 where
  pub value : Float
  pub status : String
  pub warmup : Bool
  pub retried : Bool
  pub captured_at : Option Time
  pub metadata : Json

pub record Metric : Type 0 where
  pub name : String
  pub unit : String
  pub samples : List Sample
  pub authoritative : Bool

pub record TestResult : Type 0 where
  pub test_result_id : String
  pub run_id : String
  pub attempt_id : String
  pub test_id : String
  pub node_id : String
  pub test_version : String
  pub status : TestResultStatus
  pub criticality : Criticality
  pub severity : Severity
  pub evidence_state : EvidenceState
  pub metrics : List Metric
  pub error_reason : Option String
  pub started_at : Option Time
  pub completed_at : Option Time
  pub failure_class : Option FailureClass
  pub failure_reason : Option String
  pub execution_pid : Option ℕ
  pub provenance : String
  pub execution_metadata : Json

pub record Attempt : Type 0 where
  pub attempt_id : String
  pub run_id : String
  pub number : ℕ
  pub results : List TestResult
  pub started_at : Option Time
  pub completed_at : Option Time

pub record Run : Type 0 where
  pub run_id : String
  pub display_id : String
  pub firmware_version : String
  pub lab_id : String
  pub validation_profile : String
  pub selected_tests : List String
  pub test_definition_versions : List (String × String)
  pub resolved_config : Fields
  pub configuration_hash : String
  pub repository_commit : String
  pub lifecycle : RunLifecycle
  pub outcome : Option BusinessOutcome
  pub failure_class : Option FailureClass
  pub failure_reason : Option String
  pub execution_pid : Option ℕ
  pub environment_health : Option EnvironmentHealthStatus
  pub attempts : List Attempt
  pub created_at : Option Time
  pub started_at : Option Time
  pub completed_at : Option Time
  pub provenance : String
  pub source_run_id : Option String

pub record LifecycleEvent : Type 0 where
  pub event_id : String
  pub run_id : String
  pub event_type : String
  pub occurred_at : Time
  pub attempt_id : Option String
  pub test_result_id : Option String
  pub details : List (String × Option String)

pub record Baseline : Type 0 where
  pub baseline_id : String
  pub name : String
  pub baseline_run_id : String
  pub status : String
  pub promoted_by : String
  pub promoted_at : Time
  pub device_scope : String
  pub firmware_major_scope : String
  pub test_suite_version : String
  pub lab_class : String
  pub superseded_by : Option String
  pub provenance : String
