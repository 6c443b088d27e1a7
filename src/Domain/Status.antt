-- ===== src/Domain/Status.antt =====
-- The enumerations of lib/domain/models.py, lib/domain/health.py and lib/domain/operations.py, and
-- the membership tests that the services make on them.
use wifi_validation_framewor.Prelude.{Bool, true, false, String}

pub data RunLifecycle : Type 0 where
  queued preparing lab_health_check running completed failed lab_failed cancelled aborted :
      RunLifecycle

pub data BusinessOutcome : Type 0 where
  validated validated_with_warnings rejected unvalidated : BusinessOutcome

pub data TestResultStatus : Type 0 where
  pass fail error skipped blocked known_failure xpass unvalidated : TestResultStatus

pub data Criticality : Type 0 where
  blocking advisory informational : Criticality

pub data Severity : Type 0 where
  critical high medium low : Severity

pub data EvidenceState : Type 0 where
  required complete incomplete invalid not_required : EvidenceState

pub data RegressionClass : Type 0 where
  regression soft_regression fixed improved unchanged new_failure new_pass no_baseline unvalidated :
      RegressionClass

pub data EnvironmentHealthStatus : Type 0 where
  healthy degraded failed unknown : EnvironmentHealthStatus

pub data FailureClass : Type 0 where
  product_failed lab_failed runner_disconnected worker_crashed timed_out cancelled aborted :
      FailureClass

pub data WaiverScope : Type 0 where
  test run regression release : WaiverScope

-- `status in {PASS, XPASS}`.
abbrev pub is_passing : TestResultStatus → Bool
is_passing TestResultStatus.pass = true
is_passing TestResultStatus.xpass = true
is_passing _ = false

abbrev pub is_pass : TestResultStatus → Bool
is_pass TestResultStatus.pass = true
is_pass _ = false

-- `evidence_state in {REQUIRED, INCOMPLETE, INVALID}`.
abbrev pub is_unfinished : EvidenceState → Bool
is_unfinished EvidenceState.required = true
is_unfinished EvidenceState.incomplete = true
is_unfinished EvidenceState.invalid = true
is_unfinished _ = false

-- `is` on outcomes.
abbrev pub same_outcome : BusinessOutcome → BusinessOutcome → Bool
same_outcome BusinessOutcome.validated BusinessOutcome.validated = true
same_outcome BusinessOutcome.validated_with_warnings BusinessOutcome.validated_with_warnings = true
same_outcome BusinessOutcome.rejected BusinessOutcome.rejected = true
same_outcome BusinessOutcome.unvalidated BusinessOutcome.unvalidated = true
same_outcome _ _ = false

-- `outcome in {VALIDATED, VALIDATED_WITH_WARNINGS}`.
abbrev pub is_validated : BusinessOutcome → Bool
is_validated BusinessOutcome.validated = true
is_validated BusinessOutcome.validated_with_warnings = true
is_validated _ = false

-- The values of the string enumerations that other code compares or stores.
abbrev pub failure_class_value : FailureClass → String
failure_class_value FailureClass.product_failed = "PRODUCT_FAILED"
failure_class_value FailureClass.lab_failed = "LAB_FAILED"
failure_class_value FailureClass.runner_disconnected = "RUNNER_DISCONNECTED"
failure_class_value FailureClass.worker_crashed = "WORKER_CRASHED"
failure_class_value FailureClass.timed_out = "TIMED_OUT"
failure_class_value FailureClass.cancelled = "CANCELLED"
failure_class_value FailureClass.aborted = "ABORTED"
