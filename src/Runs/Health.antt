-- ===== src/Runs/Health.antt =====
-- `begin_lab_health_check`, `record_environment_health`, `start_run_after_health` and `start_run` of
-- lib/services/run_service.py.
use wifi_validation_framewor.Prelude.{
  ℕ, String, Bool, true, false, not, Option, none, some, [], if◌then◌else◌, ltb, pure, reject_if,
  ◌>>=◌, ◌>>◌, head?,
}
use wifi_validation_framewor.Domain.Status.{
  RunLifecycle, queued, preparing, lab_health_check, running, completed, failed, lab_failed,
  EnvironmentHealthStatus,
}
use wifi_validation_framewor.Domain.Entities.{Time, Run, Attempt}
use wifi_validation_framewor.Domain.Validation.{domain}
use wifi_validation_framewor.Runs.Store.{Action, clock}
use wifi_validation_framewor.Runs.Repositories.{update_run, list_attempts, update_attempt}
use wifi_validation_framewor.Runs.Lifecycle.{
  require_run, transition, event, attempt_id_of, is_unset,
}

abbrev pub is_queued : RunLifecycle → Bool
is_queued queued = true
is_queued _ = false

abbrev pub is_checking : RunLifecycle → Bool
is_checking lab_health_check = true
is_checking _ = false

-- The transition to PREPARING of a queued Run.
unfoldable pub prepare_if : Bool → String → Action Run
prepare_if true run_id = do transition run_id preparing; transition run_id lab_health_check
prepare_if false run_id = transition run_id lab_health_check

unfoldable pub begin_lab_health_check : String → Action Run
begin_lab_health_check run_id = do
  run ← require_run run_id
  prepare_if (is_queued run.lifecycle) run_id

-- The states in which health may be recorded.
abbrev pub takes_health : RunLifecycle → Bool
takes_health lab_health_check = true
takes_health running = true
takes_health completed = true
takes_health failed = true
takes_health lab_failed = true
takes_health _ = false

-- The dictionary `severity`.
abbrev pub severity : EnvironmentHealthStatus → ℕ
severity EnvironmentHealthStatus.healthy = 0
severity EnvironmentHealthStatus.degraded = 1
severity EnvironmentHealthStatus.unknown = 1
severity EnvironmentHealthStatus.failed = 2

abbrev pub is_worse : EnvironmentHealthStatus → Option EnvironmentHealthStatus → Bool
is_worse status none = true
is_worse status (some current) = ltb (severity current) (severity status)

unfoldable pub worsen_if : Bool → Run → EnvironmentHealthStatus → Action Run
worsen_if true run status = do
  let run' = record run { environment_health = some status }
  update_run run'
  pure run'
worsen_if false run status = pure run

unfoldable pub record_environment_health : String → EnvironmentHealthStatus → Action Run
record_environment_health run_id status = do
  run ← require_run run_id
  reject_if (not (takes_health run.lifecycle)) (domain "cannot record environment health")
  worsen_if (is_worse status run.environment_health) run status

-- `attempts[0].started_at = now`, where it is not set.
unfoldable pub start_attempt : Time → Option Attempt → Action (Unit {0})
start_attempt now none = pure tt
start_attempt now (some a) =
    if is_unset a.started_at then update_attempt (record a { started_at = some now }) else pure tt

unfoldable pub start_run_after_health : String → Action Run
start_run_after_health run_id = do
  run ← require_run run_id
  reject_if (not (is_checking run.lifecycle))
      (domain "Run must be in LAB_HEALTH_CHECK before execution")
  moved ← transition run_id running
  now ← clock
  let run' = record moved { started_at = some now }
  update_run run'
  attempts ← list_attempts run_id
  start_attempt now (head? attempts)
  event run_id "RUN_STARTED" now (attempt_id_of (head? attempts)) []
  pure run'

unfoldable pub start_run : String → Action Run
start_run run_id = do
  transition run_id preparing
  transition run_id lab_health_check
  start_run_after_health run_id
