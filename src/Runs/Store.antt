-- ===== src/Runs/Store.antt =====
-- The object on which the methods of `RunService` work: the callables and tables that its fields
-- hold. The n-th call of `clock` and of `id_generator` gives the n-th value of a stream.
use wifi_validation_framewor.Prelude.{ℕ, ◌+◌, String, Option, List, Method, writes}
use wifi_validation_framewor.Domain.Json.{Json, Fields}
use wifi_validation_framewor.Domain.Entities.{
  Time, Run, Attempt, TestResult, LifecycleEvent, Baseline,
}
use wifi_validation_framewor.Domain.Validation.{Error}
use wifi_validation_framewor.Registry.{TestRegistry}
use wifi_validation_framewor.Statistics.{FloatOps}

-- What the service calls and does not implement: the clock, the identifiers, the digest of a
-- configuration (json and hashlib), the display identifier's time format, `str` and floats.
pub record Host : Type 0 where
  pub clock : ℕ → Time
  pub id_generator : ℕ → String
  pub digest : Fields → String
  pub display_id : Time → String → String
  pub str_of : Json → String
  pub floats : FloatOps

-- `none` for a repository or registry that is not configured.
pub record RunService : Type 0 where
  pub host : Host
  pub clock_calls : ℕ
  pub id_calls : ℕ
  pub runs : List Run
  pub attempts : List Attempt
  pub test_results : Option (List TestResult)
  pub events : List LifecycleEvent
  pub baselines : Option (List Baseline)
  pub test_registry : Option TestRegistry

abbrev pub Action : Type 0 → Type 0
Action = Method RunService Error

unfoldable pub clock : Action Time
clock = writes λ s. (s.host.clock s.clock_calls, record s { clock_calls = s.clock_calls + 1 })

unfoldable pub id_generator : Action String
id_generator = writes λ s. (s.host.id_generator s.id_calls, record s { id_calls = s.id_calls + 1 })
