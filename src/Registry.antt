-- ===== src/Registry.antt =====
-- lib/services/test_registry.py: the semantic test registry. The table of the built-in definitions
-- and the construction of a fallback identifier from a node identifier are left out.
use wifi_validation_framewor.Prelude.{
  String, Bool, false, Option, none, some, List, [], ◌∷◌, ◌++◌, ◌is◌, if◌then◌else◌, Result, ok,
  raised, is_blank, find_row, has_row,
}
use wifi_validation_framewor.Domain.Status.{Severity, Criticality}
use wifi_validation_framewor.Statistics.{MeasurementPolicy, MetricDefinition}

pub record TestDefinition : Type 0 where
  pub test_id : String
  pub node_id : String
  pub version : String
  pub category : String
  pub protocol : String
  pub severity : Severity
  pub criticality : Criticality
  pub requires : List String
  pub metric_definitions : List (String × String)
  pub measurement_policies : List (String × MeasurementPolicy)
  pub decision_metric : Option String

-- `KeyError`, `ValueError` and DomainValidationError.
pub data RegistryError : Type 0 where
  key_error : String → RegistryError
  value_error : String → RegistryError
  definition_error : String → RegistryError

abbrev pub lookup {ℓ} : {V : Type ℓ} → String → List (String × V) → Option V
lookup k [] = none
lookup k ((j, v) ∷ rows) = if j is k then some v else lookup k rows

-- The registry keeps the definitions in the order in which they were registered.
abbrev pub TestRegistry : Type 0
TestRegistry = List TestDefinition

unfoldable pub register : TestRegistry → TestDefinition → Result RegistryError TestRegistry
unfolding has_row
register registry d =
    if has_row (λ (e : TestDefinition). e.test_id) d.test_id registry
    then raised (value_error "duplicate semantic test id")
    else if has_row (λ (e : TestDefinition). e.node_id) d.node_id registry
    then raised (value_error "duplicate pytest node id")
    else ok (registry ++ d ∷ [])

unfoldable pub get : TestRegistry → String → Option TestDefinition
unfolding find_row
get registry test_id = find_row (λ (e : TestDefinition). e.test_id) test_id registry

unfoldable pub resolve : TestRegistry → String → Option TestDefinition
unfolding find_row
resolve registry node_id = find_row (λ (e : TestDefinition). e.node_id) node_id registry

abbrev pub is_decision : Option String → String → Bool
is_decision none name = false
is_decision (some decision) name = name is decision

-- `MetricDefinition.__post_init__`.
unfoldable pub check_metric_definition : MetricDefinition → Result RegistryError MetricDefinition
unfolding is_blank
check_metric_definition d =
    if is_blank d.name
    then raised (definition_error "metric definition name must not be empty")
    else if is_blank d.unit
    then raised (definition_error "metric definition unit must not be empty")
    else ok d

abbrev pub build_metric : TestDefinition → String → Result RegistryError MetricDefinition
build_metric d name = elim (lookup name d.metric_definitions) [
  | none ↦ raised (key_error "metric is not defined for test")
  | some unit ↦ elim (lookup name d.measurement_policies) [
    | none ↦ raised (key_error "measurement policy is not defined for metric")
    | some policy ↦ check_metric_definition (record {
      name = name;
      unit = unit;
      measurement_policy = policy;
      authoritative = is_decision d.decision_metric name;
    })
  ]
]

unfoldable pub metric_definition :
    TestRegistry → String → String → Result RegistryError MetricDefinition
unfolding get
metric_definition registry test_id name = elim (get registry test_id) [
  | none ↦ raised (key_error "unknown semantic test id")
  | some d ↦ build_metric d name
]
