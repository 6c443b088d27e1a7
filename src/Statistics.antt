-- ===== src/Statistics.antt =====
-- lib/domain/statistics.py: measurement policies and the evaluation of a metric under one. Float
-- arithmetic and the functions of Python's `statistics` module are a parameter.
use wifi_validation_framewor.Prelude.{
  ℕ, zero, suc, ◌+◌, ◌-◌, String, Bool, not, ◌&&◌, ◌||◌, Option, none, some, List, [], ◌∷◌, map,
  ◌==◌, ltb, ◌is◌, if◌then◌else◌, Result, ok, raised, any, contains, distinct, length, find_row,
  is_blank, min,
}
use wifi_validation_framewor.Domain.Json.{Float}
use wifi_validation_framewor.Domain.Entities.{Sample, Metric}

pub data StatisticKind : Type 0 where
  count minimum maximum mean median p90 p95 standard_deviation : StatisticKind

pub record MeasurementPolicy : Type 0 where
  pub aggregate : StatisticKind
  pub minimum_samples : ℕ
  pub allowed_statuses : List String
  pub include_retried : Bool

pub record MetricDefinition : Type 0 where
  pub name : String
  pub unit : String
  pub measurement_policy : MeasurementPolicy
  pub authoritative : Bool

pub record StatisticSummary : Type 0 where
  pub metric_name : String
  pub unit : String
  pub aggregate : StatisticKind
  pub count : ℕ
  pub minimum : Float
  pub maximum : Float
  pub mean : Float
  pub median : Float
  pub p90 : Float
  pub p95 : Float
  pub standard_deviation : Float
  pub decision_value : Float

-- The exceptions: DomainValidationError, InsufficientSamplesError, MeasurementEvaluationError, and
-- one that the arithmetic raises.
pub data MeasurementError : Type 0 where
  invalid_policy : String → MeasurementError
  insufficient_samples : String → ℕ → ℕ → MeasurementError
  evaluation : String → MeasurementError
  arithmetic : MeasurementError

-- The float operations; `none` is an exception, such as the overflow of a sum.
pub record FloatOps : Type 0 where
  pub le : Float → Float → Bool
  pub add : Float → Float → Float
  pub sub : Float → Float → Float
  pub mul : Float → Float → Float
  pub of_ℕ : ℕ → Float
  pub floor : Float → ℕ
  pub fmean : List Float → Option Float
  pub median : List Float → Option Float
  pub pstdev : List Float → Option Float

-- `MeasurementPolicy.__post_init__`.
unfoldable pub check_policy : MeasurementPolicy → Result MeasurementError MeasurementPolicy
unfolding is_blank
check_policy p =
    if ltb p.minimum_samples 1
    then raised (invalid_policy "minimum_samples must be a positive integer")
    else if length p.allowed_statuses == 0
    then raised (invalid_policy "allowed_statuses must not be empty")
    else if any is_blank p.allowed_statuses
    then raised (invalid_policy "allowed_statuses must contain non-empty strings")
    else ok p

-- The tests of the loop that picks the samples.
unfoldable pub is_eligible : MeasurementPolicy → Sample → Bool
is_eligible policy sample =
    not sample.warmup
    && contains policy.allowed_statuses sample.status
    && (not sample.retried || policy.include_retried)

unfoldable pub candidates : MeasurementPolicy → List Sample → List Sample
unfolding is_eligible
candidates policy [] = []
candidates policy (s ∷ rest) =
    let later = candidates policy rest in if is_eligible policy s then s ∷ later else later

-- `xs[i]` of a list, where `none` is IndexError.
abbrev pub at_index : List Float → ℕ → Option Float
at_index [] i = none
at_index (x ∷ xs) zero = some x
at_index (x ∷ xs) (suc i) = at_index xs i

-- 0.90 and 0.95.
abbrev pub quantile_90 : Float
quantile_90 = 0x3FECCCCCCCCCCCCD

abbrev pub quantile_95 : Float
quantile_95 = 0x3FEE666666666666

abbrev pub is_some : Option Float → Result MeasurementError Float
is_some none = raised arithmetic
is_some (some x) = ok x

infixl 10 ◌then_with◌
abbrev pub ◌then_with◌ :
    {A B : Type 0}
    → Result MeasurementError A
    → (A → Result MeasurementError B)
    → Result MeasurementError B
ok a then_with f = f a
raised e then_with f = raised e

module _ (o : FloatOps) where
  unfoldable pub insert_float : Float → List Float → List Float
  insert_float x [] = x ∷ []
  insert_float x (y ∷ ys) =
      let rest = insert_float x ys in if o.le x y then x ∷ y ∷ ys else y ∷ rest

  -- `sorted(values)`.
  unfoldable pub sort_floats : List Float → List Float
  unfolding insert_float
  sort_floats [] = []
  sort_floats (x ∷ xs) = insert_float x (sort_floats xs)

  -- `min(values)` and `max(values)` of a list that is not empty.
  unfoldable pub min_of : Float → List Float → Float
  min_of m [] = m
  min_of m (x ∷ xs) = min_of (if o.le m x then m else x) xs

  unfoldable pub max_of : Float → List Float → Float
  max_of m [] = m
  max_of m (x ∷ xs) = max_of (if o.le x m then m else x) xs

  unfoldable pub interpolate : Float → ℕ → List Float → Result MeasurementError Float
  interpolate index lower ordered =
      let upper = min (lower + 1) (length ordered - 1) in
      let fraction = o.sub index (o.of_ℕ lower) in
      is_some (at_index ordered lower) then_with λ below.
      is_some (at_index ordered upper) then_with λ above.
      ok (o.add below (o.mul (o.sub above below) fraction))

  -- `_percentile`.
  unfoldable pub percentile : List Float → Float → Result MeasurementError Float
  unfolding interpolate
  percentile [] quantile = raised (evaluation "cannot calculate percentile of no samples")
  percentile (x ∷ []) quantile = ok x
  percentile (x ∷ y ∷ rest) quantile =
      let ordered = x ∷ y ∷ rest in
      let index = o.mul (o.of_ℕ (length ordered - 1)) quantile in
      interpolate index (o.floor index) ordered

  -- `_decision_value`.
  unfoldable pub decision_value :
      StatisticKind → ℕ → Float → Float → Float → Float → Float → Float → Float → Float
  decision_value StatisticKind.count n lo hi avg mid q90 q95 sd = o.of_ℕ n
  decision_value StatisticKind.minimum n lo hi avg mid q90 q95 sd = lo
  decision_value StatisticKind.maximum n lo hi avg mid q90 q95 sd = hi
  decision_value StatisticKind.mean n lo hi avg mid q90 q95 sd = avg
  decision_value StatisticKind.median n lo hi avg mid q90 q95 sd = mid
  decision_value StatisticKind.p90 n lo hi avg mid q90 q95 sd = q90
  decision_value StatisticKind.p95 n lo hi avg mid q90 q95 sd = q95
  decision_value StatisticKind.standard_deviation n lo hi avg mid q90 q95 sd = sd

  -- The part of `evaluate` after the sample check; `min` of no values raises.
  unfoldable pub summarise :
      Metric → MeasurementPolicy → List Float → Result MeasurementError StatisticSummary
  unfolding percentile decision_value sort_floats min_of max_of
  summarise metric policy [] = raised (evaluation "cannot calculate percentile of no samples")
  summarise metric policy (v ∷ vs) =
      let values = v ∷ vs in
      let ordered = sort_floats values in
      percentile ordered quantile_90 then_with λ q90.
      percentile ordered quantile_95 then_with λ q95. is_some (o.fmean values) then_with λ avg.
      is_some (o.median values) then_with λ median_value.
      is_some (o.pstdev values) then_with λ deviation. ok (record {
        metric_name = metric.name;
        unit = metric.unit;
        aggregate = policy.aggregate;
        count = length values;
        minimum = min_of v vs;
        maximum = max_of v vs;
        mean = avg;
        median = median_value;
        p90 = q90;
        p95 = q95;
        standard_deviation = deviation;
        decision_value =
            decision_value policy.aggregate (length values) (min_of v vs) (max_of v vs) avg
              median_value q90 q95 deviation;
      })

  unfoldable pub evaluate : Metric → MeasurementPolicy → Result MeasurementError StatisticSummary
  unfolding candidates summarise
  evaluate metric policy =
      let picked = candidates policy metric.samples in
      if ltb (length picked) policy.minimum_samples
      then raised (insufficient_samples metric.name (length picked) policy.minimum_samples)
      else summarise metric policy (map (λ (s : Sample). s.value) picked)

  abbrev pub evaluate_defined :
      List Metric → MetricDefinition → Result MeasurementError StatisticSummary
  evaluate_defined metrics d = elim (find_row (λ (m : Metric). m.name) d.name metrics) [
    | none ↦ raised (evaluation "required metric not collected")
    | some metric ↦
        if metric.unit is d.unit
        then evaluate metric d.measurement_policy
        else raised (evaluation "unit mismatch")
  ]

  -- The loop of `evaluate_definitions`.
  unfoldable pub evaluate_each :
      List Metric → List MetricDefinition → Result MeasurementError (List StatisticSummary)
  unfolding evaluate find_row
  evaluate_each metrics [] = ok []
  evaluate_each metrics (d ∷ ds) = evaluate_defined metrics d then_with λ summary.
      evaluate_each metrics ds then_with λ rest. ok (summary ∷ rest)

  unfoldable pub evaluate_definitions :
      List Metric → List MetricDefinition → Result MeasurementError (List StatisticSummary)
  unfolding evaluate_each
  evaluate_definitions metrics definitions =
      if not (distinct (map (λ (m : Metric). m.name) metrics))
      then raised (evaluation "duplicate collected metric names are not allowed")
      else if not (distinct (map (λ (d : MetricDefinition). d.name) definitions))
      then raised (evaluation "duplicate metric definitions are not allowed")
      else evaluate_each metrics definitions
