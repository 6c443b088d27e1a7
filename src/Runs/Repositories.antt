-- ===== src/Runs/Repositories.antt =====
-- The repositories of lib/repositories/sqlite.py that the Run service uses, with the primary keys,
-- unique columns and foreign keys of the schema (alembic/versions/20261105_00_schema_base.py). A
-- method is one transaction: where it raises, the tables are as they were.
use Prim.Native.String.{◌++◌ as text_append}
use mathlib.Core.Option
use wifi_validation_framewor.Prelude.{
  String, Bool, false, not, ◌&&◌, ◌||◌, Option, none, some, List, [], ◌∷◌, ◌++◌, map, ◌==◌, leb,
  ◌is◌, if◌then◌else◌, ok, raised, reads, writes, require, reject_if, ◌>>=◌, ◌>>◌, any, filter,
  find_row, has_row, update_rows, contains, distinct, sort_by,
}
use wifi_validation_framewor.Domain.Entities.{
  Run, Attempt, TestResult, Metric, LifecycleEvent, Baseline,
}
use wifi_validation_framewor.Domain.Validation.{conflict, integrity}
use wifi_validation_framewor.Runs.Store.{Action}

-- The key columns.
abbrev pub run_key : Run → String
run_key r = r.run_id

abbrev pub attempt_key : Attempt → String
attempt_key a = a.attempt_id

abbrev pub result_key : TestResult → String
result_key r = r.test_result_id

abbrev pub event_key : LifecycleEvent → String
event_key e = e.event_id

abbrev pub baseline_key : Baseline → String
baseline_key b = b.baseline_id

-- `with database.transaction()`: an exception rolls the tables back.
unfoldable pub transaction : {A : Type 0} → Action A → Action A
transaction m s = let (r, t) = m s in elim r [ ok a ↦ (ok a, t) | raised e ↦ (raised e, s) ]

abbrev pub reference_missing : {A : Type 0} → (A → String) → Option String → List A → Bool
reference_missing key none rows = false
reference_missing key (some k) rows = not (has_row key k rows)

-- SQLiteRunRepository.get; the in-memory attempts of a Run are not stored.
unfoldable pub get_run : String → Action (Option Run)
get_run run_id = reads (λ s. find_row run_key run_id s.runs)

abbrev pub run_row : Run → Run
run_row r = record r { attempts = [] }

-- SQLiteRunRepository.save_in_transaction.
unfoldable pub insert_run : Run → Action (Unit {0})
insert_run r = do
  rows ← reads (λ s. s.runs)
  reject_if (has_row run_key r.run_id rows) (conflict "run already exists")
  reject_if
      (any (λ (x : Run). x.display_id is r.display_id) rows
        || reference_missing run_key r.source_run_id rows)
      integrity
  writes λ s. (tt, record s { runs = s.runs ++ run_row r ∷ [] })

-- The columns that UPDATE runs sets.
abbrev pub updated_columns : Run → Run → Run
updated_columns r old = record old {
  lifecycle = r.lifecycle;
  outcome = r.outcome;
  environment_health = r.environment_health;
  configuration_hash = r.configuration_hash;
  resolved_config = r.resolved_config;
  started_at = r.started_at;
  completed_at = r.completed_at;
  failure_class = r.failure_class;
  failure_reason = r.failure_reason;
  execution_pid = r.execution_pid;
}

unfoldable pub update_run : Run → Action (Unit {0})
update_run r = do
  rows ← reads (λ s. s.runs)
  reject_if (not (has_row run_key r.run_id rows)) (conflict "run does not exist")
  writes λ s. (tt, record s { runs = update_rows run_key r.run_id (updated_columns r) s.runs })

-- `ORDER BY number`.
unfoldable pub insert_numbered : Attempt → List Attempt → List Attempt
insert_numbered a [] = a ∷ []
insert_numbered a (b ∷ rest) =
    let later = insert_numbered a rest in if leb a.number b.number then a ∷ b ∷ rest else b ∷ later

unfoldable pub by_number : List Attempt → List Attempt
unfolding insert_numbered
by_number [] = []
by_number (a ∷ rest) = insert_numbered a (by_number rest)

unfoldable pub attempts_of : String → List Attempt → List Attempt
unfolding by_number
attempts_of run_id rows = by_number (filter (λ (a : Attempt). a.run_id is run_id) rows)

unfoldable pub get_attempt : String → Action (Option Attempt)
get_attempt attempt_id = reads (λ s. find_row attempt_key attempt_id s.attempts)

unfoldable pub list_attempts : String → Action (List Attempt)
list_attempts run_id = reads (λ s. attempts_of run_id s.attempts)

abbrev pub attempt_row : Attempt → Attempt
attempt_row a = record a { results = [] }

-- UNIQUE(run_id, number).
abbrev pub takes_number : Attempt → Attempt → Bool
takes_number a b = b.run_id is a.run_id && b.number == a.number

unfoldable pub insert_attempt : Attempt → Action (Unit {0})
insert_attempt a = do
  rows ← reads (λ s. s.attempts)
  runs ← reads (λ s. s.runs)
  reject_if (has_row attempt_key a.attempt_id rows) (conflict "attempt already exists")
  reject_if (any (takes_number a) rows || not (has_row run_key a.run_id runs)) integrity
  writes λ s. (tt, record s { attempts = s.attempts ++ attempt_row a ∷ [] })

abbrev pub attempt_times : Attempt → Attempt → Attempt
attempt_times a old = record old { started_at = a.started_at; completed_at = a.completed_at }

unfoldable pub update_attempt : Attempt → Action (Unit {0})
update_attempt a = do
  rows ← reads (λ s. s.attempts)
  reject_if (not (has_row attempt_key a.attempt_id rows)) (conflict "attempt does not exist")
  writes λ s. (
    tt,
    record s { attempts = update_rows attempt_key a.attempt_id (attempt_times a) s.attempts },
  )

-- SQLiteEventRepository.append.
unfoldable pub append_event : LifecycleEvent → Action (Unit {0})
append_event e = do
  s ← reads (λ s. s)
  reject_if
      (has_row event_key e.event_id s.events
        || not (has_row run_key e.run_id s.runs)
        || reference_missing attempt_key e.attempt_id s.attempts)
      integrity
  writes λ s. (tt, record s { events = s.events ++ e ∷ [] })

-- The service does not read the order of the events, which is that of insertion here.
unfoldable pub list_events : String → Action (List LifecycleEvent)
list_events run_id = reads (λ s. filter (λ (e : LifecycleEvent). e.run_id is run_id) s.events)

-- The keys of the rows that a result has in the table of metrics.
abbrev pub metric_ids : TestResult → List String
metric_ids r = map (λ (m : Metric). text_append r.test_result_id (text_append ":" m.name)) r.metrics

abbrev pub has_metric : List TestResult → String → Bool
has_metric rows k = any (λ (r : TestResult). contains (metric_ids r) k) rows

-- SQLiteTestResultRepository.save_in_transaction; a metric's key is unique in its table. The keys of
-- samples are those of their metrics with a number, which is unique in the metric.
unfoldable pub insert_result : TestResult → Action (Unit {0})
insert_result r = do
  table ← reads (λ s. s.test_results)
  rows ← require integrity table
  s ← reads (λ s. s)
  reject_if (has_row result_key r.test_result_id rows) (conflict "test result already exists")
  reject_if
      (not (has_row run_key r.run_id s.runs)
        || not (has_row attempt_key r.attempt_id s.attempts)
        || not (distinct (metric_ids r))
        || any (has_metric rows) (metric_ids r))
      integrity
  writes λ s. (tt, record s { test_results = Option.map (λ xs. xs ++ r ∷ []) s.test_results })

-- SQLiteTestResultRepository._to_domain: the metrics of one result come in the order of their keys,
-- which is that of their names.
abbrev pub as_read : TestResult → TestResult
as_read r = record r { metrics = sort_by (λ (m : Metric). m.name) r.metrics }

unfoldable pub results_of : String → List TestResult → List TestResult
unfolding sort_by
results_of attempt_id rows =
    map as_read (sort_by result_key (filter (λ (r : TestResult). r.attempt_id is attempt_id) rows))

-- SQLiteRunRepository.save_initial_bundle; the tests of the bundle's shape come first.
abbrev pub bundle_events_match : Attempt → LifecycleEvent → LifecycleEvent → Bool
bundle_events_match attempt created started = elim created.attempt_id [
  | some _ ↦ false
  | none ↦ elim started.attempt_id [ none ↦ false | some k ↦ k is attempt.attempt_id ]
]

unfoldable pub save_initial_bundle :
    Run → Attempt → LifecycleEvent → LifecycleEvent → Action (Unit {0})
save_initial_bundle run attempt created started = transaction do
  reject_if (not (attempt.run_id is run.run_id))
      (conflict "initial Attempt must belong to the new Run")
  reject_if (not (attempt.number == 1)) (conflict "initial Attempt number must be 1")
  reject_if (not (created.event_type is "RUN_CREATED" && started.event_type is "ATTEMPT_CREATED"))
      (conflict "initial Run creation requires RUN_CREATED and ATTEMPT_CREATED events")
  reject_if (not (created.run_id is run.run_id && started.run_id is run.run_id))
      (conflict "initial lifecycle events must belong to the new Run")
  reject_if (not (bundle_events_match attempt created started))
      (conflict "initial lifecycle events have invalid Attempt ownership")
  insert_run run
  insert_attempt attempt
  append_event created
  append_event started
