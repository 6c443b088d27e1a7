-- ===== src/Lib.antt =====
-- The verification library of wifi-validation-framework: a model of the core of its Python package
-- `lib`, and what is proved of it.
--
-- The program runs pytest suites against a Wi-Fi device in a laboratory and records what came of
-- them. The Run service moves a Run through its life cycle and derives its outcome from the
-- persisted test results; the repositories store Runs, attempts, results, events and baselines in
-- SQLite; a Run that is good enough becomes a baseline; the regression service compares a Run with
-- one; the release gate decides on a release from all of these; and the synchronisation service
-- delivers Runs to the cloud through a queue in the same database. The orchestrator prepares a Run
-- under locks on the laboratory and the device, and finalises it; the API lets users in, limits
-- login attempts and answers repeated requests from a table of idempotency keys.
--
-- Parts, and the code that they model:
--   Domain        lib/domain/models.py, health.py and operations.py: enumerations (Domain.Status),
--                 entities (Domain.Entities), the checks of their constructors (Domain.Validation)
--                 and configuration values (Domain.Json).
--   Statistics    lib/domain/statistics.py: measurement policies (MeasurementPolicyEvaluator).
--   Registry      lib/services/test_registry.py: TestRegistry.
--   Runs          lib/services/run_service.py over lib/repositories/sqlite.py. The object with its
--                 tables is the record RunService (Runs.Store). Runs.Repositories has the
--                 repositories' methods, Runs.Lifecycle transition, _finish, _require_run and _event,
--                 Runs.Outcome derive_business_outcome, Runs.Health the health check and the start,
--                 Runs.Endings the ends of a Run, Runs.Redaction redact_configuration, Runs.Creation
--                 create_run, create_attempt and record_test_result, Runs.Promotion
--                 promote_baseline. Runs.Service is a client that makes a sequence of calls.
--                 Runs.Latest says which results the latest attempt has and Runs.Selected what a map of
--                 the selected tests to results is, for Runs.Judgement and Runs.Derived, on the derived
--                 outcome. The other proofs stand in Runs.Advance, Runs.Consistency, Runs.History,
--                 Runs.Gains, Runs.Created and Runs.Redacted.
--   Baselines     SQLiteBaselineRepository of lib/repositories/sqlite.py.
--   Sync          lib/domain/sync.py, SQLiteSyncQueueRepository of lib/repositories/sqlite.py
--                 (Sync.Queue) and lib/services/sync_service.py (Sync.Service). Sync.Rounds says what one
--                 envelope's delivery does to the rows.
--   Release       lib/services/release_gate.py, with the waivers of lib/domain/operations.py.
--   Regression    lib/services/regression_intelligence.py and lib/domain/regression.py. Regression.Suites
--                 has when two suites agree, by the lemmas of Prelude.Sorting.
--   Reports       lib/services/pytest_result_mapping.py; Reports.Reasons says when there is a reason.
--   Locks         lib/services/resource_lock.py: ResourceLease and the machine under it (Locks), and
--                 acquire, acquire_many and ResourceLeaseGroup (Locks.Requests). Locks.Exclusion has
--                 the invariant and what one process may rely on; the other modules are proofs.
--   Configuration lib/services/configuration.py: ConfigurationResolver.resolve. Configuration.Paths has
--                 the rule for one path that the merging stands for.
--   Orchestrator  lib/services/run_orchestrator.py, on the state of Runs and of Locks together, with the
--                 configuration that the layers give. Orchestrator.Resources says which resources a
--                 request needs.
--   Access        lib/security/auth.py (Access.Auth) and, of lib/services/api_security.py,
--                 IdempotencyStore (Access.Idempotency) and LoginRateLimiter (Access.LoginLimit).
--                 Access.Window has the rule that the limiter stands for.
--   Prelude       what all of these share; Prelude.Exec is the monad of methods.
--   Examples      concrete inputs for the theorems.
--
-- A method of a service is a function from a state to a result, a value or an exception, and a
-- state: what a method wrote before it raised stays written, except in a database transaction, which
-- gives the tables back as they were. Theorems on all methods are preorders on states that each
-- method respects (Prelude.Exec.Respects).
--
-- Numbers: a time is a count of microseconds on natural numbers without a bound, as are attempt
-- numbers and counters, which are unbounded integers in the source. A float is its 64 bits; its
-- arithmetic is a parameter (FloatOps, DeltaOps). The loops of the source that are modelled run over
-- lists, but for the waiting loop of a lock's acquisition, which runs on fuel: the number of pauses of
-- 50 ms that fit into the wait, and two more. That is enough where the clock does not fall while the
-- others run (Locks.Waiting).
--
-- Locks: the machine has the table of `flock`, the open files with the processes that opened them,
-- the leases, the texts of the lock files, and the failures of the system calls to come. Within a
-- pause the other processes do what a parameter says; where a theorem needs it, they are calm: they
-- leave the leases of this process alone and the machine sound, as their releases do
-- (Locks.Releases.release-Steady).
--
-- Parameters: the clock, identifiers, digests and the printing of values are fields of a host
-- (Runs.Store.Host, Sync.Service.Host); the n-th call of one gives its n-th value. The transport of
-- the queue is a field of the second. The parser of JSON, the case of texts and the check of a password
-- are the fields of Access.Auth.AuthHost; the lock file of a resource is an argument of Locks; the
-- digest of a configuration is one of Configuration; what the launcher check and the fingerprint
-- answered is the record Orchestrator.Answers. Nothing is assumed of them. Exception messages are kept
-- without the values that the source writes into them.
--
-- Not modelled: the subprocess of a Run, laboratory health probes and controller, command execution,
-- fault injection, telemetry, protocol evidence, firmware
-- transfers, device adapters, the dashboard and the frontend, scripts and schema migrations; of the
-- modelled files, artifacts and snapshots, the built-in test definitions, the dimensions of a
-- regression assessment, the building of a delivery payload, and CSRF tokens, headers, endpoints and
-- confined paths. Concurrent processes on one database are not modelled: a method is one step, but
-- for the connections of an idempotency record's `put`, which are in order.
pub mod Prelude
pub mod Domain
pub mod Statistics
pub mod Registry
pub mod Runs
pub mod Baselines
pub mod Sync
pub mod Locks
pub mod Configuration
pub mod Orchestrator
pub mod Release
pub mod Access
pub mod Reports
pub mod Regression
pub mod Examples
