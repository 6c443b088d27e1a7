-- ===== src/Examples.antt =====
-- Concrete inputs for the theorems: small tables, Runs, queues and reports.
mod Data
mod RunExamples
mod BaselineExamples
mod SyncExamples
mod ReleaseExamples
mod RegressionExamples
mod AccessExamples
mod LockExamples
mod OrchestratorExamples
mod ConfigurationExamples
