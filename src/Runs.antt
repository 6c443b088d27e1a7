-- ===== src/Runs.antt =====
-- The Run service (lib/services/run_service.py) over its repositories (lib/repositories/sqlite.py).
-- The definitions stand in the modules below, and what is proved of them in `Runs.Proofs`.
pub mod Store
pub mod Repositories
pub mod Lifecycle
pub mod Outcome
pub mod Health
pub mod Endings
pub mod Redaction
pub mod Creation
pub mod Advance
pub mod Promotion
pub mod Judgement
pub mod Latest
pub mod Selected
pub mod Derived
pub mod Consistency
pub mod History
pub mod Gains
pub mod Created
pub mod Redacted
pub mod Service
