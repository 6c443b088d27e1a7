-- ===== src/Domain.antt =====
-- The domain of the Runner: its statuses, its entities and the checks that an entity's constructor
-- makes (lib/domain/models.py, lib/domain/health.py, lib/domain/operations.py).
pub mod Status
pub mod Json
pub mod Entities
pub mod Validation
