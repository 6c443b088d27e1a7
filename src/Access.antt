-- ===== src/Access.antt =====
-- Who may ask the API for what, and how often: lib/security/auth.py and lib/services/api_security.py.
pub mod Idempotency
pub mod Replay
pub mod LoginLimit
pub mod Attempts
pub mod Window
pub mod Auth
pub mod Users
pub mod Granted
