-- ===== src/Auth.antt =====
-- app/services/auth_service.py, with the models and the repositories that it uses. The tables are
-- lists of rows; the mail that is sent is a list beside them, which no rollback reaches.
pub mod Security
pub mod Store
pub mod Service
pub mod Sessions
pub mod Links
pub mod Resets
pub mod Accounts
