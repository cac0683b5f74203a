-- ===== src/Tests.antt =====
-- Concrete inputs, and the theorems applied at them.
mod Inputs
mod Chunks
mod Search
mod Limits
mod Accounts
mod Files
mod Calls
mod Caching
mod Guards
mod Talks
mod Evaluations
mod Admins
mod Vectors
mod Pages
