-- ===== src/Sample.antt =====
-- Concrete services and small databases: the assumptions can be met, and the theorems run.
pub mod Table
pub mod Services
pub mod Tokens
pub mod Privy
pub mod Channels
pub mod Secrets
pub mod Accounts
pub mod Data
