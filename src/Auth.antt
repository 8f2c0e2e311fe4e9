-- ===== src/Auth.antt =====
-- Sessions and secrets (src/auth).
pub mod Tokens
pub mod Secrets
pub mod Sessions
pub mod Accounts
pub mod Privy
