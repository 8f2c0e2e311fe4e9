-- ===== src/Entities.antt =====
-- The rows of the database tables. Where two types share a constructor's name (`RideStatus` and
-- `LedgerEntryStatus`, `Role` and `StakeholderType`), it is written behind its type.
pub mod Rides
pub mod Accounts
pub mod LedgerEntries
pub mod Tokens
pub mod Safety
