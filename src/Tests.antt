-- ===== src/Tests.antt =====
-- The theorems at concrete inputs, each about the sample services and databases.
pub mod Money
pub mod Rides
pub mod Settlement
pub mod Wallet
pub mod Auth
pub mod Drivers
pub mod Accounts
pub mod Safety
pub mod Privy
pub mod Vehicles
pub mod BookingChannels
pub mod Filters
