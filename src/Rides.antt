-- ===== src/Rides.antt =====
-- `RidesService` (src/rides/rides.service.ts).
pub mod Matching
pub mod Booking
pub mod Trip
pub mod Settlement
pub mod Breakdown
pub mod Workload
pub mod Lifecycle
pub mod Requests
pub mod Endpoints
