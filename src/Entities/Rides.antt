-- ===== src/Entities/Rides.antt =====
-- src/rides/entities/ride.entity.ts. Ids and dates are numbers that are only compared; coordinates
-- are numbers that are only compared and handed to the distance computation. Money columns hold
-- kobo and `distanceKm` hundredths of a kilometre, as `decimal(10,2)` does.
use arkride_backend.Common.{ℕ, Bool, true, false, Option, String}

pub data RideStatus : Type 0 where
  requested accepted arrived in_progress completed cancelled : RideStatus

pub data RideCategory : Type 0 where
  private shared okada car : RideCategory

pub data RideOriginChannel : Type 0 where
  app whatsapp voice : RideOriginChannel

pub record Location : Type 0 where
  pub address : String
  pub lat : ℕ
  pub lng : ℕ

pub record Ride : Type 0 where
  pub id : ℕ
  pub user_id : ℕ
  pub driver_id : Option ℕ
  pub vehicle_id : Option ℕ
  pub pickup : Location
  pub dropoff : Location
  pub distance_km : Option ℕ
  pub category : RideCategory
  pub estimated_fare : Option ℕ
  pub final_fare : Option ℕ
  pub status : RideStatus
  pub origin_channel : RideOriginChannel
  pub cancellation_reason : Option String
  pub requested_at : ℕ
  pub accepted_at : Option ℕ
  pub started_at : Option ℕ
  pub completed_at : Option ℕ

-- `status === other`
abbrev pub same_status : RideStatus → RideStatus → Bool
same_status requested requested = true
same_status accepted accepted = true
same_status arrived arrived = true
same_status in_progress in_progress = true
same_status completed completed = true
same_status cancelled cancelled = true
same_status _ _ = false
