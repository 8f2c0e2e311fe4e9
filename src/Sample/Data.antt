-- ===== src/Sample/Data.antt =====
-- A rider, a driver with two kekes, five rides and a token family.
use arkride_backend.Common.{ℕ, ◌+◌, true, false, Option, some, none, List, [], ◌∷◌}
use arkride_backend.Common.Int.{pos}
use arkride_backend.Entities.Rides.{Ride, RideStatus, RideCategory, Location, app}
use arkride_backend.Entities.Accounts.{Role, User, Driver, Vehicle, keke, approved}
use arkride_backend.Entities.Tokens.{RefreshToken, RevokedReason, rotated}
use arkride_backend.Auth.Tokens.{SessionSubject}
use arkride_backend.World.{World}

abbrev pub market : Location
market = record { address = "market"; lat = 10; lng = 20 }

abbrev pub rider : User
rider = record {
  id = 1;
  name = 11;
  email = 101;
  phone = some 201;
  password = some 301;
  provider = none;
  provider_id = none;
  privy_did = none;
  wallet_address_evm = none;
  wallet_address_solana = none;
  wallet_address_tron = none;
  otp_code = none;
  otp_expiry = none;
  is_verified = true;
  role = Role.user;
  rating_average = 0;
  total_rides = 0;
  cashback_balance = pos 0;
  is_blocked = false;
}

abbrev pub chauffeur : Driver
chauffeur = record {
  id = 2;
  name = 12;
  phone = 202;
  email = 102;
  password = some 302;
  license_number = 402;
  license_expiry = 900;
  role = Role.driver;
  verification_status = approved;
  is_online = true;
  is_active = true;
  rating_average = 0;
  total_completed_rides = 0;
  wallet_balance = pos 100000;
  privy_did = none;
  wallet_address_evm = none;
  otp_code = none;
  otp_expiry = none;
}

abbrev pub blue_keke : Vehicle
blue_keke = record {
  id = 3;
  driver_id = 2;
  type = keke;
  plate_number = 501;
  color = 1;
  model = 1;
  year = 2020;
  is_active = true;
}

abbrev pub ride_of : ℕ → Option ℕ → RideCategory → RideStatus → Ride
ride_of id driver_id category status = record {
  id = id;
  user_id = 1;
  driver_id = driver_id;
  vehicle_id = none;
  pickup = market;
  dropoff = market;
  distance_km = some 300;
  category = category;
  estimated_fare = some 80000;
  final_fare = none;
  status = status;
  origin_channel = app;
  cancellation_reason = none;
  requested_at = 40;
  accepted_at = none;
  started_at = none;
  completed_at = none;
}

abbrev pub private_request : Ride
private_request = ride_of 5 none RideCategory.private RideStatus.requested

abbrev pub shared_request : Ride
shared_request = ride_of 6 none RideCategory.shared RideStatus.requested

abbrev pub running : Ride
running = ride_of 7 (some 2) RideCategory.private RideStatus.in_progress

abbrev pub finished : Ride
finished = ride_of 8 (some 2) RideCategory.private RideStatus.completed

abbrev pub world_of : List Ride → List RefreshToken → World
world_of rides tokens = record {
  db = record {
    users = rider ∷ [];
    drivers = chauffeur ∷ [];
    vehicles = blue_keke ∷ [];
    rides = rides;
    ledger = [];
    refresh_tokens = tokens;
    ratings = [];
    incidents = [];
  };
  redis = λ k. none;
  positions = λ d. none;
  events = [];
  webhooks = [];
  now = 50;
}

-- The driver is free, or drives.
abbrev pub idle : World
idle = world_of (private_request ∷ shared_request ∷ finished ∷ []) []

abbrev pub driving : World
driving = world_of (running ∷ []) []

-- A token that was exchanged, its live successor, and somebody's session on top.
abbrev pub token_of : ℕ → Option ℕ → Option RevokedReason → RefreshToken
token_of id revoked_at reason = record {
  id = id;
  token_hash = id + 1000;
  family_id = 9;
  subject_id = 1;
  subject_type = Role.user;
  expires_at = 90;
  revoked_at = revoked_at;
  revoked_reason = reason;
}

abbrev pub old_token : RefreshToken
old_token = token_of 1 (some 45) (some rotated)

abbrev pub new_token : RefreshToken
new_token = token_of 2 none none

abbrev pub signed_in : World
signed_in = world_of [] (old_token ∷ new_token ∷ [])

abbrev pub subject : SessionSubject
subject = record { id = 1; role = Role.user; is_driver = false }
