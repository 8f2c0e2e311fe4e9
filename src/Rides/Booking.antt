-- ===== src/Rides/Booking.antt =====
-- Estimating and booking a ride.
use arkride_backend.Common.{ℕ, ◌+◌, ◌*◌, not, Option, none, some, List, [], ◌∷◌, get_or}
use arkride_backend.Money.{fare_to_kobo}
use arkride_backend.Platform.{RedisKey, ride_idempotency, locked}
use arkride_backend.Entities.Rides.{
  Ride, Location, RideCategory, private, shared, okada, car, RideOriginChannel, app, requested,
}
use arkride_backend.World.{
  World, Env, Action, return, found_or, throw_if, asks, modify_db, emit, on_throw, set_nx, release,
  ◌>>=◌, ◌>>◌, bad_request, not_found, forbidden, similar_request_in_progress, user_not_found,
  account_blocked, ride_requested,
}

-- src/rides/dto/create-ride.dto.ts, with the `userId` that the controller fills in.
pub record CreateRideDto : Type 0 where
  pub user_id : ℕ
  pub pickup : Location
  pub dropoff : Location
  pub category : RideCategory
  pub origin_channel : Option RideOriginChannel

-- The base fare and the price of a kilometre, in naira.
abbrev pub base_fare : RideCategory → ℕ
base_fare shared = 250
base_fare okada = 300
base_fare car = 1000
base_fare private = 500

abbrev pub per_km : RideCategory → ℕ
per_km shared = 50
per_km okada = 70
per_km car = 200
per_km private = 100

-- `Math.round((base + distance * perKm) * 100) / 100` as a number of kobo, which the column stores.
-- The sum is in thousandths of a naira; the distance is in hundredths of a kilometre.
unfoldable pub calculate_fare : ℕ → RideCategory → ℕ
unfolding fare_to_kobo
calculate_fare distance category =
    fare_to_kobo (base_fare category * 1000 + distance * (per_km category * 10))

pub record RideOption : Type 0 where
  pub category : RideCategory
  pub estimated_fare : ℕ
  pub distance_km : ℕ

module _ (e : Env) where
  abbrev ride_option : ℕ → RideCategory → RideOption
  ride_option distance category = record {
    category = category;
    estimated_fare = calculate_fare distance category;
    distance_km = distance;
  }

  unfoldable pub estimate_ride : Location → Location → List RideOption
  unfolding calculate_fare
  estimate_ride pickup dropoff =
      let distance = e.distance pickup dropoff in
      ride_option distance private
      ∷ ride_option distance shared
      ∷ ride_option distance okada
      ∷ ride_option distance car
      ∷ []

  abbrev pub new_ride : CreateRideDto → World → Ride
  new_ride dto w =
      let distance = e.distance dto.pickup dto.dropoff in
      record {
        id = e.rides.new_id w.db.rides;
        user_id = dto.user_id;
        driver_id = none;
        vehicle_id = none;
        pickup = dto.pickup;
        dropoff = dto.dropoff;
        distance_km = some distance;
        category = dto.category;
        estimated_fare = some (calculate_fare distance dto.category);
        final_fare = none;
        status = requested;
        origin_channel = get_or dto.origin_channel app;
        cancellation_reason = none;
        requested_at = w.now;
        accepted_at = none;
        started_at = none;
        completed_at = none;
      }

  abbrev pub save_ride : Ride → Action (Unit {0})
  save_ride ride = modify_db (λ db. record db { rides = e.rides.save ride db.rides })

  abbrev pub idempotency_key : CreateRideDto → RedisKey
  idempotency_key dto = ride_idempotency dto.user_id dto.pickup.lat dto.pickup.lng

  -- The body of the `try`.
  unfoldable pub book : CreateRideDto → Action Ride
  book dto = do
    user ←
        found_or (not_found user_not_found) (← asks (λ w. e.users.find_one dto.user_id w.db.users))
    throw_if user.is_blocked (forbidden account_blocked)
    ride ← asks (new_ride dto)
    save_ride ride
    emit (ride_requested ride)
    return ride

  unfoldable pub create_ride : CreateRideDto → Action Ride
  unfolding book
  create_ride dto = do
    fresh ← set_nx e (idempotency_key dto) locked 30
    throw_if (not fresh) (bad_request similar_request_in_progress)
    on_throw (book dto) (release e (idempotency_key dto))
