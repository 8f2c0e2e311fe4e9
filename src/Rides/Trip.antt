-- ===== src/Rides/Trip.antt =====
-- A driver takes a ride and drives it: accept, arrive, start; and cancelling.
use arkride_backend.Common.{
  ℕ, Bool, true, false, not, ◌&&◌, ◌||◌, Option, none, some, String, ◌==◌, is_id, length, any, leb,
  if◌then◌else◌,
}
use arkride_backend.Platform.{ride_lock, active_ride, holder}
use arkride_backend.Entities.Rides.{
  Ride, RideStatus, shared, requested, accepted, arrived, in_progress, completed, cancelled,
  same_status,
}
use arkride_backend.Entities.Accounts.{Driver, Vehicle}
use arkride_backend.Rides.Matching.{
  same_category, vehicle_type_matches_category, is_exclusive_category, max_active_shared_rides,
}
use arkride_backend.Rides.Booking.{save_ride}
use arkride_backend.World.{
  World, Env, Action, return, found_or, throw_if, asks, emit, with_lock, set, del, ◌>>=◌, ◌>>◌,
  bad_request, not_found, forbidden, ride_locked, ride_not_found, ride_already_taken,
  driver_invalid_or_offline, vehicle_invalid, wrong_vehicle_type, on_exclusive_ride,
  no_other_rides_allowed, shared_limit_reached, access_denied, invalid_state, already_completed,
  cancel_denied, ride_accepted, ride_arrived, ride_started, ride_cancelled,
}

abbrev pub is_active_status : RideStatus → Bool
is_active_status accepted = true
is_active_status arrived = true
is_active_status in_progress = true
is_active_status _ = false

-- `where: { driverId, status: In([ACCEPTED, ARRIVED, IN_PROGRESS]) }`
abbrev pub is_active_for : ℕ → Ride → Bool
is_active_for driver ride = is_id ride.driver_id driver && is_active_status ride.status

abbrev can_drive : Option Driver → Bool
can_drive none = false
can_drive (some d) = d.is_active && d.is_online

abbrev is_own_vehicle : ℕ → Vehicle → Bool
is_own_vehicle driver v = v.driver_id == driver && v.is_active

abbrev pub is_exclusive : Ride → Bool
is_exclusive ride = is_exclusive_category ride.category

-- `!!reason`: the empty text is falsy.
abbrev is_given : Option String → Bool
is_given none = false
is_given (some String.[]) = false
is_given (some (String.◌∷◌ c s)) = true

abbrev pub is_some_and : Option ℕ → (ℕ → Bool) → Bool
is_some_and none p = false
is_some_and (some i) p = p i

abbrev pub accepted_ride : ℕ → ℕ → Ride → World → Ride
accepted_ride driver_id vehicle_id ride w = record ride {
  driver_id = some driver_id;
  vehicle_id = some vehicle_id;
  status = accepted;
  accepted_at = some w.now;
}

-- `cancellationReason || 'Cancelled by user'`
abbrev pub reason_or_default : Option String → Option String
reason_or_default reason = if is_given reason then reason else some "Cancelled by user"

module _ (e : Env) where
  unfoldable pub find_one : ℕ → Action Ride
  find_one id = do
    found_or (not_found ride_not_found) (← asks (λ w. e.rides.find_one id w.db.rides))

  -- Step 3b of `acceptRide`: the limits on the rides that the driver has.
  unfoldable pub check_limits : ℕ → Ride → Action (Unit {0})
  unfolding is_exclusive_category
  check_limits driver_id ride = do
    active ← asks (λ w. e.rides.find (is_active_for driver_id) w.db.rides)
    throw_if (any is_exclusive active) (bad_request on_exclusive_ride)
    throw_if (is_exclusive ride && leb 1 (length active)) (bad_request no_other_rides_allowed)
    throw_if (same_category ride.category shared && leb max_active_shared_rides (length active))
        (bad_request shared_limit_reached)

  -- Steps 2 and 3 of `acceptRide`: everything that is read before the ride is written.
  unfoldable pub check_accept : ℕ → ℕ → ℕ → Action Ride
  unfolding find_one vehicle_type_matches_category
  check_accept ride_id driver_id vehicle_id = do
    ride ← find_one ride_id
    throw_if (not (same_status ride.status requested)) (bad_request ride_already_taken)
    driver ← asks (λ w. e.drivers.find_one driver_id w.db.drivers)
    throw_if (not (can_drive driver)) (forbidden driver_invalid_or_offline)
    found ← asks (λ w. e.vehicles.find_one vehicle_id w.db.vehicles)
    vehicle ← found_or (bad_request vehicle_invalid) found
    throw_if (not (is_own_vehicle driver_id vehicle)) (bad_request vehicle_invalid)
    throw_if (not (vehicle_type_matches_category vehicle.type ride.category))
        (bad_request wrong_vehicle_type)
    check_limits driver_id ride
    return ride

  -- Step 4: the write, the active-ride pointer and the event.
  unfoldable pub commit_accept : ℕ → ℕ → Ride → Action Ride
  commit_accept driver_id vehicle_id ride = do
    saved ← asks (accepted_ride driver_id vehicle_id ride)
    save_ride e saved
    set e (active_ride driver_id) (holder ride.id) 21600
    emit (ride_accepted saved)
    return saved

  unfoldable pub accept_ride : ℕ → ℕ → ℕ → Action Ride
  accept_ride ride_id driver_id vehicle_id =
      with_lock e (ride_lock ride_id) (holder driver_id) 10 ride_locked
        (check_accept ride_id driver_id vehicle_id >>= commit_accept driver_id vehicle_id)

  unfoldable pub mark_arrived : ℕ → ℕ → Action Ride
  unfolding find_one
  mark_arrived ride_id driver_id = do
    ride ← find_one ride_id
    throw_if (not (is_id ride.driver_id driver_id)) (forbidden access_denied)
    throw_if (not (same_status ride.status accepted)) (bad_request invalid_state)
    let saved = record ride { status = arrived }
    save_ride e saved
    emit (ride_arrived saved)
    return saved

  unfoldable pub start_ride : ℕ → ℕ → Action Ride
  unfolding find_one
  start_ride ride_id driver_id = do
    ride ← find_one ride_id
    throw_if (not (is_id ride.driver_id driver_id)) (forbidden access_denied)
    throw_if (not (same_status ride.status arrived)) (bad_request invalid_state)
    saved ← asks (λ w. record ride { status = in_progress; started_at = some w.now })
    save_ride e saved
    emit (ride_started saved)
    return saved

  abbrev drop_pointer : Option ℕ → Action (Unit {0})
  drop_pointer none = return tt
  drop_pointer (some driver) = del e (active_ride driver)

  -- The two callers pass the rider's id or the driver's id, and not the other.
  unfoldable pub cancel_ride : ℕ → Option String → Option ℕ → Option ℕ → Action Ride
  unfolding find_one
  cancel_ride ride_id reason user_id driver_id = do
    ride ← find_one ride_id
    throw_if (same_status ride.status completed) (bad_request already_completed)
    throw_if
        (is_some_and user_id (λ u. not (ride.user_id == u) || same_status ride.status in_progress))
        (forbidden cancel_denied)
    throw_if (is_some_and driver_id (λ d. not (is_id ride.driver_id d) || not (is_given reason)))
        (forbidden cancel_denied)
    let saved = record ride { status = cancelled; cancellation_reason = reason_or_default reason }
    save_ride e saved
    drop_pointer saved.driver_id
    emit (ride_cancelled saved)
    return saved
