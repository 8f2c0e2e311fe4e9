-- ===== src/DriverLocations.antt =====
-- `DriverLocationsService` (src/driver-locations/driver-locations.service.ts) and the checks of its
-- controller. A radius is in metres, and the text of a query parameter is what `Number` reads in it.
pub mod Privacy
use arkride_backend.Common.{
  ℕ, Bool, true, false, not, ◌&&◌, ◌||◌, Option, none, some, is_some, is_id, ◌==◌, leb,
  if◌then◌else◌,
}
use arkride_backend.Common.Text.{Text}
use arkride_backend.Platform.{Position, RedisValue, holder, active, driver_active, active_ride}
use arkride_backend.Entities.Accounts.{Role, same_role, Driver}
use arkride_backend.Entities.Rides.{Ride}
use arkride_backend.Ownership.{Principal}
use arkride_backend.Rides.Trip.{is_active_for}
use arkride_backend.World.{
  World, Event, driver_location_updated, Env, Action, return, found_or, throw_if, asks, modify,
  emit, set, del, ◌>>=◌, ◌>>◌, bad_request, not_found, forbidden, access_denied, driver_not_found,
  driver_offline, location_not_found,
}

pub record DriverLocation : Type 0 where
  pub driver : Option Driver
  pub position : Position

-- The answer of `getDriverLocation`: the first name, and no phone number.
pub record ShownLocation : Type 0 where
  pub id : ℕ
  pub name : Text
  pub position : Position

-- The ride that the active-ride pointer names.
abbrev pub pointed_ride : Option RedisValue → Option ℕ
pointed_ride (some (holder ride)) = some ride
pointed_ride _ = none

abbrev pub push_location : ℕ → Position → Option ℕ → Action (Unit {0})
push_location driver_id position none = return tt
push_location driver_id position (some ride_id) =
    emit (driver_location_updated driver_id ride_id position)

-- A ride that the rider watches: theirs, under way, with that driver.
abbrev pub is_watched : (user_id driver_id : ℕ) → Ride → Bool
is_watched user_id driver_id ride = ride.user_id == user_id && is_active_for driver_id ride

module _ (e : Env) where
  unfoldable pub update_location : ℕ → Position → Action Position
  update_location driver_id position = do
    driver ←
        found_or (not_found driver_not_found)
          (← asks (λ w. e.drivers.find_one driver_id w.db.drivers))
    throw_if (not driver.is_online) (bad_request driver_offline)
    modify (λ w. record w { positions = e.redis.geoadd driver_id position w.positions })
    set e (driver_active driver_id) active 300
    pointer ← asks (λ w. w.redis (active_ride driver_id))
    push_location driver_id position (pointed_ride pointer)
    return position

  unfoldable pub can_view_driver_location : Option Principal → ℕ → Action Bool
  can_view_driver_location none driver_id = return false
  can_view_driver_location (some p) driver_id =
      if same_role p.role Role.admin
      then return true
      else if same_role p.role Role.driver
      then return (p.id == driver_id)
      else asks (λ w. is_some (e.rides.find_where (is_watched p.id driver_id) w.db.rides))

  unfoldable pub remove_location : ℕ → Action (Unit {0})
  remove_location driver_id = do
    modify (λ w. record w { positions = e.redis.zrem driver_id w.positions })
    del e (driver_active driver_id)

  unfoldable pub find_by_driver_id : ℕ → Action DriverLocation
  find_by_driver_id driver_id = do
    position ← found_or (not_found location_not_found) (← asks (λ w. w.positions driver_id))
    driver ← asks (λ w. e.drivers.find_one driver_id w.db.drivers)
    return (record { driver = driver; position = position })

  -- The controller's handler, with the function that takes the first name out of a full one.
  unfoldable pub get_driver_location : (Text → Text) → Option Principal → ℕ → Action ShownLocation
  unfolding can_view_driver_location find_by_driver_id
  get_driver_location first_name_of principal driver_id = do
    allowed ← can_view_driver_location principal driver_id
    throw_if (not allowed) (forbidden access_denied)
    location ← find_by_driver_id driver_id
    driver ← found_or (not_found driver_not_found) location.driver
    return
        (record { id = driver.id; name = first_name_of driver.name; position = location.position })

-- What `Number` reads in a query parameter.
pub data QueryNumber : Type 0 where
  absent not_finite negative : QueryNumber
  finite : ℕ → QueryNumber

abbrev pub default_nearby_radius : ℕ
default_nearby_radius = 10_000

abbrev pub max_nearby_radius : ℕ
max_nearby_radius = 50_000

unfoldable pub clamp_radius : QueryNumber → ℕ
clamp_radius (finite r) =
    if r == 0
    then default_nearby_radius
    else if leb r max_nearby_radius
    then r
    else max_nearby_radius
clamp_radius _ = default_nearby_radius
