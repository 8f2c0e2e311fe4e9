-- ===== src/Vehicles.antt =====
-- `VehiclesService` (src/vehicles/vehicles.service.ts).
pub mod Endpoints
pub mod Own
pub mod Plates
pub mod Retired
use arkride_backend.Common.{
  ℕ, Bool, true, false, not, ◌&&◌, Option, none, some, is_some, is_id, get_or, ◌==◌, List, map,
  if◌then◌else◌, ◌||◌,
}
use arkride_backend.Common.Int.{ℤ}
use arkride_backend.Common.Text.{Text, is_blank}
use arkride_backend.Entities.Accounts.{Role, Driver, Vehicle, VehicleType, VerificationStatus}
use arkride_backend.Drivers.{get_driver}
use arkride_backend.World.{
  World, Env, Action, return, found_or, throw_if, asks, modify_db, ◌>>=◌, ◌>>◌, not_found,
  bad_request, conflict, query_failed, vehicle_not_found, driver_inactive, plate_taken,
}

-- An optional field of a request: `@IsOptional` lets a null pass as well.
pub data Sent (A : Type 0) : Type 0 where
  unsent null : Sent A
  sent : A → Sent A

abbrev pub value_of : {A : Type 0} → Sent A → Option A
value_of unsent = none
value_of null = none
value_of (sent a) = some a

abbrev pub is_null : {A : Type 0} → Sent A → Bool
is_null null = true
is_null _ = false

-- src/vehicles/dto/create-vehicle.dto.ts
pub record CreateVehicleDto : Type 0 where
  pub driver_id : Sent ℕ
  pub type : VehicleType
  pub plate_number : Text
  pub color : Text
  pub model : Text
  pub year : ℕ

-- src/vehicles/dto/update-vehicle.dto.ts; a field that is not sent stays, a null is assigned.
pub record UpdateVehicleDto : Type 0 where
  pub type : Sent VehicleType
  pub plate_number : Sent Text
  pub color : Sent Text
  pub model : Sent Text
  pub year : Sent ℕ
  pub is_active : Sent Bool

-- A driver less the credential: `const { password, otpCode, otpExpiry, ...rest } = vehicle.driver`.
pub record DriverCard : Type 0 where
  pub id : ℕ
  pub name : Text
  pub phone : Text
  pub email : Text
  pub license_number : Text
  pub license_expiry : ℕ
  pub role : Role
  pub verification_status : VerificationStatus
  pub is_online : Bool
  pub is_active : Bool
  pub rating_average : ℕ
  pub total_completed_rides : ℕ
  pub wallet_balance : ℤ
  pub privy_did : Option Text
  pub wallet_address_evm : Option Text

-- A vehicle with its relation `driver`, where that was loaded.
pub record LoadedVehicle : Type 0 where
  pub vehicle : Vehicle
  pub driver : Option Driver

pub record ShownVehicle : Type 0 where
  pub vehicle : Vehicle
  pub driver : Option DriverCard

abbrev pub card : Driver → DriverCard
card d = record {
  id = d.id;
  name = d.name;
  phone = d.phone;
  email = d.email;
  license_number = d.license_number;
  license_expiry = d.license_expiry;
  role = d.role;
  verification_status = d.verification_status;
  is_online = d.is_online;
  is_active = d.is_active;
  rating_average = d.rating_average;
  total_completed_rides = d.total_completed_rides;
  wallet_balance = d.wallet_balance;
  privy_did = d.privy_did;
  wallet_address_evm = d.wallet_address_evm;
}

abbrev sanitized_driver : Option Driver → Option DriverCard
sanitized_driver none = none
sanitized_driver (some d) = some (card d)

unfoldable pub sanitize_vehicle : LoadedVehicle → ShownVehicle
sanitize_vehicle v = record { vehicle = v.vehicle; driver = sanitized_driver v.driver }

abbrev pub new_vehicle : ℕ → CreateVehicleDto → ℕ → Vehicle
new_vehicle driver_id dto id = record {
  id = id;
  driver_id = driver_id;
  type = dto.type;
  plate_number = dto.plate_number;
  color = dto.color;
  model = dto.model;
  year = dto.year;
  is_active = true;
}

-- Whether the columns, none of which takes a null, refuse what is assigned.
abbrev pub has_null : UpdateVehicleDto → Bool
has_null dto =
    is_null dto.type
    || (is_null dto.plate_number
        || (is_null dto.color
            || (is_null dto.model || (is_null dto.year || is_null dto.is_active))))

-- `Object.assign(vehicle, updateVehicleDto)`, where no null is sent.
abbrev pub assign : UpdateVehicleDto → Vehicle → Vehicle
assign dto v = record v {
  type = get_or (value_of dto.type) v.type;
  plate_number = get_or (value_of dto.plate_number) v.plate_number;
  color = get_or (value_of dto.color) v.color;
  model = get_or (value_of dto.model) v.model;
  year = get_or (value_of dto.year) v.year;
  is_active = get_or (value_of dto.is_active) v.is_active;
}

-- `given && given !== current`
abbrev pub is_changed : Option Text → Text → Bool
is_changed none current = false
is_changed (some given) current = not (is_blank given) && not (given == current)

-- Another row with the plate number, which is unique.
abbrev pub clashes : Vehicle → Vehicle → Bool
clashes v other = not (other.id == v.id) && other.plate_number == v.plate_number

module _ (e : Env) where
  abbrev pub load_driver : Vehicle → World → LoadedVehicle
  load_driver v w = record { vehicle = v; driver = e.drivers.find_one v.driver_id w.db.drivers }

  abbrev pub get_vehicle : ℕ → Action Vehicle
  get_vehicle id = do
    found_or (not_found vehicle_not_found) (← asks (λ w. e.vehicles.find_one id w.db.vehicles))

  -- `vehicleRepository.save(vehicle)`, which the unique column may refuse.
  abbrev pub store_vehicle : Vehicle → Action (Unit {0})
  store_vehicle v = do
    clash ← asks (λ w. e.vehicles.find_where (clashes v) w.db.vehicles)
    throw_if (is_some clash) query_failed
    modify_db (λ db. record db { vehicles = e.vehicles.save v db.vehicles })

  abbrev pub shown : Vehicle → Action ShownVehicle
  shown v = asks (λ w. sanitize_vehicle (load_driver v w))

  unfoldable pub find_one : ℕ → Action ShownVehicle
  unfolding sanitize_vehicle
  find_one id = do vehicle ← get_vehicle id; shown vehicle

  unfoldable pub find_all : Action (List ShownVehicle)
  unfolding sanitize_vehicle
  find_all = asks (λ w.
      map (λ v. sanitize_vehicle (load_driver v w)) (e.vehicles.find (λ v. true) w.db.vehicles))

  unfoldable pub find_by_driver_id : ℕ → Action (List ShownVehicle)
  unfolding sanitize_vehicle
  find_by_driver_id driver_id = do
    driver ← get_driver e driver_id
    asks (λ w.
        map (λ v. sanitize_vehicle (load_driver v w))
          (e.vehicles.find (λ v. v.driver_id == driver_id) w.db.vehicles))

  unfoldable pub create : ℕ → CreateVehicleDto → Action ShownVehicle
  unfolding find_one
  create driver_id dto = do
    driver ← get_driver e driver_id
    throw_if (not driver.is_active) (bad_request driver_inactive)
    existing ←
        asks (λ w. e.vehicles.find_where (λ v. v.plate_number == dto.plate_number) w.db.vehicles)
    throw_if (is_some existing) (conflict plate_taken)
    vehicle ← asks (λ w. new_vehicle driver_id dto (e.vehicles.new_id w.db.vehicles))
    store_vehicle vehicle
    find_one vehicle.id

  unfoldable pub update : ℕ → UpdateVehicleDto → Action ShownVehicle
  unfolding sanitize_vehicle
  update id dto = do
    vehicle ← get_vehicle id
    existing ← asks (λ w.
        e.vehicles.find_where (λ v. is_id (value_of dto.plate_number) v.plate_number) w.db.vehicles)
    throw_if (is_changed (value_of dto.plate_number) vehicle.plate_number && is_some existing)
        (conflict plate_taken)
    throw_if (has_null dto) query_failed
    store_vehicle (assign dto vehicle)
    shown (assign dto vehicle)

  -- The foreign key of the rides is set to null.
  unfoldable pub remove : ℕ → Action (Unit {0})
  remove id = do
    vehicle ← get_vehicle id
    modify_db (λ db. record db {
      rides =
          e.rides.update_where (λ r. is_id r.vehicle_id vehicle.id)
            (λ r. record r { vehicle_id = none }) db.rides;
      vehicles = e.vehicles.remove vehicle db.vehicles;
    })

  abbrev pub with_active : Bool → Vehicle → Vehicle
  with_active is_active v = record v { is_active = is_active }

  unfoldable pub deactivate : ℕ → Action ShownVehicle
  unfolding sanitize_vehicle
  deactivate id = do
    vehicle ← get_vehicle id
    store_vehicle (with_active false vehicle)
    shown (with_active false vehicle)

  unfoldable pub activate : ℕ → Action ShownVehicle
  unfolding sanitize_vehicle
  activate id = do
    vehicle ← get_vehicle id
    store_vehicle (with_active true vehicle)
    shown (with_active true vehicle)
