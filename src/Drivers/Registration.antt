-- ===== src/Drivers/Registration.antt =====
-- New drivers: `create` and `createFromPrivy`.
use arkride_backend.Common.{ℕ, true, false, Option, none, some, is_some, ◌==◌, leb, if◌then◌else◌}
use arkride_backend.Common.Int.{pos}
use arkride_backend.Common.Text.{Text, is_blank}
use arkride_backend.Entities.Accounts.{
  Role, Driver, Vehicle, VehicleType, VerificationStatus, pending, approved,
}
use arkride_backend.Auth.Tokens.{AuthEnv, SessionTokens, issue_session}
use arkride_backend.Auth.Secrets.{Secrets}
use arkride_backend.Drivers.{SanitizedDriver, sanitize_driver, find_driver, store_driver}
use arkride_backend.World.{
  Env, Action, return, throw_if, asks, modify_db, ◌>>=◌, ◌>>◌, bad_request, conflict, email_taken,
  phone_taken, license_taken, plate_taken, license_expired,
}

-- src/drivers/dto/create-driver.dto.ts; the expiry is a date, which validation demands.
pub record CreateDriverDto : Type 0 where
  pub name : Text
  pub phone : Text
  pub email : Text
  pub password : Text
  pub license_number : Text
  pub license_expiry : ℕ
  pub vehicle_type : VehicleType
  pub plate_number : Text
  pub vehicle_color : Text
  pub vehicle_model : Text
  pub vehicle_year : ℕ

abbrev pub new_driver :
    ℕ
    → CreateDriverDto
    → Text
    → Option Text
    → VerificationStatus
    → Option Text
    → Option Text
    → Driver
new_driver id dto email password status did wallet = record {
  id = id;
  name = dto.name;
  phone = dto.phone;
  email = email;
  password = password;
  license_number = dto.license_number;
  license_expiry = dto.license_expiry;
  role = Role.driver;
  verification_status = status;
  is_online = false;
  is_active = true;
  rating_average = 0;
  total_completed_rides = 0;
  wallet_balance = pos 0;
  privy_did = did;
  wallet_address_evm = wallet;
  otp_code = none;
  otp_expiry = none;
}

abbrev pub new_vehicle : ℕ → ℕ → CreateDriverDto → Vehicle
new_vehicle id driver_id dto = record {
  id = id;
  driver_id = driver_id;
  type = dto.vehicle_type;
  plate_number = dto.plate_number;
  color = dto.vehicle_color;
  model = dto.vehicle_model;
  year = dto.vehicle_year;
  is_active = true;
}

pub record Registered : Type 0 where
  pub driver : SanitizedDriver
  pub session : SessionTokens

module _ (e : Env) where
  -- The four lookups and the date, which both methods make in this order.
  unfoldable pub check_free : CreateDriverDto → Text → Action (Unit {0})
  check_free dto email = do
    by_email ← find_driver e (λ d. d.email == email)
    throw_if (is_some by_email) (conflict email_taken)
    by_phone ← find_driver e (λ d. d.phone == dto.phone)
    throw_if (is_some by_phone) (conflict phone_taken)
    by_license ← find_driver e (λ d. d.license_number == dto.license_number)
    throw_if (is_some by_license) (conflict license_taken)
    by_plate ←
        asks (λ w. e.vehicles.find_where (λ v. v.plate_number == dto.plate_number) w.db.vehicles)
    throw_if (is_some by_plate) (conflict plate_taken)
    now ← asks (λ w. w.now)
    throw_if (leb dto.license_expiry now) (bad_request license_expired)

  -- The two writes, which no transaction joins. The plate was just found free.
  unfoldable pub write_driver : CreateDriverDto → (ℕ → Driver) → Action Driver
  write_driver dto make = do
    driver ← asks (λ w. make (e.drivers.new_id w.db.drivers))
    store_driver e driver
    vehicle ← asks (λ w. new_vehicle (e.vehicles.new_id w.db.vehicles) driver.id dto)
    modify_db (λ db. record db { vehicles = e.vehicles.save vehicle db.vehicles })
    return driver

  unfoldable pub create : AuthEnv → Secrets → CreateDriverDto → Action Registered
  unfolding sanitize_driver
  create a s dto = do
    check_free dto dto.email
    hashed ← asks (λ w. s.hash w dto.password)
    driver ← write_driver dto (λ id. new_driver id dto dto.email (some hashed) pending none none)
    session ← issue_session a (record { id = driver.id; role = driver.role; is_driver = true })
    return (record { driver = sanitize_driver driver; session = session })

  -- `params.email || did + '@privy.arkrides.local'`; the placeholder is given by the identity.
  abbrev pub email_or : Option Text → Text → Text
  email_or none placeholder = placeholder
  email_or (some email) placeholder = if is_blank email then placeholder else email

  unfoldable pub create_from_privy :
      (did placeholder : Text) → Option Text → Option Text → CreateDriverDto → Action Driver
  create_from_privy did placeholder email wallet details = do
    let address = email_or email placeholder
    check_free details address
    write_driver details (λ id. new_driver id details address none approved (some did) wallet)
