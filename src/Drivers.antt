-- ===== src/Drivers.antt =====
-- `DriversService` (src/drivers/drivers.service.ts), whose methods stand in the children.
pub mod Registration
pub mod Profile
pub mod Standing
pub mod Password
pub mod Requests
use arkride_backend.Common.{
  ℕ, Bool, true, false, not, ◌&&◌, ◌||◌, Option, none, some, is_some, ◌==◌, if◌then◌else◌,
}
use arkride_backend.Common.Int.{ℤ}
use arkride_backend.Common.Text.{Text}
use arkride_backend.Entities.Accounts.{Role, Driver, VerificationStatus, Code}
use arkride_backend.World.{
  World, Env, Action, return, found_or, throw_if, asks, modify_db, ◌>>=◌, ◌>>◌, not_found,
  query_failed, driver_not_found,
}

-- A driver as the service answers: `const { password, ...sanitized } = driver`.
pub record SanitizedDriver : Type 0 where
  pub id : ℕ
  pub name : Text
  pub phone : Text
  pub email : Text
  pub license_number : Text
  pub license_expiry : ℕ
  pub role : Role
  pub verification_status : VerificationStatus
  pub is_online : Bool
  pub is_active : Bool
  pub rating_average : ℕ
  pub total_completed_rides : ℕ
  pub wallet_balance : ℤ
  pub privy_did : Option Text
  pub wallet_address_evm : Option Text
  pub otp_code : Option Code
  pub otp_expiry : Option ℕ

unfoldable pub sanitize_driver : Driver → SanitizedDriver
sanitize_driver d = record {
  id = d.id;
  name = d.name;
  phone = d.phone;
  email = d.email;
  license_number = d.license_number;
  license_expiry = d.license_expiry;
  role = d.role;
  verification_status = d.verification_status;
  is_online = d.is_online;
  is_active = d.is_active;
  rating_average = d.rating_average;
  total_completed_rides = d.total_completed_rides;
  wallet_balance = d.wallet_balance;
  privy_did = d.privy_did;
  wallet_address_evm = d.wallet_address_evm;
  otp_code = d.otp_code;
  otp_expiry = d.otp_expiry;
}

-- Two optional texts that are both there and equal.
abbrev pub same_given : Option Text → Option Text → Bool
same_given (some a) (some b) = a == b
same_given _ _ = false

-- Another row with a value that one of the unique columns of `drivers` may hold once.
abbrev pub clashes : Driver → Driver → Bool
clashes d other =
    not (other.id == d.id)
    && (other.phone == d.phone
        || (other.email == d.email
            || (other.license_number == d.license_number
                || same_given other.privy_did d.privy_did)))

module _ (e : Env) where
  abbrev pub get_driver : ℕ → Action Driver
  get_driver id = do
    found_or (not_found driver_not_found) (← asks (λ w. e.drivers.find_one id w.db.drivers))

  -- `driversRepository.findOne({ where })`
  abbrev pub find_driver : (Driver → Bool) → Action (Option Driver)
  find_driver p = asks (λ w. e.drivers.find_where p w.db.drivers)

  -- `driversRepository.save(driver)`, which the unique columns may refuse.
  abbrev pub store_driver : Driver → Action (Unit {0})
  store_driver d = do
    clash ← find_driver (clashes d)
    throw_if (is_some clash) query_failed
    modify_db (λ db. record db { drivers = e.drivers.save d db.drivers })
