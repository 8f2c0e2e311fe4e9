-- ===== src/Drivers/Standing.antt =====
-- Who may drive: going online, approval, suspension and deletion (`updateOnlineStatus`,
-- `updateVerificationStatus`, `updateActiveStatus`, `remove`).
pub mod Dispatch
pub mod Suspension
pub mod Deletion
use arkride_backend.Common.{
  ℕ, Bool, false, not, ◌&&◌, Option, none, some, is_id, ◌==◌, if◌then◌else◌,
}
use arkride_backend.Entities.Accounts.{Role, Driver, Vehicle, VerificationStatus, is_approved}
use arkride_backend.Auth.Tokens.{AuthEnv, revoke_all_for_subject}
use arkride_backend.Drivers.{SanitizedDriver, sanitize_driver, get_driver, store_driver}
use arkride_backend.World.{
  Db, Env, Action, return, throw_if, modify_db, ◌>>=◌, ◌>>◌, bad_request, not_approved, suspended,
}

module _ (e : Env) where
  unfoldable pub update_online_status : ℕ → Bool → Action SanitizedDriver
  unfolding sanitize_driver
  update_online_status id is_online = do
    driver ← get_driver e id
    throw_if (is_online && not (is_approved driver.verification_status)) (bad_request not_approved)
    throw_if (is_online && not driver.is_active) (bad_request suspended)
    let saved = record driver { is_online = is_online }
    store_driver e saved
    return (sanitize_driver saved)

  module _ (a : AuthEnv) where
    abbrev pub end_sessions : Bool → ℕ → Action (Unit {0})
    end_sessions ended id = if ended then revoke_all_for_subject a id Role.driver else return tt

    abbrev pub with_status : VerificationStatus → Driver → Driver
    with_status status d = record d {
      verification_status = status;
      is_online = d.is_online && is_approved status;
    }

    unfoldable pub update_verification_status : ℕ → VerificationStatus → Action SanitizedDriver
    unfolding sanitize_driver
    update_verification_status id status = do
      driver ← get_driver e id
      store_driver e (with_status status driver)
      end_sessions (not (is_approved status)) driver.id
      return (sanitize_driver (with_status status driver))

    abbrev pub with_active : Bool → Driver → Driver
    with_active is_active d = record d {
      is_active = is_active;
      is_online = d.is_online && is_active;
    }

    unfoldable pub update_active_status : ℕ → Bool → Action SanitizedDriver
    unfolding sanitize_driver
    update_active_status id is_active = do
      driver ← get_driver e id
      store_driver e (with_active is_active driver)
      end_sessions (not is_active) driver.id
      return (sanitize_driver (with_active is_active driver))

    -- The foreign keys: rides forget the driver (SET NULL) and the driver's vehicles, which go too
    -- (CASCADE).
    abbrev pub is_vehicle_of : ℕ → Option Vehicle → Bool
    is_vehicle_of driver none = false
    is_vehicle_of driver (some v) = v.driver_id == driver

    abbrev pub vehicle_row : Db → Option ℕ → Option Vehicle
    vehicle_row db none = none
    vehicle_row db (some v) = e.vehicles.find_one v db.vehicles

    abbrev pub forget_driver : ℕ → Db → Db
    forget_driver id db = record db {
      rides =
          e.rides.update_where (λ r. is_id r.driver_id id) (λ r. record r { driver_id = none })
            (e.rides.update_where (λ r. is_vehicle_of id (vehicle_row db r.vehicle_id))
              (λ r. record r { vehicle_id = none }) db.rides);
      vehicles = e.vehicles.remove_where (λ v. v.driver_id == id) db.vehicles;
    }

    unfoldable pub remove : ℕ → Action (Unit {0})
    remove id = do
      driver ← get_driver e id
      revoke_all_for_subject a driver.id Role.driver
      modify_db (λ db.
          forget_driver driver.id (record db { drivers = e.drivers.remove driver db.drivers }))
