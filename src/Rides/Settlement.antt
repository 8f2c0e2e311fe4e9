-- ===== src/Rides/Settlement.antt =====
-- Completing a ride, which moves the money (src/rides/rides.service.ts, `completeRide`).
pub mod Effects
pub mod Payment
pub mod Refusals
pub mod Outage
use arkride_backend.Common.{
  ℕ, suc, Bool, true, false, not, Option, none, some, List, [], ◌∷◌, is_id, get_or, if◌then◌else◌,
}
use arkride_backend.Common.Int.{pos, ◌+ℤ◌}
use arkride_backend.Money.{
  Kobo, to_naira, fare_to_naira, FareSplitKobo, split_fare_kobo, FareSplitNaira, split_fare_naira,
}
use arkride_backend.Platform.{ride_lock, active_ride, holder}
use arkride_backend.Entities.Rides.{Ride, in_progress, completed, same_status}
use arkride_backend.Entities.Accounts.{User, Driver}
use arkride_backend.Entities.LedgerEntries.{
  LedgerEntryType, ride_fare_driver, ride_fare_platform, ride_fare_rider_cashback, StakeholderType,
}
use arkride_backend.Ledger.{WriteLedgerEntry, write_entries}
use arkride_backend.Rides.Booking.{save_ride}
use arkride_backend.World.{
  World, Env, Action, return, found_or, throw_if, asks, modify_db, emit, transaction, with_lock,
  del, ◌>>=◌, ◌>>◌, bad_request, not_found, forbidden, ride_locked, ride_not_found, access_denied,
  invalid_state, driver_not_found, user_not_found, ride_completed,
}

pub record Settled : Type 0 where
  pub ride : Ride
  pub split : FareSplitNaira
  pub already_completed : Bool

abbrev pub share : ℕ → LedgerEntryType → StakeholderType → Option ℕ → ℕ → WriteLedgerEntry
share ride_id type stakeholder id kobo = record {
  ride_id = some ride_id;
  type = type;
  stakeholder_type = stakeholder;
  stakeholder_id = id;
  amount = to_naira (pos kobo);
  status = none;
  provider_reference = none;
}

-- The three entries of one settled ride.
abbrev pub fare_entries : ℕ → ℕ → ℕ → FareSplitKobo → List WriteLedgerEntry
fare_entries ride_id driver_id user_id split =
    share ride_id ride_fare_driver StakeholderType.driver (some driver_id) split.driver_kobo
    ∷ share ride_id ride_fare_platform StakeholderType.platform none split.platform_kobo
    ∷ share ride_id ride_fare_rider_cashback StakeholderType.rider (some user_id) split.rider_kobo
    ∷ []

abbrev pub final_fare_of : Ride → ℕ
final_fare_of ride = get_or ride.estimated_fare 0

abbrev pub completed_ride : Ride → World → Ride
completed_ride ride w = record ride {
  final_fare = some (final_fare_of ride);
  status = completed;
  completed_at = some w.now;
}

abbrev pub already_settled : Ride → Settled
already_settled ride = record {
  ride = ride;
  split = split_fare_naira (fare_to_naira (get_or ride.final_fare 0));
  already_completed = true;
}

module _ (e : Env) where
  -- `Number(balance || 0) + toNaira(kobo)`, stored in the balance column.
  abbrev pub credit : Kobo → ℕ → Kobo
  credit balance kobo = e.column (to_naira balance +ℤ to_naira (pos kobo))

  abbrev pub credited_driver : Driver → ℕ → Driver
  credited_driver d kobo = record d {
    wallet_balance = credit d.wallet_balance kobo;
    total_completed_rides = suc d.total_completed_rides;
  }

  abbrev pub credited_user : User → ℕ → User
  credited_user u kobo = record u { cashback_balance = credit u.cashback_balance kobo }

  abbrev pub save_driver : Driver → Action (Unit {0})
  save_driver d = modify_db (λ db. record db { drivers = e.drivers.save d db.drivers })

  abbrev pub save_user : User → Action (Unit {0})
  save_user u = modify_db (λ db. record db { users = e.users.save u db.users })

  -- The transaction's body from the point where the ride is known to be in progress. The money
  -- columns hold kobo, and `Number` reads them as naira.
  unfoldable pub settle : ℕ → Ride → Action Settled
  settle driver_id ride = do
    let final_fare = fare_to_naira (final_fare_of ride)
    let split = split_fare_kobo final_fare
    saved ← asks (completed_ride ride)
    save_ride e saved
    driver ←
        found_or (not_found driver_not_found)
          (← asks (λ w. e.drivers.find_one driver_id w.db.drivers))
    save_driver (credited_driver driver split.driver_kobo)
    user ←
        found_or (not_found user_not_found) (← asks (λ w. e.users.find_one ride.user_id w.db.users))
    save_user (credited_user user split.rider_kobo)
    write_entries e (fare_entries ride.id driver_id ride.user_id split)
    return (record { ride = saved; split = split_fare_naira final_fare; already_completed = false })

  abbrev settle_open : ℕ → Ride → Action Settled
  settle_open driver_id ride =
      throw_if (not (same_status ride.status in_progress)) (bad_request invalid_state)
      >> settle driver_id ride

  -- The body of the transaction.
  unfoldable pub complete : ℕ → ℕ → Action Settled
  complete ride_id driver_id = do
    ride ← found_or (not_found ride_not_found) (← asks (λ w. e.rides.find_one ride_id w.db.rides))
    throw_if (not (is_id ride.driver_id driver_id)) (forbidden access_denied)
    if same_status ride.status completed
        then return (already_settled ride)
        else settle_open driver_id ride

  -- What follows the commit.
  abbrev pub announce : ℕ → Settled → Action Ride
  announce driver_id s =
      if s.already_completed
      then return s.ride
      else (del e (active_ride driver_id) >> emit (ride_completed s.ride s.split) >> return s.ride)

  unfoldable pub complete_ride : ℕ → ℕ → Action Ride
  complete_ride ride_id driver_id =
      with_lock e (ride_lock ride_id) (holder driver_id) 10 ride_locked
        (transaction (complete ride_id driver_id) >>= announce driver_id)
