-- ===== src/Rides/Breakdown.antt =====
-- The fare breakdown of one ride (src/rides/rides.service.ts, `getFareBreakdown`); the texts of the
-- shares and the id are only echoed.
pub mod Paid
pub mod Agreement
use arkride_backend.Common.{
  ℕ, Bool, true, false, not, ◌&&◌, ◌||◌, Option, none, some, List, ◌==◌, is_id, first, get_or,
  if◌then◌else◌,
}
use arkride_backend.Common.Int.{pos}
use arkride_backend.Money.{Naira, to_naira, fare_to_naira, split_fare_naira}
use arkride_backend.Entities.Rides.{Ride, RideStatus, completed, same_status}
use arkride_backend.Entities.LedgerEntries.{
  LedgerEntry, LedgerEntryType, ride_fare_driver, ride_fare_platform, ride_fare_rider_cashback,
  same_type,
}
use arkride_backend.Ledger.{find_by_ride_id}
use arkride_backend.Rides.Trip.{find_one}
use arkride_backend.World.{Env, Action, return, throw_if, ◌>>=◌, ◌>>◌, forbidden, not_a_party}

pub record FareBreakdown : Type 0 where
  pub status : RideStatus
  pub settled : Bool
  pub total_fare : Naira
  pub driver_earning : Naira
  pub platform_commission : Naira
  pub rider_cashback : Naira

-- `amountFor`: the amount of the first entry of a type, or 0.
unfoldable pub amount_for : List LedgerEntry → LedgerEntryType → Naira
amount_for entries t = elim (first (λ row. same_type row.type t) entries) [
  | none ↦ pos 0
  | some row ↦ to_naira row.amount
]

abbrev pub is_party : Ride → ℕ → Bool
is_party ride requester = ride.user_id == requester || is_id ride.driver_id requester

abbrev pub paid_breakdown : Ride → List LedgerEntry → FareBreakdown
paid_breakdown ride entries = record {
  status = ride.status;
  settled = true;
  total_fare = pos (fare_to_naira (get_or ride.final_fare 0));
  driver_earning = amount_for entries ride_fare_driver;
  platform_commission = amount_for entries ride_fare_platform;
  rider_cashback = amount_for entries ride_fare_rider_cashback;
}

abbrev pub projected_breakdown : Ride → FareBreakdown
projected_breakdown ride =
    let split = split_fare_naira (fare_to_naira (get_or ride.estimated_fare 0)) in
    record {
      status = ride.status;
      settled = false;
      total_fare = pos split.total_fare;
      driver_earning = pos split.driver_earning;
      platform_commission = pos split.platform_commission;
      rider_cashback = pos split.rider_cashback;
    }

module _ (e : Env) where
  abbrev look_up : Ride → ℕ → Action FareBreakdown
  look_up ride ride_id = do
    entries ← find_by_ride_id e ride_id
    return (paid_breakdown ride entries)

  unfoldable pub get_fare_breakdown : ℕ → ℕ → Bool → Action FareBreakdown
  unfolding find_one find_by_ride_id
  get_fare_breakdown ride_id requester_id is_admin = do
    ride ← find_one e ride_id
    throw_if (not is_admin && not (is_party ride requester_id)) (forbidden not_a_party)
    if same_status ride.status completed
        then look_up ride ride_id
        else return (projected_breakdown ride)
