-- ===== src/Ownership/Agreement.antt =====
-- The checks of ownership agree with each other and with the one inside `getFareBreakdown`.
use arkride_backend.Common.{◌≡◌, ◌||◌, some, arith}
use arkride_backend.Entities.Rides.{Ride}
use arkride_backend.Rides.Breakdown.{is_party}
use arkride_backend.Ownership.{Principal, Parties, is_admin, can_act_on_behalf_of, is_party_to_ride}

abbrev pub parties : Ride → Parties
parties ride = record { user_id = some ride.user_id; driver_id = ride.driver_id }

-- A principal is a party to a ride exactly when it may act for its rider or for its driver; and
-- `getFareBreakdown`, asked with the principal's id and whether it is an admin, lets in the same.
pub is_party_to_ride-can_act_on_behalf_of :
    (p : Principal) (ride : Ride)
    → (is_party_to_ride (some p) (some (parties ride)) ≡ (
        can_act_on_behalf_of (some p) (some ride.user_id)
        || can_act_on_behalf_of (some p) ride.driver_id))
      × (is_party_to_ride (some p) (some (parties ride))
          ≡ (is_admin (some p) || is_party ride p.id))
unfolding is_party_to_ride can_act_on_behalf_of is_admin
is_party_to_ride-can_act_on_behalf_of p ride = ground arith
