-- ===== src/Ownership.antt =====
-- Who may act on a row (src/common/utils/ownership.util.ts). An id is never the empty text, so that
-- `!ownerId` says that there is none.
pub mod Agreement
use arkride_backend.Common.{ℕ, Bool, true, false, Option, none, some, ◌==◌, ◌||◌, if◌then◌else◌}
use arkride_backend.Entities.Accounts.{Role, admin}
use arkride_backend.Entities.Accounts.{same_role}
use arkride_backend.World.{Action, Reason, return, throw, forbidden}

pub record Principal : Type 0 where
  pub id : ℕ
  pub role : Role

-- The two owners that are asked for.
pub record Parties : Type 0 where
  pub user_id : Option ℕ
  pub driver_id : Option ℕ

unfoldable pub is_admin : Option Principal → Bool
is_admin none = false
is_admin (some p) = same_role p.role admin

abbrev owns : ℕ → Option ℕ → Bool
owns id none = false
owns id (some owner) = id == owner

unfoldable pub can_act_on_behalf_of : Option Principal → Option ℕ → Bool
can_act_on_behalf_of none owner_id = false
can_act_on_behalf_of (some p) owner_id = if is_admin (some p) then true else owns p.id owner_id

unfoldable pub assert_ownership : Option Principal → Option ℕ → Reason → Action (Unit {0})
assert_ownership principal owner_id reason =
    if can_act_on_behalf_of principal owner_id then return tt else throw (forbidden reason)

abbrev is_owner : Option ℕ → ℕ → Bool
is_owner none id = false
is_owner (some owner) id = owner == id

unfoldable pub is_party_to_ride : Option Principal → Option Parties → Bool
is_party_to_ride none ride = false
is_party_to_ride (some p) none = false
is_party_to_ride (some p) (some ride) =
    if is_admin (some p) then true else is_owner ride.user_id p.id || is_owner ride.driver_id p.id

unfoldable pub assert_party_to_ride : Option Principal → Option Parties → Reason → Action (Unit {0})
assert_party_to_ride principal ride reason =
    if is_party_to_ride principal ride then return tt else throw (forbidden reason)
