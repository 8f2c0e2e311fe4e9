-- ===== src/Rides/Endpoints.antt =====
-- The endpoints that write rides (src/rides/rides.controller.ts), for a principal whose token was
-- verified: the role guard, and what each handler adds to the service's method.
pub mod Contract
pub mod Refinement
use arkride_backend.Common.{
  ℕ, Bool, true, false, not, Option, none, some, List, [], ◌∷◌, String, ◌==◌, if◌then◌else◌,
}
use arkride_backend.Entities.Accounts.{Role}
use arkride_backend.Entities.Rides.{Ride, Location, RideCategory, RideOriginChannel}
use arkride_backend.Auth.Sessions.{ResolvedPrincipal, can_activate}
use arkride_backend.Rides.Booking.{CreateRideDto, create_ride}
use arkride_backend.Rides.Settlement.{complete_ride}
use arkride_backend.Rides.Trip.{accept_ride, mark_arrived, start_ride, cancel_ride}
use arkride_backend.World.{World, Env, Action, throw_if, ◌>>=◌, ◌>>◌, forbidden, access_denied}

-- The body of a request for a ride, which may name a rider.
pub record CreateRideBody : Type 0 where
  pub user_id : Option ℕ
  pub pickup : Location
  pub dropoff : Location
  pub category : RideCategory
  pub origin_channel : Option RideOriginChannel

pub data Call : Type 0 where
  create : CreateRideBody → Call
  cancel_by_user cancel_by_driver : (ride_id : ℕ) → Option String → Call
  accept : (ride_id vehicle_id : ℕ) → Call
  arrive start complete : (ride_id : ℕ) → Call

-- `@Roles`
abbrev pub required_roles : Call → List Role
required_roles (create body) = Role.user ∷ []
required_roles (cancel_by_user ride_id reason) = Role.user ∷ []
required_roles _ = Role.driver ∷ []

-- `body.userId !== undefined && body.userId !== principal.id`
abbrev pub names_another : Option ℕ → ℕ → Bool
names_another none id = false
names_another (some user_id) id = not (user_id == id)

abbrev pub with_user : ℕ → CreateRideBody → CreateRideDto
with_user user_id body = record {
  user_id = user_id;
  pickup = body.pickup;
  dropoff = body.dropoff;
  category = body.category;
  origin_channel = body.origin_channel;
}

module _ (e : Env) where
  unfoldable pub handle : ResolvedPrincipal → Call → Action Ride
  handle p (create body) =
      throw_if (names_another body.user_id p.id) (forbidden access_denied)
      >> create_ride e (with_user p.id body)
  handle p (cancel_by_user ride_id reason) = cancel_ride e ride_id reason (some p.id) none
  handle p (accept ride_id vehicle_id) = accept_ride e ride_id p.id vehicle_id
  handle p (arrive ride_id) = mark_arrived e ride_id p.id
  handle p (start ride_id) = start_ride e ride_id p.id
  handle p (complete ride_id) = complete_ride e ride_id p.id
  handle p (cancel_by_driver ride_id reason) = cancel_ride e ride_id reason none (some p.id)

  unfoldable pub call : ResolvedPrincipal → Call → Action Ride
  unfolding handle can_activate
  call p c =
      throw_if (not (can_activate false (some (required_roles c)) (some p)))
        (forbidden access_denied)
      >> handle p c
