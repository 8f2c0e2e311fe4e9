-- ===== src/Rides/Endpoints/Contract.antt =====
-- What the endpoints promise: an abstract trip that its rider and its driver move, and nobody else.
use arkride_backend.Common.{
  ℕ, ◌≡◌, ◌⊎◌, Bool, true, false, not, ◌&&◌, ◌||◌, Option, some, none, is_id, ◌==◌, if◌then◌else◌,
  arith,
}
use arkride_backend.Entities.Accounts.{Role, same_role}
use arkride_backend.Entities.Rides.{
  Ride, RideStatus, same_status, requested, accepted, arrived, in_progress, completed, cancelled,
}
use arkride_backend.Auth.Sessions.{ResolvedPrincipal}
use arkride_backend.Rides.Trip.{accepted_ride}
use arkride_backend.World.{World}

-- A trip, as the two parties see it.
pub record Trip : Type 0 where
  pub rider : ℕ
  pub driver : Option ℕ
  pub stage : RideStatus

abbrev pub trip_of : Ride → Trip
trip_of r = record { rider = r.user_id; driver = r.driver_id; stage = r.status }

abbrev pub is_driver : ResolvedPrincipal → Bool
is_driver p = same_role p.role Role.driver

abbrev pub drives : ResolvedPrincipal → Trip → Bool
drives p t = is_driver p && is_id t.driver p.id

abbrev pub rides_along : ResolvedPrincipal → Trip → Bool
rides_along p t = same_role p.role Role.user && t.rider == p.id

-- The machine: who may take a trip from which stage to another, and what that makes of it.
abbrev pub may_move : ResolvedPrincipal → RideStatus → Trip → Bool
may_move p requested t = false
may_move p accepted t = is_driver p && same_status t.stage requested
may_move p arrived t = drives p t && same_status t.stage accepted
may_move p in_progress t = drives p t && same_status t.stage arrived
may_move p completed t = drives p t && same_status t.stage in_progress
may_move p cancelled t =
    not (same_status t.stage completed)
    && (drives p t || (rides_along p t && not (same_status t.stage in_progress)))

abbrev pub driver_after : ResolvedPrincipal → RideStatus → Trip → Option ℕ
driver_after p accepted t = some p.id
driver_after p _ t = t.driver

abbrev follows_on : RideStatus → RideStatus → Bool
follows_on accepted arrived = true
follows_on arrived in_progress = true
follows_on in_progress completed = true
follows_on _ _ = false

unfoldable pub move : ResolvedPrincipal → RideStatus → Trip → Option Trip
move p to t =
    if may_move p to t
    then some (record { rider = t.rider; driver = driver_after p to t; stage = to })
    else none

-- The row is still there, and its trip has stayed or made one move of that principal.
abbrev pub Moves : ResolvedPrincipal → Ride → Option Ride → Type 0
Moves p old none = ⊥
Moves p old (some new) =
    (trip_of new ≡ trip_of old) ⊎ (move p new.status (trip_of old) ≡ some (trip_of new))

module _ (p : ResolvedPrincipal) (r : Ride) where
  pub moved_accepted :
      (v : ℕ) (w : World)
      → p.role ≡ Role.driver
      → r.status ≡ requested
      → move p accepted (trip_of r) ≡ some (trip_of (accepted_ride p.id v r w))
  unfolding move
  moved_accepted v w drives waits = ground arith

  -- A driver's next move on the ride they drive.
  pub moved_on :
      (to : RideStatus)
      → p.role ≡ Role.driver
      → is_id r.driver_id p.id ≡ true
      → follows_on r.status to ≡ true
      → move p to (trip_of r)
        ≡ some (record { rider = r.user_id; driver = r.driver_id; stage = to })
  unfolding move
  moved_on to drives mine next = ground arith

  pub moved_off_by_driver :
      p.role ≡ Role.driver
      → is_id r.driver_id p.id ≡ true
      → same_status r.status completed ≡ false
      → move p cancelled (trip_of r)
        ≡ some (record { rider = r.user_id; driver = r.driver_id; stage = cancelled })
  unfolding move
  moved_off_by_driver drives mine over = ground arith

  pub moved_off_by_user :
      p.role ≡ Role.user
      → (r.user_id == p.id) ≡ true
      → same_status r.status completed ≡ false
      → same_status r.status in_progress ≡ false
      → move p cancelled (trip_of r)
        ≡ some (record { rider = r.user_id; driver = r.driver_id; stage = cancelled })
  unfolding move
  moved_off_by_user rides mine over driving = ground arith
