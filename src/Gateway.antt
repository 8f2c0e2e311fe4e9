-- ===== src/Gateway.antt =====
-- `RidesGateway` (src/websocket/gateways/rides.gateway.ts): which sockets are in which rooms. A ride id
-- that a client sends is one that has the form of an id.
pub mod Rooms
pub mod Watchers
use arkride_backend.Common.{
  ℕ, Bool, true, false, not, ◌&&◌, ◌||◌, Option, none, some, List, [], ◌∷◌, ◌++◌, any, ◌==◌,
  if◌then◌else◌,
}
use arkride_backend.Entities.Accounts.{Role, same_role, Vehicle, VehicleType}
use arkride_backend.Entities.Rides.{Ride, RideCategory}
use arkride_backend.Auth.Sessions.{TokenPayload, ResolvedPrincipal, resolve_principal}
use arkride_backend.Emergency.{parties_of}
use arkride_backend.Ownership.{Principal, is_party_to_ride}
use arkride_backend.Rides.Matching.{same_category, get_allowed_categories_for_vehicle_types}
use arkride_backend.World.{Env, World, Outcome, returned, thrown}

-- src/websocket/events/ride-events.constants.ts, `ROOMS`
pub data Room : Type 0 where
  ride user driver : ℕ → Room
  available_rides : RideCategory → Room
  ops_emergency : Room

abbrev pub same_room : Room → Room → Bool
same_room (ride a) (ride b) = a == b
same_room (user a) (user b) = a == b
same_room (driver a) (driver b) = a == b
same_room (available_rides a) (available_rides b) = same_category a b
same_room ops_emergency ops_emergency = true
same_room _ _ = false

-- `client.data.principal` of each socket, and the rooms that it is in.
pub record Hub : Type 0 where
  pub principal : ℕ → Option Principal
  pub joined : ℕ → Room → Bool

abbrev pub identified : ℕ → Principal → Hub → Hub
identified client p h = record h { principal = λ c. if c == client then some p else h.principal c }

abbrev pub join : ℕ → Room → Hub → Hub
join client room h = record h { joined = λ c r. (c == client && same_room r room) || h.joined c r }

abbrev pub leave : ℕ → Room → Hub → Hub
leave client room h = record h {
  joined = λ c r. not (c == client && same_room r room) && h.joined c r;
}

-- `server.in(room).socketsJoin(other)`
abbrev pub sockets_join : Room → Room → Hub → Hub
sockets_join room other h = record h {
  joined = λ c r. (h.joined c room && same_room r other) || h.joined c r;
}

-- A closed socket is in no room.
abbrev pub closed : ℕ → Hub → Hub
closed client h = record {
  principal = λ c. if c == client then none else h.principal c;
  joined = λ c r. not (c == client) && h.joined c r;
}

abbrev pub vehicle_types : List Vehicle → List VehicleType
vehicle_types [] = []
vehicle_types (v ∷ vs) = v.type ∷ vehicle_types vs

unfoldable pub join_categories : ℕ → List RideCategory → Hub → Hub
join_categories client [] h = h
join_categories client (c ∷ cs) h = join_categories client cs (join client (available_rides c) h)

module _ (e : Env) where
  unfoldable pub join_driver_rooms : ℕ → ℕ → World → Hub → Hub
  unfolding join_categories
  join_driver_rooms client driver_id w h =
      let vehicles = e.vehicles.find (λ v. v.driver_id == driver_id && v.is_active) w.db.vehicles in
      join_categories client (get_allowed_categories_for_vehicle_types (vehicle_types vehicles))
        (join client (driver driver_id) h)

  abbrev place : ℕ → ResolvedPrincipal → World → Hub → Hub
  place client x w h =
      if same_role x.role Role.driver
      then join_driver_rooms client x.id w h
      else join client (user x.id) h

  -- A token that was verified, or `none`; a socket that is rejected is closed.
  abbrev pub admit : ℕ → Outcome ResolvedPrincipal → World → Hub → Hub
  admit client (returned x) w h =
      place client x w (identified client (record { id = x.id; role = x.role }) h)
  admit client (thrown x) w h = closed client h

  unfoldable pub handle_connection : ℕ → Option TokenPayload → World → Hub → Hub
  unfolding join_driver_rooms
  handle_connection client none w h = closed client h
  handle_connection client (some payload) w h = admit client (resolve_principal e payload w).0 w h

  unfoldable pub handle_join_ride : (client ride_id : ℕ) → World → Hub → Hub
  handle_join_ride client ride_id w h =
      if is_party_to_ride (h.principal client) (parties_of e (e.rides.find_one ride_id w.db.rides))
      then join client (ride ride_id) h
      else h

unfoldable pub handle_leave_ride : (client ride_id : ℕ) → Hub → Hub
handle_leave_ride client ride_id h = leave client (ride ride_id) h

abbrev driver_joins : Option ℕ → Room → Hub → Hub
driver_joins none room h = h
driver_joins (some d) room h = sockets_join (driver d) room h

-- What `handleRideRequested` and `handleRideAccepted` do first.
unfoldable pub join_parties_to_ride_room : Ride → Hub → Hub
join_parties_to_ride_room r h =
    driver_joins r.driver_id (ride r.id) (sockets_join (user r.user_id) (ride r.id) h)

abbrev driver_room : Option ℕ → List Room
driver_room none = []
driver_room (some d) = driver d ∷ []

-- `handleEmergency`: the rooms of the alert, and whether a socket gets it.
unfoldable pub emergency_rooms : (ride_id user_id : ℕ) → Option ℕ → List Room
emergency_rooms ride_id user_id driver_id =
    ride ride_id ∷ ops_emergency ∷ user user_id ∷ driver_room driver_id

abbrev pub is_told : Hub → ℕ → List Room → Bool
is_told h client rooms = any (h.joined client) rooms
