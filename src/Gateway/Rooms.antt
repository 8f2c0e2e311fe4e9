-- ===== src/Gateway/Rooms.antt =====
-- Whose sockets are in which rooms, whatever the gateway has handled.
use arkride_backend.Common.{
  ℕ, ◌≡◌, Bool, true, false, ◌&&◌, ◌||◌, Option, some, none, List, [], ◌∷◌, refl, ◌==◌, arith,
  Option-cases, inl, inr,
}
use arkride_backend.Entities.Accounts.{Role, same_role}
use arkride_backend.Entities.Rides.{Ride, RideCategory}
use arkride_backend.Auth.Sessions.{TokenPayload, ResolvedPrincipal, resolve_principal}
use arkride_backend.Gateway.{
  Room, ride, user, driver, available_rides, ops_emergency, Hub, identified, join, closed,
  join_categories, join_driver_rooms, admit, handle_connection, handle_join_ride, handle_leave_ride,
  join_parties_to_ride_room, emergency_rooms, is_told, sockets_join, same_room, vehicle_types,
}
use arkride_backend.Ownership.{Principal}
use arkride_backend.Rides.Trip.{is_some_and}
use arkride_backend.Rides.Matching.{get_allowed_categories_for_vehicle_types}
use arkride_backend.World.{Env, World, Outcome, returned, thrown}

-- A personal room is its owner's, a driver's for a driver alone; nobody may be in the operators' room.
abbrev pub may_enter : Option Principal → Room → Bool
may_enter p (ride r) = true
may_enter p (available_rides c) = true
may_enter p ops_emergency = false
may_enter none (user u) = false
may_enter none (driver d) = false
may_enter (some p) (user u) = p.id == u
may_enter (some p) (driver d) = p.id == d && same_role p.role Role.driver

unfoldable pub IsPlaced : Hub → Type 0
IsPlaced h = (c : ℕ) (r : Room) → h.joined c r ≡ true → may_enter (h.principal c) r ≡ true

module _ (e : Env) where
  -- What the gateway handles: a connection, the two messages, a ride requested or accepted, and a
  -- socket that closes. A socket connects once.
  pub data Step (h : Hub) : Hub → Type 0 where
    connection :
        (client : ℕ) (payload : Option TokenPayload) (w : World)
        → ((r : Room) → h.joined client r ≡ false)
        → Step h (handle_connection e client payload w h)
    join_ride : (client ride_id : ℕ) (w : World) → Step h (handle_join_ride e client ride_id w h)
    leave_ride : (client ride_id : ℕ) → Step h (handle_leave_ride client ride_id h)
    parties : (r : Ride) → Step h (join_parties_to_ride_room r h)
    close : (client : ℕ) → Step h (closed client h)

  pub data Reach (h : Hub) : Hub → Type 0 where
    here : Reach h h
    next : {u v : Hub} → Reach h u → Step u v → Reach h v

  same_room-may_enter :
      (p : Option Principal) (r room : Room)
      → same_room r room ≡ true
      → may_enter p room ≡ true
      → may_enter p r ≡ true
  same_room-may_enter none r room same may = ground arith
  same_room-may_enter (some p) r room same may = ground arith

  closed-IsPlaced : (client : ℕ) (h : Hub) → IsPlaced h → IsPlaced (closed client h)
  unfolding IsPlaced
  closed-IsPlaced client h placed c r i = ground (arith, placed c r)

  join-IsPlaced :
      (client : ℕ) (room : Room) (h : Hub)
      → may_enter (h.principal client) room ≡ true
      → IsPlaced h
      → IsPlaced (join client room h)
  unfolding IsPlaced
  join-IsPlaced client room h may placed c r i =
      ground (arith, placed c r, same_room-may_enter (h.principal c) r room)

  identified-join-IsPlaced :
      (client : ℕ) (p : Principal) (room : Room) (h : Hub)
      → ((r : Room) → h.joined client r ≡ false)
      → may_enter (some p) room ≡ true
      → IsPlaced h
      → IsPlaced (join client room (identified client p h))
  unfolding IsPlaced
  identified-join-IsPlaced client p room h fresh may placed c r i =
      ground (arith, fresh r, placed c r, same_room-may_enter (some p) r room)

  join_categories-IsPlaced :
      (client : ℕ) (cs : List RideCategory) (h : Hub)
      → IsPlaced h
      → IsPlaced (join_categories client cs h)
  unfolding join_categories
  join_categories-IsPlaced client [] h placed = placed
  join_categories-IsPlaced client (x ∷ cs) h placed =
      join_categories-IsPlaced client cs (join client (available_rides x) h)
        (join-IsPlaced client (available_rides x) h refl placed)

  join_ride-IsPlaced :
      (client ride_id : ℕ) (w : World) (h : Hub)
      → IsPlaced h
      → IsPlaced (handle_join_ride e client ride_id w h)
  unfolding handle_join_ride
  join_ride-IsPlaced client ride_id w h placed =
      ground (arith, join-IsPlaced client (ride ride_id) h refl placed)

  driver_rooms-IsPlaced :
      (client id : ℕ) (w : World) (h : Hub)
      → ((r : Room) → h.joined client r ≡ false)
      → IsPlaced h
      → IsPlaced (
          join_driver_rooms e client id w
            (identified client (record { id = id; role = Role.driver }) h))
  unfolding join_driver_rooms
  driver_rooms-IsPlaced client id w h fresh placed =
      join_categories-IsPlaced client
        (get_allowed_categories_for_vehicle_types
          (vehicle_types (e.vehicles.find (λ v. v.driver_id == id && v.is_active) w.db.vehicles)))
        _
        (identified-join-IsPlaced client (record { id = id; role = Role.driver }) (driver id) h
          fresh (ground arith) placed)

  admit-IsPlaced :
      (client : ℕ) (o : Outcome ResolvedPrincipal) (w : World) (h : Hub)
      → ((r : Room) → h.joined client r ≡ false)
      → IsPlaced h
      → IsPlaced (admit e client o w h)
  admit-IsPlaced client (thrown x) w h fresh placed = closed-IsPlaced client h placed
  admit-IsPlaced client (returned x) w h fresh placed = ground (
    arith,
    driver_rooms-IsPlaced client x.id w h fresh placed,
    identified-join-IsPlaced client (record { id = x.id; role = x.role }) (user x.id) h fresh
        (ground arith) placed,
  )

  connection-IsPlaced :
      (client : ℕ) (payload : Option TokenPayload) (w : World) (h : Hub)
      → ((r : Room) → h.joined client r ≡ false)
      → IsPlaced h
      → IsPlaced (handle_connection e client payload w h)
  unfolding handle_connection
  connection-IsPlaced client none w h fresh placed = closed-IsPlaced client h placed
  connection-IsPlaced client (some payload) w h fresh placed =
      admit-IsPlaced client (resolve_principal e payload w).0 w h fresh placed

  sockets_join-IsPlaced :
      (room : Room) (ride_id : ℕ) (h : Hub)
      → IsPlaced h
      → IsPlaced (sockets_join room (ride ride_id) h)
  unfolding IsPlaced
  sockets_join-IsPlaced room ride_id h placed c (ride x) i = refl
  sockets_join-IsPlaced room ride_id h placed c (user x) i = ground (arith, placed c (user x))
  sockets_join-IsPlaced room ride_id h placed c (driver x) i = ground (arith, placed c (driver x))
  sockets_join-IsPlaced room ride_id h placed c (available_rides x) i = refl
  sockets_join-IsPlaced room ride_id h placed c ops_emergency i =
      ground (arith, placed c ops_emergency)

  parties-IsPlaced : (r : Ride) (h : Hub) → IsPlaced h → IsPlaced (join_parties_to_ride_room r h)
  unfolding join_parties_to_ride_room
  parties-IsPlaced r h placed = elim (Option-cases r.driver_id) [
    | inl alone ↦ ground (arith, sockets_join-IsPlaced (user r.user_id) r.id h placed)
    | inr (d, drives) ↦ ground (
      arith,
      sockets_join-IsPlaced (user r.user_id) r.id h placed,
      sockets_join-IsPlaced (driver d) r.id (sockets_join (user r.user_id) (ride r.id) h),
    )
  ]

  leave-IsPlaced :
      (client ride_id : ℕ) (h : Hub) → IsPlaced h → IsPlaced (handle_leave_ride client ride_id h)
  unfolding handle_leave_ride IsPlaced
  leave-IsPlaced client ride_id h placed c r i = placed c r (ground arith)

  Step-IsPlaced : {h v : Hub} → Step h v → IsPlaced h → IsPlaced v
  Step-IsPlaced {h = h} (connection client payload w fresh) placed =
      connection-IsPlaced client payload w h fresh placed
  Step-IsPlaced {h = h} (join_ride client ride_id w) placed =
      join_ride-IsPlaced client ride_id w h placed
  Step-IsPlaced {h = h} (leave_ride client ride_id) placed = leave-IsPlaced client ride_id h placed
  Step-IsPlaced {h = h} (parties r) placed = parties-IsPlaced r h placed
  Step-IsPlaced {h = h} (close client) placed = closed-IsPlaced client h placed

  pub Reach-IsPlaced : {h v : Hub} → Reach h v → IsPlaced h → IsPlaced v
  Reach-IsPlaced here placed = placed
  Reach-IsPlaced (next before step) placed = Step-IsPlaced step (Reach-IsPlaced before placed)

  -- Nobody is connected.
  abbrev pub no_sockets : Hub
  no_sockets = record { principal = λ c. none; joined = λ c r. false }

  pub no_sockets-IsPlaced : IsPlaced no_sockets
  unfolding IsPlaced
  no_sockets-IsPlaced c r i = ground arith

  pub told :
      (h : Hub) (c ride_id user_id : ℕ) (driver_id : Option ℕ)
      → IsPlaced h
      → is_told h c (emergency_rooms ride_id user_id driver_id) ≡ true
      → (h.joined c (ride ride_id)
          || (may_enter (h.principal c) (user user_id)
              || is_some_and driver_id (λ d. may_enter (h.principal c) (driver d))))
        ≡ true
  unfolding IsPlaced emergency_rooms
  told h c ride_id user_id none placed i =
      ground (arith, placed c ops_emergency, placed c (user user_id))
  told h c ride_id user_id (some d) placed i =
      ground (arith, placed c ops_emergency, placed c (user user_id), placed c (driver d))
