-- ===== src/Gateway/Watchers.antt =====
-- Who is in the room of a ride, and who gets an emergency alert.
use arkride_backend.Common.{
  ℕ, ◌≡◌, true, false, ◌&&◌, ◌||◌, Option, some, none, List, [], ◌∷◌, refl, ◌==◌, arith,
  Option-cases, inl, inr, ◌⊎◌, ap, ◌∙◌, Bool-cases,
}
use arkride_backend.Entities.Accounts.{Role, same_role}
use arkride_backend.Entities.Rides.{Ride, RideCategory}
use arkride_backend.Auth.Sessions.{TokenPayload, ResolvedPrincipal, resolve_principal}
use arkride_backend.Gateway.{
  Room, ride, user, driver, available_rides, ops_emergency, Hub, identified, join, join_categories,
  join_driver_rooms, admit, handle_connection, handle_join_ride, handle_leave_ride,
  join_parties_to_ride_room, emergency_rooms, is_told, vehicle_types,
}
use arkride_backend.Ownership.{Principal, is_party_to_ride}
use arkride_backend.Rides.Trip.{is_some_and}
use arkride_backend.Rides.Matching.{get_allowed_categories_for_vehicle_types}
use arkride_backend.Emergency.{parties_of}
use arkride_backend.World.{Env, World, Outcome, returned, thrown}
use arkride_backend.Gateway.Rooms.{
  may_enter, IsPlaced, Step, connection, join_ride, leave_ride, parties, close, Reach, here, next,
  no_sockets, no_sockets-IsPlaced, Reach-IsPlaced, told,
}

module _ (e : Env) where
  -- What lets a principal into the room of a ride: `joinRide` found it a party to the ride, or the ride
  -- was requested or accepted with it as the rider or the driver.
  abbrev pub Admits : {u v : Hub} → Option Principal → ℕ → Step e u v → Type 0
  Admits p i (connection client payload w fresh) = ⊥
  Admits p i (join_ride client ride_id w) =
      (ride_id ≡ i)
      × (is_party_to_ride p (parties_of e (e.rides.find_one ride_id w.db.rides)) ≡ true)
  Admits p i (leave_ride client ride_id) = ⊥
  Admits p i (parties r) =
      (r.id ≡ i)
      × ((may_enter p (user r.user_id) || is_some_and r.driver_id (λ d. may_enter p (driver d)))
          ≡ true)
  Admits p i (close client) = ⊥

  -- A step of the history let the principal in.
  abbrev pub IsAdmitted : {h v : Hub} → Option Principal → ℕ → Reach e h v → Type 0
  IsAdmitted p i here = ⊥
  IsAdmitted p i (next before step) = Admits p i step ⊎ IsAdmitted p i before

  join_categories-ride :
      (client : ℕ) (cs : List RideCategory) (h : Hub) (c i : ℕ)
      → ((join_categories client cs h).joined c (ride i) ≡ h.joined c (ride i))
        × ((join_categories client cs h).principal ≡ h.principal)
  unfolding join_categories
  join_categories-ride client [] h c i = (refl, refl)
  join_categories-ride client (x ∷ cs) h c i =
      let (rides, principals) =
        join_categories-ride client cs (join client (available_rides x) h) c i in
      (ground (arith, rides), principals)

  -- Whoever is in the room of a ride was there before, as the same principal.
  abbrev WasThere : Hub → Hub → ℕ → ℕ → Type 0
  WasThere u v c i = (u.joined c (ride i) ≡ true) × (v.principal c ≡ u.principal c)

  driver_rooms-WasThere :
      (client id : ℕ) (q : Principal) (w : World) (u : Hub) (c i : ℕ)
      → ((r : Room) → u.joined client r ≡ false)
      → (join_driver_rooms e client id w (identified client q u)).joined c (ride i) ≡ true
      → WasThere u (join_driver_rooms e client id w (identified client q u)) c i
  unfolding join_driver_rooms
  driver_rooms-WasThere client id q w u c i fresh there =
      let cs =
        get_allowed_categories_for_vehicle_types
          (vehicle_types (e.vehicles.find (λ v. v.driver_id == id && v.is_active) w.db.vehicles)) in
      let (rides, principals) =
        join_categories-ride client cs (join client (driver id) (identified client q u)) c i in
      let before : u.joined c (ride i) ≡ true = ground (arith, rides, there) in
      (
        before,
        ap (λ (f : ℕ → Option Principal). f c) principals ∙ ground (arith, before, fresh (ride i)),
      )

  admit-WasThere :
      (client : ℕ) (o : Outcome ResolvedPrincipal) (w : World) (u : Hub) (c i : ℕ)
      → ((r : Room) → u.joined client r ≡ false)
      → (admit e client o w u).joined c (ride i) ≡ true
      → WasThere u (admit e client o w u) c i
  admit-WasThere client (thrown x) w u c i fresh there = (ground arith, ground arith)
  admit-WasThere client (returned x) w u c i fresh there =
      elim (Bool-cases (same_role x.role Role.driver)) [
        | inl drives ↦
            let same : admit e client (returned x) w u
                ≡ join_driver_rooms e client x.id w
                    (identified client (record { id = x.id; role = x.role }) u) =
              ground arith in
            rw same (
              driver_rooms-WasThere client x.id (record { id = x.id; role = x.role }) w u c i fresh
                (rw (← same) there))
        | inr other ↦ (ground (arith, fresh (ride i)), ground (arith, fresh (ride i)))
      ]

  connection-WasThere :
      (client : ℕ) (payload : Option TokenPayload) (w : World) (u : Hub) (c i : ℕ)
      → ((r : Room) → u.joined client r ≡ false)
      → (handle_connection e client payload w u).joined c (ride i) ≡ true
      → WasThere u (handle_connection e client payload w u) c i
  unfolding handle_connection
  connection-WasThere client none w u c i fresh there = (ground arith, ground arith)
  connection-WasThere client (some payload) w u c i fresh there =
      admit-WasThere client (resolve_principal e payload w).0 w u c i fresh there

  join_ride-Admits :
      (client ride_id : ℕ) (w : World) (u : Hub) (c i : ℕ)
      → (handle_join_ride e client ride_id w u).joined c (ride i) ≡ true
      → ((ride_id ≡ i)
          × (is_party_to_ride
                ((handle_join_ride e client ride_id w u).principal c)
                (parties_of e (e.rides.find_one ride_id w.db.rides))
              ≡ true))
        ⊎ WasThere u (handle_join_ride e client ride_id w u) c i
  unfolding handle_join_ride
  join_ride-Admits client ride_id w u c i there =
      elim (Bool-cases (
        is_party_to_ride (u.principal client)
          (parties_of e (e.rides.find_one ride_id w.db.rides)))) [
            | inr stranger ↦ inr (ground arith, ground arith)
            | inl party ↦ elim (Bool-cases (c == client && ride_id == i)) [
              | inl his ↦ inl (ground arith, ground arith)
              | inr other ↦ inr (ground arith, ground arith)
            ]
          ]

  parties-Admits :
      (r : Ride) (u : Hub) (c i : ℕ)
      → IsPlaced u
      → (join_parties_to_ride_room r u).joined c (ride i) ≡ true
      → ((r.id ≡ i)
          × ((may_enter ((join_parties_to_ride_room r u).principal c) (user r.user_id)
                || is_some_and r.driver_id
                    (λ d. may_enter ((join_parties_to_ride_room r u).principal c) (driver d)))
              ≡ true))
        ⊎ WasThere u (join_parties_to_ride_room r u) c i
  unfolding join_parties_to_ride_room IsPlaced
  parties-Admits r u c i placed there = elim (Bool-cases (u.joined c (ride i))) [
    | inl before ↦ inr (before, ground arith)
    | inr absent ↦ elim (Option-cases r.driver_id) [
      | inl alone ↦ inl (ground arith, ground (arith, placed c (user r.user_id)))
      | inr (d, drives) ↦
          inl (ground arith, ground (arith, placed c (user r.user_id), placed c (driver d)))
    ]
  ]

  Step-Admits :
      {u v : Hub} (step : Step e u v) (c i : ℕ)
      → IsPlaced u
      → v.joined c (ride i) ≡ true
      → Admits (v.principal c) i step ⊎ WasThere u v c i
  unfolding handle_leave_ride
  Step-Admits {u} (connection client payload w fresh) c i placed there =
      inr (connection-WasThere client payload w u c i fresh there)
  Step-Admits {u} (join_ride client ride_id w) c i placed there =
      join_ride-Admits client ride_id w u c i there
  Step-Admits (leave_ride client ride_id) c i placed there = inr (ground arith, refl)
  Step-Admits {u} (parties r) c i placed there = parties-Admits r u c i placed there
  Step-Admits (close client) c i placed there = inr (ground arith, ground arith)

  -- Who is in the room of a ride was let in, and is still the principal that was.
  Reach-IsAdmitted :
      {h : Hub} (c i : ℕ) (before : Reach e (no_sockets e) h)
      → h.joined c (ride i) ≡ true
      → IsAdmitted (h.principal c) i before
  Reach-IsAdmitted c i here there = absurd (ground arith)
  Reach-IsAdmitted {h} c i (next {u} before step) there =
      elim (Step-Admits step c i (Reach-IsPlaced e before (no_sockets-IsPlaced e)) there) [
        | inl lets ↦ inl lets
        | inr (was, same) ↦ inr (rw same (Reach-IsAdmitted c i before was))
      ]

  -- From when nobody is connected, whatever connections, messages, rides and closings the gateway has
  -- handled: a socket that gets an emergency alert is the rider's own or the driver's own; or its
  -- principal was let into the room of the ride, because `joinRide` found it a party to the ride, or
  -- because the ride was requested or accepted with it as the rider or the driver. Nobody gets one
  -- through the operators' room.
  pub emergency_heard_by_parties :
      {h : Hub} (c ride_id user_id : ℕ) (driver_id : Option ℕ) (before : Reach e (no_sockets e) h)
      → is_told h c (emergency_rooms ride_id user_id driver_id) ≡ true
      → (h.joined c ops_emergency ≡ false)
        × (IsAdmitted (h.principal c) ride_id before
            ⊎ ((may_enter (h.principal c) (user user_id)
                  || is_some_and driver_id (λ d. may_enter (h.principal c) (driver d)))
                ≡ true))
  unfolding IsPlaced
  emergency_heard_by_parties {h} c ride_id user_id driver_id before i =
      let placed = Reach-IsPlaced e before (no_sockets-IsPlaced e) in
      let heard = told e h c ride_id user_id driver_id placed i in
      (
        ground (arith, placed c ops_emergency),
        elim (Bool-cases (h.joined c (ride ride_id))) [
          | inl there ↦ inl (Reach-IsAdmitted c ride_id before there)
          | inr absent ↦ inr (ground (arith, heard))
        ],
      )
