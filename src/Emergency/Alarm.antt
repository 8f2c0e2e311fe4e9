-- ===== src/Emergency/Alarm.antt =====
-- What pressing the button does.
use arkride_backend.Common.{
  ℕ, ◌≡◌, true, ◌||◌, some, none, is_id, [], ◌∷◌, ◌++◌, ◌==◌, if◌then◌else◌, arith, ◌⊎◌,
  Option-cases, inl, inr, refl, false, Bool, ◌&&◌, List,
}
use arkride_backend.Entities.Rides.{Ride, in_progress, same_status}
use arkride_backend.Entities.Safety.{EmergencyIncident, Place}
use arkride_backend.DriverLocations.{find_by_driver_id}
use arkride_backend.Emergency.{
  TriggerEmergencyDto, sent_place, pickup_place, seen_place, last_seen, resolve_location,
  dispatch_emergency, new_incident, trigger, add_job,
}
use arkride_backend.World.{
  Env, World, returned, thrown, queue_failed, emergency_triggered, return, ◌>>◌, Error, not_found,
  ride_not_found, bad_request, invalid_state, forbidden, access_denied, EmergencyWebhook,
  WebhookJob, trigger_emergency_protocol, broadcast_location,
}

module _ (e : Env) where
  -- The best known position: what was sent, else where the driver was last seen, else the pickup.
  abbrev pub best_place : Ride → TriggerEmergencyDto → World → Place
  best_place ride dto w = elim (sent_place dto.lat dto.lng) [
    | some place ↦ place
    | none ↦ elim ride.driver_id [
      | none ↦ pickup_place ride
      | some d ↦ elim (w.positions d) [ some p ↦ seen_place p | none ↦ pickup_place ride ]
    ]
  ]

  resolve_location-best_place :
      (ride : Ride) (dto : TriggerEmergencyDto) (w : World)
      → resolve_location e ride dto w ≡ (returned (some (best_place ride dto w)), w)
  unfolding resolve_location last_seen find_by_driver_id
  resolve_location-best_place ride dto w = ground arith

  abbrev pub incident_of : TriggerEmergencyDto → Ride → ℕ → World → EmergencyIncident
  incident_of dto ride requester_id w =
      new_incident e dto ride requester_id (some (best_place ride dto w)) w

  -- The state when the incident is stored and announced, and nothing is queued yet.
  abbrev pub announced : EmergencyIncident → Ride → World → World
  announced incident ride w = record w {
    db = record w.db { incidents = e.incidents.save incident w.db.incidents };
    events = w.events ++ emergency_triggered incident ride.user_id ride.driver_id ∷ [];
  }

  trigger_runs :
      (dto : TriggerEmergencyDto) (requester_id : ℕ) (ride : Ride) (w : World)
      → e.rides.find_one dto.ride_id w.db.rides ≡ some ride
      → ride.status ≡ in_progress
      → (ride.user_id == requester_id || is_id ride.driver_id requester_id) ≡ true
      → trigger e dto requester_id w
        ≡ (dispatch_emergency e (incident_of dto ride requester_id w)
              >> return (incident_of dto ride requester_id w))
            (announced (incident_of dto ride requester_id w) ride w)
  unfolding trigger
  trigger_runs dto requester_id ride w found driving party =
      ground (arith, resolve_location-best_place ride dto w)

  -- The jobs with one added if the queue took it.
  abbrev pub queued :
      EmergencyWebhook → Bool → EmergencyIncident → List WebhookJob → List WebhookJob
  queued job accepts incident jobs =
      if accepts then jobs ++ record { name = job; incident = incident } ∷ [] else jobs

  -- The state when the second job is added.
  abbrev pub protocol_added : EmergencyIncident → Ride → World → World
  protocol_added incident ride w =
      (add_job e trigger_emergency_protocol incident (announced incident ride w)).1

  -- A party to a ride in progress who raises an alarm: whether the webhook queue takes the jobs or not,
  -- the incident is stored with the best known position (what was sent, else where the driver was last
  -- seen, else the pickup), and announced to the app once with nothing else. Of the two jobs those are
  -- queued that the queue takes. If it takes both, the incident is returned; if not, the call throws.
  pub trigger_records :
      (dto : TriggerEmergencyDto) (requester_id : ℕ) (ride : Ride) (w : World)
      → e.rides.find_one dto.ride_id w.db.rides ≡ some ride
      → ride.status ≡ in_progress
      → (ride.user_id == requester_id || is_id ride.driver_id requester_id) ≡ true
      → let incident = incident_of dto ride requester_id w in
        let protocol = e.queue_accepts trigger_emergency_protocol (announced incident ride w) in
        let broadcast = e.queue_accepts broadcast_location (protocol_added incident ride w) in
        let (r, v) = trigger e dto requester_id w in
        (e.incidents.find_one incident.id v.db.incidents ≡ some incident)
        × ((v.events ≡ w.events ++ emergency_triggered incident ride.user_id ride.driver_id ∷ [])
            × ((v.webhooks
                  ≡ queued broadcast_location broadcast incident
                      (queued trigger_emergency_protocol protocol incident w.webhooks))
                × (r ≡ (if protocol && broadcast then returned incident else thrown queue_failed))))
  unfolding dispatch_emergency
  trigger_records dto requester_id ride w found driving party =
      let incident = incident_of dto ride requester_id w in
      ground (
        arith,
        trigger_runs dto requester_id ride w found driving party,
        e.incidents.find_one_save incident.id incident w.db.incidents,
      )

  -- The ride is there and in progress, and who asks is its rider or its driver.
  pub record MayRaise (dto : TriggerEmergencyDto) (requester_id : ℕ) (w : World) : Type 0 where
    pub ride : Ride
    pub found : e.rides.find_one dto.ride_id w.db.rides ≡ some ride
    pub driving : ride.status ≡ in_progress
    pub party : (ride.user_id == requester_id || is_id ride.driver_id requester_id) ≡ true

  raise_if :
      (dto : TriggerEmergencyDto) (requester_id : ℕ) (ride : Ride) (w : World) (b c : Bool)
      → e.rides.find_one dto.ride_id w.db.rides ≡ some ride
      → same_status ride.status in_progress ≡ b
      → (ride.user_id == requester_id || is_id ride.driver_id requester_id) ≡ c
      → MayRaise dto requester_id w ⊎ ((x : Error) × (trigger e dto requester_id w ≡ (thrown x, w)))
  unfolding trigger
  raise_if dto requester_id ride w false c found idle q =
      inr (bad_request invalid_state, ground arith)
  raise_if dto requester_id ride w true false found driving stranger =
      inr (forbidden access_denied, ground arith)
  raise_if dto requester_id ride w true true found driving party =
      inl (record { ride = ride; found = found; driving = ground arith; party = party })

  -- Whoever raises an alarm, either may raise it, being the rider or the driver of a stored ride in
  -- progress, or the call throws and changes nothing.
  pub trigger_guarded :
      (dto : TriggerEmergencyDto) (requester_id : ℕ) (w : World)
      → MayRaise dto requester_id w ⊎ ((x : Error) × (trigger e dto requester_id w ≡ (thrown x, w)))
  unfolding trigger
  trigger_guarded dto requester_id w =
      elim (Option-cases (e.rides.find_one dto.ride_id w.db.rides)) [
        | inl missing ↦ inr (not_found ride_not_found, ground arith)
        | inr (ride, found) ↦
            raise_if dto requester_id ride w (same_status ride.status in_progress)
              (ride.user_id == requester_id || is_id ride.driver_id requester_id) found refl refl
      ]
