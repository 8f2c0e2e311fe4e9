-- ===== src/Emergency.antt =====
-- `EmergencyService` (src/emergency/emergency.service.ts) and the checks of its controller, with
-- `WebhookService` (src/common/services/webhook.service.ts).
pub mod Alarm
use arkride_backend.Common.{
  ℕ, Bool, true, false, not, ◌&&◌, ◌||◌, Option, none, some, is_id, List, [], ◌∷◌, ◌++◌, ◌==◌,
  get_or, if◌then◌else◌,
}
use arkride_backend.Common.Text.{Text}
use arkride_backend.Platform.{Position}
use arkride_backend.Entities.Accounts.{Role}
use arkride_backend.Entities.Rides.{Ride, Location, same_status, in_progress}
use arkride_backend.Entities.Safety.{
  EmergencyIncident, EmergencyStatus, EmergencyTriggeredBy, Place,
}
use arkride_backend.Ownership.{Principal, Parties, assert_party_to_ride}
use arkride_backend.DriverLocations.{find_by_driver_id}
use arkride_backend.World.{
  World, Event, emergency_triggered, Env, Action, Outcome, returned, thrown, return, throw,
  found_or, throw_if, asks, modify, modify_db, emit, ◌>>=◌, ◌>>◌, bad_request, not_found, forbidden,
  access_denied, ride_not_found, invalid_state, incident_not_found, queue_failed, EmergencyWebhook,
  trigger_emergency_protocol, broadcast_location,
}

-- src/emergency/dto/emergency.dto.ts
pub record TriggerEmergencyDto : Type 0 where
  pub ride_id : ℕ
  pub lat : Option ℕ
  pub lng : Option ℕ
  pub note : Option Text

pub record ResolveEmergencyDto : Type 0 where
  pub status : Option EmergencyStatus
  pub resolution_note : Option Text

-- The position that the caller sent.
abbrev pub sent_place : Option ℕ → Option ℕ → Option Place
sent_place (some lat) (some lng) = some (record { lat = lat; lng = lng; address = none })
sent_place _ _ = none

abbrev pub pickup_place : Ride → Place
pickup_place r = record { lat = r.pickup.lat; lng = r.pickup.lng; address = some r.pickup.address }

abbrev pub seen_place : Position → Place
seen_place p = record { lat = p.latitude; lng = p.longitude; address = none }

abbrev pub raised_by : Bool → EmergencyTriggeredBy
raised_by true = EmergencyTriggeredBy.driver
raised_by false = EmergencyTriggeredBy.rider

module _ (e : Env) where
  -- `try { ... } catch { }` around the last position, and the pickup, which every ride has.
  unfoldable pub last_seen : ℕ → Ride → Action (Option Place)
  unfolding find_by_driver_id
  last_seen driver_id ride w =
      let (r, v) = find_by_driver_id e driver_id w in
      elim r [
        | returned location ↦ (returned (some (seen_place location.position)), v)
        | thrown x ↦ (returned (some (pickup_place ride)), v)
      ]

  abbrev pub driver_place : Option ℕ → Ride → Action (Option Place)
  driver_place none ride = return (some (pickup_place ride))
  driver_place (some driver_id) ride = last_seen driver_id ride

  unfoldable pub resolve_location : Ride → TriggerEmergencyDto → Action (Option Place)
  unfolding last_seen
  resolve_location ride dto = elim (sent_place dto.lat dto.lng) [
    | some place ↦ return (some place)
    | none ↦ driver_place ride.driver_id ride
  ]

  -- `webhookQueue.add`: whether the job was taken.
  abbrev pub add_job : EmergencyWebhook → EmergencyIncident → Action Bool
  add_job job incident w =
      let accepts = e.queue_accepts job w in
      (
        returned accepts,
        if accepts
            then record w {
              webhooks = w.webhooks ++ record { name = job; incident = incident } ∷ [];
            }
            else w,
      )

  -- `dispatchEmergency`: under `Promise.all` both jobs are added, and it rejects if one of them was
  -- refused.
  unfoldable pub dispatch_emergency : EmergencyIncident → Action (Unit {0})
  dispatch_emergency incident = do
    protocol ← add_job trigger_emergency_protocol incident
    broadcast ← add_job broadcast_location incident
    throw_if (not (protocol && broadcast)) queue_failed

  abbrev pub new_incident :
      TriggerEmergencyDto → Ride → ℕ → Option Place → World → EmergencyIncident
  new_incident dto ride requester_id location w = record {
    id = e.incidents.new_id w.db.incidents;
    ride_id = ride.id;
    triggered_by = raised_by (is_id ride.driver_id requester_id);
    triggered_by_id = requester_id;
    location = location;
    note = dto.note;
    status = EmergencyStatus.active;
    resolution_note = none;
    resolved_at = none;
    created_at = w.now;
  }

  unfoldable pub trigger : TriggerEmergencyDto → (requester_id : ℕ) → Action EmergencyIncident
  unfolding resolve_location dispatch_emergency
  trigger dto requester_id = do
    ride ←
        found_or (not_found ride_not_found) (← asks (λ w. e.rides.find_one dto.ride_id w.db.rides))
    throw_if (not (same_status ride.status in_progress)) (bad_request invalid_state)
    throw_if (not (ride.user_id == requester_id || is_id ride.driver_id requester_id))
        (forbidden access_denied)
    location ← resolve_location ride dto
    incident ← asks (new_incident dto ride requester_id location)
    modify_db (λ db. record db { incidents = e.incidents.save incident db.incidents })
    emit (emergency_triggered incident ride.user_id ride.driver_id)
    dispatch_emergency incident
    return incident

  unfoldable pub find_by_ride_id : ℕ → Action (List EmergencyIncident)
  find_by_ride_id ride_id = asks (λ w. e.incidents.find (λ i. i.ride_id == ride_id) w.db.incidents)

  -- `findRideForAuthorization`, and the controller's check before the list.
  abbrev pub parties_of : Option Ride → Option Parties
  parties_of none = none
  parties_of (some r) = some (record { user_id = some r.user_id; driver_id = r.driver_id })

  unfoldable pub find_ride_for_authorization : ℕ → Action (Option Parties)
  find_ride_for_authorization ride_id = asks (λ w. parties_of (e.rides.find_one ride_id w.db.rides))

  unfoldable pub find_by_ride : Option Principal → ℕ → Action (List EmergencyIncident)
  unfolding find_ride_for_authorization find_by_ride_id assert_party_to_ride
  find_by_ride principal ride_id = do
    ride ← found_or (not_found ride_not_found) (← find_ride_for_authorization ride_id)
    assert_party_to_ride principal (some ride) access_denied
    find_by_ride_id ride_id

  unfoldable pub resolve : ℕ → ResolveEmergencyDto → Action EmergencyIncident
  resolve incident_id dto = do
    incident ←
        found_or (not_found incident_not_found)
          (← asks (λ w. e.incidents.find_one incident_id w.db.incidents))
    now ← asks (λ w. w.now)
    let saved = record incident {
      status = get_or dto.status EmergencyStatus.resolved;
      resolution_note = dto.resolution_note;
      resolved_at = some now;
    }
    modify_db (λ db. record db { incidents = e.incidents.save saved db.incidents })
    return saved
