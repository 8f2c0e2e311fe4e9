-- ===== src/Tests/Safety.antt =====
-- Alarms, positions, ratings and sockets at concrete inputs.
use arkride_backend.Common.{
  ℕ, ◌≡◌, ◌↔◌, ◌||◌, refl, some, none, true, false, List, [], ◌∷◌, ◌==◌, if◌then◌else◌, ◌⊎◌,
}
use arkride_backend.Entities.Accounts.{Role}
use arkride_backend.Entities.Safety.{Rating, RateeType}
use arkride_backend.DriverLocations.{get_driver_location}
use arkride_backend.DriverLocations.Privacy.{MayWatch, get_driver_location-MayWatch}
use arkride_backend.Emergency.{trigger}
use arkride_backend.Emergency.Alarm.{trigger_records, incident_of}
use arkride_backend.Gateway.{
  Hub, user, ops_emergency, handle_join_ride, handle_connection, emergency_rooms, driver,
}
use arkride_backend.Gateway.Rooms.{here, next, connection, join_ride, no_sockets, may_enter, Reach}
use arkride_backend.Ownership.{Principal, is_party_to_ride, is_admin}
use arkride_backend.Platform.{Position}
use arkride_backend.Ratings.{create}
use arkride_backend.Ratings.Votes.{create-IsVote, IsVote}
use arkride_backend.Sample.Accounts.{praise, alarm}
use arkride_backend.Sample.Data.{idle, driving, running, chauffeur}
use arkride_backend.Sample.Services.{sample}
use arkride_backend.Auth.Sessions.{TokenPayload, resolve_principal}
use arkride_backend.Gateway.Watchers.{IsAdmitted, emergency_heard_by_parties}
use arkride_backend.World.{World, returned, thrown, queue_failed, emergency_triggered}

abbrev square : Position
square = record { latitude = 10; longitude = 21 }

abbrev seen : World
seen = record driving { positions = λ d. if d == 2 then some square else none }

trigger_records_example :
    let incident = incident_of sample alarm running 1 seen in
    let (r, v) = trigger sample alarm 1 seen in
    (sample.incidents.find_one incident.id v.db.incidents ≡ some incident)
    × ((v.events ≡ emergency_triggered incident 1 (some 2) ∷ [])
        × ((v.webhooks ≡ []) × (r ≡ thrown queue_failed)))
trigger_records_example = trigger_records sample alarm 1 running seen refl refl refl

abbrev passenger : Principal
passenger = record { id = 1; role = Role.user }

get_driver_location-MayWatch_example :
    ((get_driver_location sample (λ n. n) (some passenger) 2 seen).0
      ≡ returned (record { id = 2; name = 12; position = square }))
    ↔ MayWatch sample passenger 2 seen
get_driver_location-MayWatch_example =
    get_driver_location-MayWatch sample (λ n. n) passenger 2 chauffeur square seen refl refl

abbrev five : List Rating → ℕ
five rows = 500

abbrev vote : Rating
vote = record {
  id = 0;
  ride_id = 8;
  rater_id = 1;
  ratee_id = 2;
  ratee_type = RateeType.driver;
  rating = 5;
  comment = none;
}

create-IsVote_example :
    (sample.ratings.find_one 0 (create sample five 1 praise idle).1.db.ratings ≡ some vote)
    × ((vote.rater_id ≡ 1) × IsVote sample five 8 1 idle 2 RateeType.driver)
unfolding create
create-IsVote_example = create-IsVote sample five 1 praise vote idle refl

abbrev rider_token : TokenPayload
rider_token = record { sub = some 1; is_driver = false }

abbrev connected : Hub
connected = handle_connection sample 4 (some rider_token) driving (no_sockets sample)

abbrev watching : Hub
watching = handle_join_ride sample 4 7 driving connected

abbrev alarm_history : Reach sample (no_sockets sample) watching
alarm_history =
    next (next here (connection 4 (some rider_token) driving (λ r. refl))) (join_ride 4 7 driving)

emergency_heard_by_parties_example :
    (watching.joined 4 ops_emergency ≡ false)
    × (IsAdmitted sample (watching.principal 4) 7 alarm_history
        ⊎ ((may_enter (watching.principal 4) (user 1)
              || may_enter (watching.principal 4) (driver 2))
            ≡ true))
unfolding handle_join_ride handle_connection resolve_principal is_party_to_ride is_admin
    emergency_rooms
emergency_heard_by_parties_example =
    emergency_heard_by_parties sample 4 7 1 (some 2) alarm_history refl
