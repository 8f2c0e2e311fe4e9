-- ===== src/Rides/Requests/History.antt =====
-- What holds after any history of requests.
use arkride_backend.Common.{ℕ, ◌≡◌, ◌⊎◌, refl, Bool, true, false, Option, some, none, arith}
use arkride_backend.Entities.Rides.{
  Ride, RideStatus, requested, accepted, arrived, in_progress, completed, cancelled,
}
use arkride_backend.Rides.Workload.{IsFair}
use arkride_backend.Rides.Workload.Kept.{
  mark_arrived-IsFair, start_ride-IsFair, cancel_ride-IsFair, complete_ride-IsFair,
  create_ride-IsFair,
}
use arkride_backend.Rides.Workload.Accepting.{accept_ride-IsFair}
use arkride_backend.Rides.Lifecycle.{
  may_follow, Advances, Follows, create_ride-Follows, accept_ride-Follows, mark_arrived-Follows,
  start_ride-Follows, cancel_ride-Follows, complete_ride-Follows,
}
use arkride_backend.Rides.Requests.{
  Request, serve, create, accept, arrive, start, complete, cancel_by_user, cancel_by_driver, Step,
  request, elsewhere, Reach, here, next,
}
use arkride_backend.World.{World, Env}

-- One request, whatever it asks and however it ends, takes every ride along at most one arrow of
-- the life cycle and keeps its rider, category and estimate; no ride disappears.
pub serve-Follows :
    (e : Env) (q : Request) (w : World) (i : ℕ) (old : Ride)
    → e.rides.find_one i w.db.rides ≡ some old
    → Follows old (e.rides.find_one i (serve e q w).db.rides)
unfolding serve
serve-Follows e (create dto) w i old h = create_ride-Follows e i old dto w h
serve-Follows e (accept r d v) w i old h = accept_ride-Follows e i old r d v w h
serve-Follows e (arrive r d) w i old h = mark_arrived-Follows e i old r d w h
serve-Follows e (start r d) w i old h = start_ride-Follows e i old r d w h
serve-Follows e (complete r d) w i old h = complete_ride-Follows e i old r d w h
serve-Follows e (cancel_by_user r reason p) w i old h =
    cancel_ride-Follows e i old r reason (some p) none w h
serve-Follows e (cancel_by_driver r reason p) w i old h =
    cancel_ride-Follows e i old r reason none (some p) w h

serve-IsFair :
    (e : Env) (q : Request) (w : World) (d : ℕ)
    → IsFair e d w.db.rides
    → IsFair e d (serve e q w).db.rides
unfolding serve
serve-IsFair e (create dto) w d h = create_ride-IsFair e d dto w h
serve-IsFair e (accept r dr v) w d h = accept_ride-IsFair e d r dr v w h
serve-IsFair e (arrive r dr) w d h = mark_arrived-IsFair e d r dr w h
serve-IsFair e (start r dr) w d h = start_ride-IsFair e d r dr w h
serve-IsFair e (complete r dr) w d h = complete_ride-IsFair e d r dr w h
serve-IsFair e (cancel_by_user r reason p) w d h = cancel_ride-IsFair e d r reason (some p) none w h
serve-IsFair e (cancel_by_driver r reason p) w d h =
    cancel_ride-IsFair e d r reason none (some p) w h

Step-IsFair :
    {e : Env} {w v : World} (d : ℕ) → Step e w v → IsFair e d w.db.rides → IsFair e d v.db.rides
Step-IsFair {e} {w} d (request q) h = serve-IsFair e q w d h
Step-IsFair d (elsewhere same) h = rw same h

-- While requests are served one at a time, no driver ever has more than four active rides, nor
-- another one beside an exclusive one, if that was so at the start.
pub Reach-IsFair :
    {e : Env} {w v : World} (d : ℕ) → IsFair e d w.db.rides → Reach e w v → IsFair e d v.db.rides
Reach-IsFair d h here = h
Reach-IsFair d h (next r s) = Step-IsFair d s (Reach-IsFair d h r)

-- Many arrows.
abbrev pub may_become : RideStatus → RideStatus → Bool
may_become requested _ = true
may_become accepted requested = false
may_become accepted _ = true
may_become arrived requested = false
may_become arrived accepted = false
may_become arrived _ = true
may_become in_progress in_progress = true
may_become in_progress completed = true
may_become in_progress cancelled = true
may_become in_progress _ = false
may_become completed completed = true
may_become completed _ = false
may_become cancelled cancelled = true
may_become cancelled _ = false

pub record Becomes (old new : Ride) : Type 0 where
  pub status : may_become old.status new.status ≡ true
  pub user_id : new.user_id ≡ old.user_id
  pub category : new.category ≡ old.category
  pub estimated_fare : new.estimated_fare ≡ old.estimated_fare
  pub driver_id : (new.driver_id ≡ old.driver_id) ⊎ (old.status ≡ requested)

may_become-may_follow :
    (a b c : RideStatus) → may_become a b ≡ true → may_follow b c ≡ true → may_become a c ≡ true
may_become-may_follow a b c h k = ground arith

requested_first : (a : RideStatus) → may_become a requested ≡ true → a ≡ requested
requested_first a h = ground arith

may_become_refl : (s : RideStatus) → may_become s s ≡ true
may_become_refl s = ground arith

Becomes-Advances : (a b c : Ride) → Becomes a b → Advances b c → Becomes a c
Becomes-Advances a b c h k =
    ground (arith, may_become-may_follow a.status b.status c.status, requested_first a.status)

abbrev pub EndsAs : Ride → Option Ride → Type 0
EndsAs old none = ⊥
EndsAs old (some new) = Becomes old new

EndsAs-refl : (r : Ride) → Becomes r r
EndsAs-refl r = ground (arith, may_become_refl r.status)

EndsAs-Follows : (old mid : Ride) (o : Option Ride) → Becomes old mid → Follows mid o → EndsAs old o
EndsAs-Follows old mid none h k = k
EndsAs-Follows old mid (some new) h k = Becomes-Advances old mid new h k

Step-EndsAs :
    {e : Env} {w v : World} (i : ℕ) (old mid : Ride)
    → Step e w v
    → e.rides.find_one i w.db.rides ≡ some mid
    → Becomes old mid
    → EndsAs old (e.rides.find_one i v.db.rides)
Step-EndsAs {e} {w} i old mid (request q) found h =
    EndsAs-Follows old mid _ h (serve-Follows e q w i mid found)
Step-EndsAs i old mid (elsewhere same) found h = rw (same, found) h

pub EndsAs-inv :
    (old : Ride) (o : Option Ride) → EndsAs old o → (mid : Ride) × (o ≡ some mid) × Becomes old mid
EndsAs-inv old none h = absurd h
EndsAs-inv old (some mid) h = (mid, refl, h)

-- After any history of ride requests and of steps that leave the rides alone (the deletion of a driver
-- is none), a ride is still there, with its rider, category and estimate; its status is one that can
-- be reached from the old one, so that completed and cancelled rides stay as they are; and its driver
-- is the old one unless the ride was still only requested.
pub Reach-EndsAs :
    {e : Env} {w v : World} (i : ℕ) (old : Ride)
    → e.rides.find_one i w.db.rides ≡ some old
    → Reach e w v
    → EndsAs old (e.rides.find_one i v.db.rides)
Reach-EndsAs i old found here = rw found (EndsAs-refl old)
Reach-EndsAs {e} i old found (next r s) =
    let (mid, found_mid, h) = EndsAs-inv old _ (Reach-EndsAs i old found r) in
    Step-EndsAs i old mid s found_mid h
