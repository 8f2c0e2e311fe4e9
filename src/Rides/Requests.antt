-- ===== src/Rides/Requests.antt =====
-- The ride endpoints as a transition system: one request after another, in any order, with whatever
-- the rest of the program does to the other tables, to Redis and to the clock in between.
pub mod History
pub mod Race
pub mod Ending
use arkride_backend.Common.{ℕ, ◌≡◌, Option, some, none, String}
use arkride_backend.Rides.Booking.{CreateRideDto, create_ride}
use arkride_backend.Rides.Trip.{accept_ride, mark_arrived, start_ride, cancel_ride}
use arkride_backend.Rides.Settlement.{complete_ride}
use arkride_backend.World.{World, Env}

-- Deleting a driver, which writes rides too (src/drivers/drivers.service.ts, `remove`), is no step.
-- src/rides/rides.controller.ts: the calls that the endpoints make; the two cancel endpoints pass
-- one of the two ids each.
pub data Request : Type 0 where
  create : CreateRideDto → Request
  accept : (ride_id driver_id vehicle_id : ℕ) → Request
  arrive start complete : (ride_id driver_id : ℕ) → Request
  cancel_by_user cancel_by_driver : (ride_id : ℕ) → Option String → (principal : ℕ) → Request

unfoldable pub serve : Env → Request → World → World
serve e (create dto) w = (create_ride e dto w).1
serve e (accept r d v) w = (accept_ride e r d v w).1
serve e (arrive r d) w = (mark_arrived e r d w).1
serve e (start r d) w = (start_ride e r d w).1
serve e (complete r d) w = (complete_ride e r d w).1
serve e (cancel_by_user r reason p) w = (cancel_ride e r reason (some p) none w).1
serve e (cancel_by_driver r reason p) w = (cancel_ride e r reason none (some p) w).1

pub data Step (e : Env) (w : World) : World → Type 0 where
  request : (q : Request) → Step e w (serve e q w)
  elsewhere : {v : World} → v.db.rides ≡ w.db.rides → Step e w v

pub data Reach (e : Env) (w : World) : World → Type 0 where
  here : Reach e w w
  next : {u v : World} → Reach e w u → Step e u v → Reach e w v
