-- ===== src/Rides/Requests/Race.antt =====
-- Two accepts by one driver at the same time. Each holds the lock of its own ride, so nothing keeps
-- both from reading the driver's active rides before either writes.
use arkride_backend.Common.{ℕ, ◌≡◌, ◌≢◌, true, not, some, none, List, arith}
use arkride_backend.Platform.{ride_lock, holder}
use arkride_backend.Entities.Rides.{Ride, RideStatus}
use arkride_backend.Rides.Trip.{
  check_limits, is_exclusive, accepted_ride, check_accept, commit_accept,
}
use arkride_backend.Rides.Workload.{IsFair, load-save, exclusive_load-save}
use arkride_backend.Rides.Workload.Accepting.{
  check_accept-IsAcceptable, check_accept-same, load_of-accepted, exclusive_load_of-accepted,
}
use arkride_backend.World.Readers.{IsReader, readers}
use arkride_backend.World.{
  Env, World, Action, returned, throw_if, set_nx, ◌>>=◌, ◌>>◌, bad_request, ride_locked,
}

module _ (e : Env) (driver_id : ℕ) where
  -- The two handlers up to their writes, one `await` of each in turn.
  pub accept_race : (r s vehicle_r vehicle_s : ℕ) → Action Ride
  accept_race r s vehicle_r vehicle_s = do
    won_r ← set_nx e (ride_lock r) (holder driver_id) 10
    throw_if (not won_r) (bad_request ride_locked)
    won_s ← set_nx e (ride_lock s) (holder driver_id) 10
    throw_if (not won_s) (bad_request ride_locked)
    ride_r ← check_accept e r driver_id vehicle_r
    ride_s ← check_accept e s driver_id vehicle_s
    commit_accept e driver_id vehicle_r ride_r
    commit_accept e driver_id vehicle_s ride_s

  -- The checks do not read Redis.
  check_limits-IsReader : (ride : Ride) → IsReader (check_limits e driver_id ride)
  unfolding check_limits
  check_limits-IsReader ride = search readers depth 9

  check_accept-IsReader : (r vehicle : ℕ) → IsReader (check_accept e r driver_id vehicle)
  unfolding check_accept
  check_accept-IsReader r vehicle = search (readers, check_limits-IsReader) depth 12

  module _ (r s : ℕ) (a b : Ride) (vehicle_r vehicle_s : ℕ) (v w : World) (rides : List Ride)
      (found_a : e.rides.find_one r rides ≡ some a) (found_b : e.rides.find_one s rides ≡ some b)
      (open_a : a.status ≡ RideStatus.requested) (open_b : b.status ≡ RideStatus.requested)
      (two : r ≢ s) (lone : is_exclusive a ≡ true) where
    -- After both writes the driver has two rides more, and the first is exclusive.
    both_unfair : ¬ IsFair e driver_id (
        e.rides.save
          (accepted_ride driver_id vehicle_s b w)
          (e.rides.save (accepted_ride driver_id vehicle_r a v) rides))
    both_unfair fair = ground (
      arith,
      e.rides.find_one_key r rides a found_a,
      e.rides.find_one_key s rides b found_b,
      e.rides.find_one_save s (accepted_ride driver_id vehicle_r a v) rides,
      load-save e driver_id (accepted_ride driver_id vehicle_r a v) a rides,
      exclusive_load-save e driver_id (accepted_ride driver_id vehicle_r a v) a rides,
      load-save e driver_id (accepted_ride driver_id vehicle_s b w) b
          (e.rides.save (accepted_ride driver_id vehicle_r a v) rides),
      exclusive_load-save e driver_id (accepted_ride driver_id vehicle_s b w) b
          (e.rides.save (accepted_ride driver_id vehicle_r a v) rides),
      load_of-accepted e driver_id driver_id vehicle_r a v,
      load_of-accepted e driver_id driver_id vehicle_s b w,
      exclusive_load_of-accepted e driver_id driver_id vehicle_r a v,
      exclusive_load_of-accepted e driver_id driver_id vehicle_s b w,
    )

-- A driver whose two accepts, of an exclusive ride and of another one, would each succeed alone, gets
-- both when they overlap, although both locks are taken: the limits of `acceptRide` are then broken.
pub accept_race-unfair :
    (e : Env) (driver_id r s vehicle_r vehicle_s : ℕ) (a b : Ride) (w : World)
    → w.redis (ride_lock r) ≡ none
    → w.redis (ride_lock s) ≡ none
    → check_accept e r driver_id vehicle_r w ≡ (returned a, w)
    → check_accept e s driver_id vehicle_s w ≡ (returned b, w)
    → r ≢ s
    → is_exclusive a ≡ true
    → ¬ IsFair e driver_id (accept_race e driver_id r s vehicle_r vehicle_s w).1.db.rides
unfolding accept_race commit_accept
accept_race-unfair e driver_id r s vehicle_r vehicle_s a b w free_r free_s ok_a ok_b two lone =
    let (fa, _) = check_accept-IsAcceptable e r driver_id vehicle_r w w a ok_a in
    let (fb, _) = check_accept-IsAcceptable e s driver_id vehicle_s w w b ok_b in
    let c =
      (e.redis.set_nx (ride_lock s) (holder driver_id) 10
        (e.redis.set_nx (ride_lock r) (holder driver_id) 10 w.redis).0).0 in
    let v = record w { redis = c } in
    λ fair. ground (
      arith,
      e.redis.set_nx_won (ride_lock r) (holder driver_id) 10 w.redis,
      e.redis.set_nx_won (ride_lock s) (holder driver_id) 10
          (e.redis.set_nx (ride_lock r) (holder driver_id) 10 w.redis).0,
      e.redis.set_nx_get (ride_lock r) (holder driver_id) 10 w.redis (ride_lock s),
      check_accept-IsReader e driver_id r vehicle_r w c,
      check_accept-IsReader e driver_id s vehicle_s w c,
      check_accept-same e r driver_id vehicle_r v,
      check_accept-same e s driver_id vehicle_s v,
      both_unfair e driver_id r s a b vehicle_r vehicle_s v v w.db.rides fa.found fb.found
          fa.requested fb.requested two lone,
    )
