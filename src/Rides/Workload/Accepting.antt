-- ===== src/Rides/Workload/Accepting.antt =====
-- What `acceptRide` has checked when it writes, and what the write does to the load.
use arkride_backend.Common.{
  bit, sum_by-one, sum_by-any, ◌==◌, if◌then◌else◌, inl, inr, ℕ, ◌<◌, ◌≡◌, ◌⊎◌, false, some, length,
  any, arith,
}
use arkride_backend.Entities.Rides.{Ride, RideStatus}
use arkride_backend.Rides.Trip.{
  check_limits, accepted_ride, commit_accept, accept_ride, is_active_for, is_exclusive,
  check_accept,
}
use arkride_backend.Rides.Workload.{
  load_of, exclusive_load_of, IsFair, load-save, exclusive_load-save,
}
use arkride_backend.World.{with_lock, Env, World, returned, Outcome-cases, ◌>>=◌}

module _ (e : Env) where
  pub record IsAcceptable (ride_id driver_id : ℕ) (w : World) (r : Ride) : Type 0 where
    pub found : e.rides.find_one ride_id w.db.rides ≡ some r
    pub requested : r.status ≡ RideStatus.requested
    pub none_exclusive :
        any is_exclusive (e.rides.find (is_active_for driver_id) w.db.rides) ≡ false
    pub room :
        (length (e.rides.find (is_active_for driver_id) w.db.rides) ≡ 0)
        ⊎ ((is_exclusive r ≡ false)
            × (length (e.rides.find (is_active_for driver_id) w.db.rides) < 4))

  pub check_accept-IsAcceptable :
      (ride_id driver_id vehicle_id : ℕ) (w v : World) (r : Ride)
      → check_accept e ride_id driver_id vehicle_id w ≡ (returned r, v)
      → IsAcceptable ride_id driver_id w r × (v ≡ w)
  unfolding check_accept check_limits
  check_accept-IsAcceptable ride_id driver_id vehicle_id w v r h = ground arith

  -- The category decides: what is not exclusive is shared.
  pub load_of-accepted :
      (d driver_id vehicle_id : ℕ) (r : Ride) (w : World)
      → load_of d (accepted_ride driver_id vehicle_id r w) ≡ bit (driver_id == d)
  load_of-accepted d driver_id vehicle_id r w = ground arith

  pub exclusive_load_of-accepted :
      (d driver_id vehicle_id : ℕ) (r : Ride) (w : World)
      → exclusive_load_of d (accepted_ride driver_id vehicle_id r w)
        ≡ (if driver_id == d then bit (is_exclusive r) else 0)
  exclusive_load_of-accepted d driver_id vehicle_id r w = ground arith

  module _ (d driver_id : ℕ) (ride_id vehicle_id : ℕ) (w v : World) (r : Ride) where
    -- The write keeps every driver's load fair, if what was checked still holds.
    pub accepted_ride-IsFair :
        IsAcceptable ride_id driver_id w r
        → IsFair e d w.db.rides
        → IsFair e d (e.rides.save (accepted_ride driver_id vehicle_id r v) w.db.rides)
    accepted_ride-IsFair a h = ground (
      arith,
      e.rides.find_one_key ride_id w.db.rides r a.found,
      load-save e d (accepted_ride driver_id vehicle_id r v) r w.db.rides,
      exclusive_load-save e d (accepted_ride driver_id vehicle_id r v) r w.db.rides,
      load_of-accepted d driver_id vehicle_id r v,
      exclusive_load_of-accepted d driver_id vehicle_id r v,
      sum_by-one (e.rides.find (is_active_for driver_id) w.db.rides),
      sum_by-any is_exclusive (e.rides.find (is_active_for driver_id) w.db.rides) a.none_exclusive,
    )

  pub check_accept-same :
      (ride_id driver_id vehicle_id : ℕ) (w : World)
      → (check_accept e ride_id driver_id vehicle_id w).1 ≡ w
  unfolding check_accept check_limits
  check_accept-same ride_id driver_id vehicle_id w = ground arith

  check_and_commit-IsFair :
      (d ride_id driver_id vehicle_id : ℕ) (w : World)
      → IsFair e d w.db.rides
      → IsFair e d
          ((check_accept e ride_id driver_id vehicle_id >>= commit_accept e driver_id vehicle_id)
            w).1.db.rides
  unfolding commit_accept
  check_and_commit-IsFair d ride_id driver_id vehicle_id w h =
      elim (Outcome-cases (check_accept e ride_id driver_id vehicle_id w)) [
        | inl (r, v, ends) ↦
            let (a, same) = check_accept-IsAcceptable ride_id driver_id vehicle_id w v r ends in
            ground (arith, accepted_ride-IsFair d driver_id ride_id vehicle_id w v r a h)
        | inr (x, v, ends) ↦ ground (arith, check_accept-same ride_id driver_id vehicle_id w)
      ]

  pub accept_ride-IsFair :
      (d ride_id driver_id vehicle_id : ℕ) (w : World)
      → IsFair e d w.db.rides
      → IsFair e d (accept_ride e ride_id driver_id vehicle_id w).1.db.rides
  unfolding accept_ride with_lock
  accept_ride-IsFair d ride_id driver_id vehicle_id w h =
      grind (arith, check_and_commit-IsFair d ride_id driver_id vehicle_id)
