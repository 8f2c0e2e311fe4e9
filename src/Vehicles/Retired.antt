-- ===== src/Vehicles/Retired.antt =====
-- What a vehicle that was switched off is good for: `deactivate`, then `acceptRide`.
use arkride_backend.Common.{ℕ, ◌≡◌, false, some, Option-cases, inl, inr, arith}
use arkride_backend.Entities.Accounts.{Vehicle}
use arkride_backend.Entities.Rides.{Ride}
use arkride_backend.Platform.{ride_lock, holder}
use arkride_backend.Rides.Trip.{check_accept, accept_ride}
use arkride_backend.Vehicles.{ShownVehicle, deactivate, with_active}
use arkride_backend.World.{World, Env, Outcome-cases, returned, with_lock}

module _ (e : Env) where
  check_accept_retired :
      (ride_id driver_id id : ℕ) (w v : World) (r : Ride)
      → ((x : Vehicle) → e.vehicles.find_one id w.db.vehicles ≡ some x → x.is_active ≡ false)
      → ¬ (check_accept e ride_id driver_id id w ≡ (returned r, v))
  unfolding check_accept
  check_accept_retired ride_id driver_id id w v r off h =
      elim (Option-cases (e.vehicles.find_one id w.db.vehicles)) [
        | inl missing ↦ ground arith
        | inr (x, found) ↦ ground (arith, off x found)
      ]

  accept_ride_retired :
      (ride_id driver_id id : ℕ) (w : World) (r : Ride)
      → ((x : Vehicle) → e.vehicles.find_one id w.db.vehicles ≡ some x → x.is_active ≡ false)
      → ¬ ((accept_ride e ride_id driver_id id w).0 ≡ returned r)
  unfolding accept_ride with_lock
  accept_ride_retired ride_id driver_id id w r off h =
      let locked : World = record w {
        redis = (e.redis.set_nx (ride_lock ride_id) (holder driver_id) 10 w.redis).0;
      } in
      elim (Outcome-cases (check_accept e ride_id driver_id id locked)) [
        | inl (x, v, ends) ↦ absurd (check_accept_retired ride_id driver_id id locked v x off ends)
        | inr (x, v, ends) ↦ ground arith
      ]

  deactivated :
      (id : ℕ) (s : ShownVehicle) (w : World)
      → (deactivate e id w).0 ≡ returned s
      → (x : Vehicle) → e.vehicles.find_one id (deactivate e id w).1.db.vehicles ≡ some x
      → x.is_active ≡ false
  unfolding deactivate
  deactivated id s w h x found = elim (Option-cases (e.vehicles.find_one id w.db.vehicles)) [
    | inl missing ↦ ground arith
    | inr (v, was) ↦ ground (
      arith,
      e.vehicles.find_one_key id w.db.vehicles v was,
      e.vehicles.find_one_save id (with_active e false v) w.db.vehicles,
    )
  ]

  -- Once a vehicle has been switched off, no driver accepts any ride with it.
  pub deactivate_refuses :
      (id ride_id driver_id : ℕ) (s : ShownVehicle) (r : Ride) (w : World)
      → (deactivate e id w).0 ≡ returned s
      → ¬ ((accept_ride e ride_id driver_id id (deactivate e id w).1).0 ≡ returned r)
  deactivate_refuses id ride_id driver_id s r w h =
      accept_ride_retired ride_id driver_id id (deactivate e id w).1 r (deactivated id s w h)
