-- ===== src/Rides/Workload/Kept.antt =====
-- Every handler of `RidesService` keeps the load of every driver fair.
use arkride_backend.Common.{bit, Option, String, ℕ, ◌≡◌, some, arith, List, inl, inr, Option-cases}
use arkride_backend.Entities.Rides.{Ride, RideStatus}
use arkride_backend.Rides.Trip.{
  is_active_for, is_exclusive, reason_or_default, cancel_ride, mark_arrived, start_ride,
}
use arkride_backend.Rides.Settlement.{complete, completed_ride, complete_ride}
use arkride_backend.Rides.Settlement.Effects.{settle-rides}
use arkride_backend.Rides.Workload.{IsFair, IsFair-save}
use arkride_backend.Rides.Booking.{CreateRideDto, create_ride, new_ride, book}
use arkride_backend.World.{with_lock, Env, World}

module _ (e : Env) (d : ℕ) where
  -- A row read by its id is written back under that id.
  find_own :
      (i : ℕ) (rides : List Ride) {r : Ride}
      → e.rides.find_one i rides ≡ some r
      → e.rides.find_one r.id rides ≡ some r
  find_own i rides {r} h = simp (e.rides.find_one_key i rides r h) h

  pub mark_arrived-IsFair :
      (ride_id driver_id : ℕ) (w : World)
      → IsFair e d w.db.rides
      → IsFair e d (mark_arrived e ride_id driver_id w).1.db.rides
  unfolding mark_arrived
  mark_arrived-IsFair ride_id driver_id w h =
      elim (Option-cases (e.rides.find_one ride_id w.db.rides)) [
        | inl missing ↦ ground arith
        | inr (r, found) ↦ ground (
          arith,
          IsFair-save e d (record r { status = RideStatus.arrived }) r w.db.rides
              (find_own ride_id w.db.rides found),
        )
      ]

  pub start_ride-IsFair :
      (ride_id driver_id : ℕ) (w : World)
      → IsFair e d w.db.rides
      → IsFair e d (start_ride e ride_id driver_id w).1.db.rides
  unfolding start_ride
  start_ride-IsFair ride_id driver_id w h =
      elim (Option-cases (e.rides.find_one ride_id w.db.rides)) [
        | inl missing ↦ ground arith
        | inr (r, found) ↦ ground (
          arith,
          IsFair-save e d (record r { status = RideStatus.in_progress; started_at = some w.now }) r
              w.db.rides (find_own ride_id w.db.rides found),
        )
      ]

  pub cancel_ride-IsFair :
      (ride_id : ℕ) (reason : Option String) (user_id driver_id : Option ℕ) (w : World)
      → IsFair e d w.db.rides
      → IsFair e d (cancel_ride e ride_id reason user_id driver_id w).1.db.rides
  unfolding cancel_ride
  cancel_ride-IsFair ride_id reason user_id driver_id w h =
      elim (Option-cases (e.rides.find_one ride_id w.db.rides)) [
        | inl missing ↦ ground arith
        | inr (r, found) ↦ ground (
          arith,
          IsFair-save e d
              (record r {
                status = RideStatus.cancelled;
                cancellation_reason = reason_or_default reason;
              })
              r w.db.rides (find_own ride_id w.db.rides found),
        )
      ]

  complete-IsFair :
      (ride_id driver_id : ℕ) (w : World)
      → IsFair e d w.db.rides
      → IsFair e d (complete e ride_id driver_id w).1.db.rides
  unfolding complete
  complete-IsFair ride_id driver_id w h =
      elim (Option-cases (e.rides.find_one ride_id w.db.rides)) [
        | inl missing ↦ ground arith
        | inr (r, found) ↦ ground (
          arith,
          settle-rides e driver_id r w,
          IsFair-save e d (completed_ride r w) r w.db.rides (find_own ride_id w.db.rides found),
        )
      ]

  -- A rolled back settlement leaves the rides as they were.
  pub complete_ride-IsFair :
      (ride_id driver_id : ℕ) (w : World)
      → IsFair e d w.db.rides
      → IsFair e d (complete_ride e ride_id driver_id w).1.db.rides
  unfolding complete_ride with_lock
  complete_ride-IsFair ride_id driver_id w h = grind (arith, complete-IsFair)

  book-IsFair :
      (dto : CreateRideDto) (w : World)
      → IsFair e d w.db.rides
      → IsFair e d (book e dto w).1.db.rides
  unfolding book
  book-IsFair dto w h = ground (
    arith,
    e.rides.find_insert (λ _. 1) (is_active_for d) (new_ride e dto w) w.db.rides
        (e.rides.new_id_fresh w.db.rides),
    e.rides.find_insert (λ r. bit (is_exclusive r)) (is_active_for d) (new_ride e dto w) w.db.rides
        (e.rides.new_id_fresh w.db.rides),
  )

  pub create_ride-IsFair :
      (dto : CreateRideDto) (w : World)
      → IsFair e d w.db.rides
      → IsFair e d (create_ride e dto w).1.db.rides
  unfolding create_ride
  create_ride-IsFair dto w h = grind (arith, book-IsFair dto)
