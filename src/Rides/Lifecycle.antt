-- ===== src/Rides/Lifecycle.antt =====
-- The status of a ride: requested, accepted, arrived, in progress, completed; or cancelled.
use arkride_backend.Common.{
  ℕ, ◌≡◌, ◌⊎◌, Bool, true, false, Option, some, none, String, List, inl, inr, Option-cases, arith,
}
use arkride_backend.Entities.Rides.{
  Ride, RideStatus, requested, accepted, arrived, in_progress, completed, cancelled,
}
use arkride_backend.Rides.Booking.{CreateRideDto, create_ride, new_ride, book}
use arkride_backend.Rides.Trip.{
  accepted_ride, reason_or_default, check_accept, commit_accept, accept_ride, mark_arrived,
  start_ride, cancel_ride,
}
use arkride_backend.Rides.Settlement.{complete, completed_ride, complete_ride}
use arkride_backend.Rides.Settlement.Effects.{settle-rides}
use arkride_backend.Rides.Workload.Accepting.{check_accept-IsAcceptable, check_accept-same}
use arkride_backend.World.{with_lock, Env, World, Outcome-cases, ◌>>=◌}

-- One handler takes a status to itself or along one arrow. A cancelled ride can be cancelled again.
abbrev pub may_follow : RideStatus → RideStatus → Bool
may_follow requested requested = true
may_follow requested accepted = true
may_follow requested cancelled = true
may_follow accepted accepted = true
may_follow accepted arrived = true
may_follow accepted cancelled = true
may_follow arrived arrived = true
may_follow arrived in_progress = true
may_follow arrived cancelled = true
may_follow in_progress in_progress = true
may_follow in_progress completed = true
may_follow in_progress cancelled = true
may_follow completed completed = true
may_follow cancelled cancelled = true
may_follow _ _ = false

-- What never changes about a ride: who booked it, what and where; and its driver, once accepted.
pub record Advances (old new : Ride) : Type 0 where
  pub status : may_follow old.status new.status ≡ true
  pub user_id : new.user_id ≡ old.user_id
  pub category : new.category ≡ old.category
  pub estimated_fare : new.estimated_fare ≡ old.estimated_fare
  pub driver_id : (new.driver_id ≡ old.driver_id) ⊎ (old.status ≡ requested)

-- The ride is still there, and has advanced or stayed.
abbrev pub Follows : Ride → Option Ride → Type 0
Follows old none = ⊥
Follows old (some new) = Advances old new

may_follow_refl : (s : RideStatus) → may_follow s s ≡ true
may_follow_refl s = ground arith

pub Advances-refl : (r : Ride) → Advances r r
Advances-refl r = ground (arith, may_follow_refl r.status)

module _ (e : Env) (i : ℕ) (old : Ride) where
  -- One write of a row that was read.
  Follows-save :
      (j : ℕ) (read new : Ride) (rides : List Ride)
      → e.rides.find_one i rides ≡ some old
      → e.rides.find_one j rides ≡ some read
      → new.id ≡ read.id
      → Advances read new
      → Follows old (e.rides.find_one i (e.rides.save new rides))
  Follows-save j read new rides found found_j same adv = ground (
    arith,
    e.rides.find_one_save i new rides,
    e.rides.find_one_key j rides read found_j,
    Advances-refl old,
  )

  Follows-stay :
      (rides : List Ride)
      → e.rides.find_one i rides ≡ some old
      → Follows old (e.rides.find_one i rides)
  Follows-stay rides found = rw found (Advances-refl old)

  pub mark_arrived-Follows :
      (ride_id driver_id : ℕ) (w : World)
      → e.rides.find_one i w.db.rides ≡ some old
      → Follows old (e.rides.find_one i (mark_arrived e ride_id driver_id w).1.db.rides)
  unfolding mark_arrived
  mark_arrived-Follows ride_id driver_id w found =
      elim (Option-cases (e.rides.find_one ride_id w.db.rides)) [
        | inl missing ↦ ground (arith, Follows-stay w.db.rides found)
        | inr (r, found_r) ↦ ground (
          arith,
          Follows-stay w.db.rides found,
          Follows-save ride_id r (record r { status = arrived }) w.db.rides found found_r,
        )
      ]

  pub start_ride-Follows :
      (ride_id driver_id : ℕ) (w : World)
      → e.rides.find_one i w.db.rides ≡ some old
      → Follows old (e.rides.find_one i (start_ride e ride_id driver_id w).1.db.rides)
  unfolding start_ride
  start_ride-Follows ride_id driver_id w found =
      elim (Option-cases (e.rides.find_one ride_id w.db.rides)) [
        | inl missing ↦ ground (arith, Follows-stay w.db.rides found)
        | inr (r, found_r) ↦ ground (
          arith,
          Follows-stay w.db.rides found,
          Follows-save ride_id r (record r { status = in_progress; started_at = some w.now })
              w.db.rides found found_r,
        )
      ]

  pub cancel_ride-Follows :
      (ride_id : ℕ) (reason : Option String) (user_id driver_id : Option ℕ) (w : World)
      → e.rides.find_one i w.db.rides ≡ some old
      → Follows old
          (e.rides.find_one i (cancel_ride e ride_id reason user_id driver_id w).1.db.rides)
  unfolding cancel_ride
  cancel_ride-Follows ride_id reason user_id driver_id w found =
      elim (Option-cases (e.rides.find_one ride_id w.db.rides)) [
        | inl missing ↦ ground (arith, Follows-stay w.db.rides found)
        | inr (r, found_r) ↦ ground (
          arith,
          Follows-stay w.db.rides found,
          Follows-save ride_id r
              (record r { status = cancelled; cancellation_reason = reason_or_default reason })
              w.db.rides found found_r,
        )
      ]

  complete-Follows :
      (ride_id driver_id : ℕ) (w : World)
      → e.rides.find_one i w.db.rides ≡ some old
      → Follows old (e.rides.find_one i (complete e ride_id driver_id w).1.db.rides)
  unfolding complete
  complete-Follows ride_id driver_id w found =
      elim (Option-cases (e.rides.find_one ride_id w.db.rides)) [
        | inl missing ↦ ground (arith, Follows-stay w.db.rides found)
        | inr (r, found_r) ↦ ground (
          arith,
          Follows-stay w.db.rides found,
          settle-rides e driver_id r w,
          Follows-save ride_id r (completed_ride r w) w.db.rides found found_r,
        )
      ]

  pub complete_ride-Follows :
      (ride_id driver_id : ℕ) (w : World)
      → e.rides.find_one i w.db.rides ≡ some old
      → Follows old (e.rides.find_one i (complete_ride e ride_id driver_id w).1.db.rides)
  unfolding complete_ride with_lock
  complete_ride-Follows ride_id driver_id w found =
      grind (arith, complete-Follows, Follows-stay w.db.rides found)

  check_and_commit-Follows :
      (ride_id driver_id vehicle_id : ℕ) (w : World)
      → e.rides.find_one i w.db.rides ≡ some old
      → Follows old (
          e.rides.find_one i
            ((check_accept e ride_id driver_id vehicle_id >>= commit_accept e driver_id vehicle_id)
              w).1.db.rides)
  unfolding commit_accept
  check_and_commit-Follows ride_id driver_id vehicle_id w found =
      elim (Outcome-cases (check_accept e ride_id driver_id vehicle_id w)) [
        | inl (r, v, ends) ↦
            let (a, same) = check_accept-IsAcceptable e ride_id driver_id vehicle_id w v r ends in
            ground (
              arith,
              Follows-stay w.db.rides found,
              Follows-save ride_id r (accepted_ride driver_id vehicle_id r w) w.db.rides found
                  a.found,
            )
        | inr (x, v, ends) ↦ ground (
          arith,
          Follows-stay w.db.rides found,
          check_accept-same e ride_id driver_id vehicle_id w,
        )
      ]

  pub accept_ride-Follows :
      (ride_id driver_id vehicle_id : ℕ) (w : World)
      → e.rides.find_one i w.db.rides ≡ some old
      → Follows old (e.rides.find_one i (accept_ride e ride_id driver_id vehicle_id w).1.db.rides)
  unfolding accept_ride with_lock
  accept_ride-Follows ride_id driver_id vehicle_id w found =
      grind (arith, check_and_commit-Follows, Follows-stay w.db.rides found)

  book-Follows :
      (dto : CreateRideDto) (w : World)
      → e.rides.find_one i w.db.rides ≡ some old
      → Follows old (e.rides.find_one i (book e dto w).1.db.rides)
  unfolding book
  book-Follows dto w found = ground (
    arith,
    Follows-stay w.db.rides found,
    e.rides.find_one_save i (new_ride e dto w) w.db.rides,
    e.rides.new_id_fresh w.db.rides,
  )

  pub create_ride-Follows :
      (dto : CreateRideDto) (w : World)
      → e.rides.find_one i w.db.rides ≡ some old
      → Follows old (e.rides.find_one i (create_ride e dto w).1.db.rides)
  unfolding create_ride
  create_ride-Follows dto w found = grind (arith, book-Follows, Follows-stay w.db.rides found)
