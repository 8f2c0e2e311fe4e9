-- ===== src/Drivers/Standing/Deletion.antt =====
-- What becomes of the ride of a driver whose row is deleted.
use arkride_backend.Common.{
  ℕ, ◌≡◌, Bool, true, false, not, ◌&&◌, Option, some, none, is_some, String, List, Option-cases,
  inl, inr, arith, if◌then◌else◌, is_id, refl,
}
use arkride_backend.Entities.Rides.{Ride, same_status, arrived, in_progress, cancelled}
use arkride_backend.Rides.Booking.{CreateRideDto, create_ride, new_ride, book}
use arkride_backend.Rides.Requests.{
  Request, create, accept, arrive, start, complete, cancel_by_user, cancel_by_driver, serve, Step,
  request, elsewhere, Reach, here, next,
}
use arkride_backend.Rides.Settlement.{completed_ride, complete_ride}
use arkride_backend.Rides.Settlement as Settlement
use arkride_backend.Rides.Settlement.Effects.{settle-rides}
use arkride_backend.Rides.Trip.{
  accepted_ride, reason_or_default, check_accept, commit_accept, accept_ride, mark_arrived,
  start_ride, cancel_ride,
}
use arkride_backend.Rides.Workload.Accepting.{check_accept-IsAcceptable, check_accept-same}
use arkride_backend.World.{with_lock, Env, World, Outcome-cases, ◌>>=◌, returned}
use arkride_backend.Auth.Tokens.{AuthEnv, revoke_all_for_subject}
use arkride_backend.Drivers.Standing.{remove, is_vehicle_of, vehicle_row}

-- Under way, and nobody drives.
abbrev pub is_stranded : Ride → Bool
is_stranded r = not (is_some r.driver_id) && same_status r.status in_progress

module _ (e : Env) (i : ℕ) (o : Ride) (lost : is_stranded o ≡ true) where
  save_stays :
      (j : ℕ) (read new : Ride) (rides : List Ride)
      → e.rides.find_one i rides ≡ some o
      → e.rides.find_one j rides ≡ some read
      → new.id ≡ read.id
      → is_stranded read ≡ false
      → e.rides.find_one i (e.rides.save new rides) ≡ some o
  save_stays j read new rides found found_j same driven =
      ground (arith, e.rides.find_one_save i new rides, e.rides.find_one_key j rides read found_j)

  arrive_stays :
      (j d : ℕ) (w : World)
      → e.rides.find_one i w.db.rides ≡ some o
      → e.rides.find_one i (mark_arrived e j d w).1.db.rides ≡ some o
  unfolding mark_arrived
  arrive_stays j d w found = elim (Option-cases (e.rides.find_one j w.db.rides)) [
    | inl missing ↦ ground arith
    | inr (r, found_r) ↦
        ground (arith, save_stays j r (record r { status = arrived }) w.db.rides found found_r)
  ]

  start_stays :
      (j d : ℕ) (w : World)
      → e.rides.find_one i w.db.rides ≡ some o
      → e.rides.find_one i (start_ride e j d w).1.db.rides ≡ some o
  unfolding start_ride
  start_stays j d w found = elim (Option-cases (e.rides.find_one j w.db.rides)) [
    | inl missing ↦ ground arith
    | inr (r, found_r) ↦ ground (
      arith,
      save_stays j r (record r { status = in_progress; started_at = some w.now }) w.db.rides found
          found_r,
    )
  ]

  cancel_by_user_stays :
      (j : ℕ) (reason : Option String) (u : ℕ) (w : World)
      → e.rides.find_one i w.db.rides ≡ some o
      → e.rides.find_one i (cancel_ride e j reason (some u) none w).1.db.rides ≡ some o
  unfolding cancel_ride
  cancel_by_user_stays j reason u w found = elim (Option-cases (e.rides.find_one j w.db.rides)) [
    | inl missing ↦ ground arith
    | inr (r, found_r) ↦ ground (
      arith,
      save_stays j r
          (record r { status = cancelled; cancellation_reason = reason_or_default reason })
          w.db.rides found found_r,
    )
  ]

  cancel_by_driver_stays :
      (j : ℕ) (reason : Option String) (d : ℕ) (w : World)
      → e.rides.find_one i w.db.rides ≡ some o
      → e.rides.find_one i (cancel_ride e j reason none (some d) w).1.db.rides ≡ some o
  unfolding cancel_ride
  cancel_by_driver_stays j reason d w found = elim (Option-cases (e.rides.find_one j w.db.rides)) [
    | inl missing ↦ ground arith
    | inr (r, found_r) ↦ ground (
      arith,
      save_stays j r
          (record r { status = cancelled; cancellation_reason = reason_or_default reason })
          w.db.rides found found_r,
    )
  ]

  complete_body_stays :
      (j d : ℕ) (w : World)
      → e.rides.find_one i w.db.rides ≡ some o
      → e.rides.find_one i (Settlement.complete e j d w).1.db.rides ≡ some o
  unfolding Settlement.complete
  complete_body_stays j d w found = elim (Option-cases (e.rides.find_one j w.db.rides)) [
    | inl missing ↦ ground arith
    | inr (r, found_r) ↦
        ground (
          arith,
          settle-rides e d r w,
          save_stays j r (completed_ride r w) w.db.rides found found_r,
        )
  ]

  complete_stays :
      (j d : ℕ) (w : World)
      → e.rides.find_one i w.db.rides ≡ some o
      → e.rides.find_one i (complete_ride e j d w).1.db.rides ≡ some o
  unfolding complete_ride with_lock
  complete_stays j d w found = grind (arith, complete_body_stays)

  accept_body_stays :
      (j d v : ℕ) (w : World)
      → e.rides.find_one i w.db.rides ≡ some o
      → e.rides.find_one i ((check_accept e j d v >>= commit_accept e d v) w).1.db.rides ≡ some o
  unfolding commit_accept
  accept_body_stays j d v w found = elim (Outcome-cases (check_accept e j d v w)) [
    | inl (r, u, ends) ↦
        let (a, same) = check_accept-IsAcceptable e j d v w u r ends in
        ground (arith, a.requested, save_stays j r (accepted_ride d v r w) w.db.rides found a.found)
    | inr (x, u, ends) ↦ ground (arith, check_accept-same e j d v w)
  ]

  accept_stays :
      (j d v : ℕ) (w : World)
      → e.rides.find_one i w.db.rides ≡ some o
      → e.rides.find_one i (accept_ride e j d v w).1.db.rides ≡ some o
  unfolding accept_ride with_lock
  accept_stays j d v w found = grind (arith, accept_body_stays)

  book_stays :
      (dto : CreateRideDto) (w : World)
      → e.rides.find_one i w.db.rides ≡ some o
      → e.rides.find_one i (book e dto w).1.db.rides ≡ some o
  unfolding book
  book_stays dto w found = ground (
    arith,
    e.rides.find_one_save i (new_ride e dto w) w.db.rides,
    e.rides.new_id_fresh w.db.rides,
  )

  create_stays :
      (dto : CreateRideDto) (w : World)
      → e.rides.find_one i w.db.rides ≡ some o
      → e.rides.find_one i (create_ride e dto w).1.db.rides ≡ some o
  unfolding create_ride
  create_stays dto w found = grind (arith, book_stays)

  serve_stays :
      (q : Request) (w : World)
      → e.rides.find_one i w.db.rides ≡ some o
      → e.rides.find_one i (serve e q w).db.rides ≡ some o
  unfolding serve
  serve_stays (create dto) w found = create_stays dto w found
  serve_stays (accept r d v) w found = accept_stays r d v w found
  serve_stays (arrive r d) w found = arrive_stays r d w found
  serve_stays (start r d) w found = start_stays r d w found
  serve_stays (complete r d) w found = complete_stays r d w found
  serve_stays (cancel_by_user r reason p) w found = cancel_by_user_stays r reason p w found
  serve_stays (cancel_by_driver r reason p) w found = cancel_by_driver_stays r reason p w found

  step_stays :
      {w v : World}
      → Step e w v
      → e.rides.find_one i w.db.rides ≡ some o
      → e.rides.find_one i v.db.rides ≡ some o
  step_stays {w = w} (request q) found = serve_stays q w found
  step_stays (elsewhere same) found = rw same found

  pub history_stays :
      {w v : World}
      → Reach e w v
      → e.rides.find_one i w.db.rides ≡ some o
      → e.rides.find_one i v.db.rides ≡ some o
  history_stays here found = found
  history_stays (next before step) found = step_stays step (history_stays before found)

module _ (e : Env) (a : AuthEnv) where
  -- The ride once its driver is gone, with the driver's vehicles.
  abbrev pub without_driver : ℕ → World → Ride → Ride
  without_driver id w r = record r {
    driver_id = none;
    vehicle_id =
        if is_vehicle_of e a id (vehicle_row e a w.db r.vehicle_id) then none else r.vehicle_id;
  }

  remove_strands :
      (id i : ℕ) (r : Ride) (w : World)
      → e.rides.find_one i w.db.rides ≡ some r
      → r.driver_id ≡ some id
      → (remove e a id w).0 ≡ returned tt
      → e.rides.find_one i (remove e a id w).1.db.rides ≡ some (without_driver id w r)
  unfolding remove revoke_all_for_subject
  remove_strands id i r w found drives done =
      elim (Option-cases (e.drivers.find_one id w.db.drivers)) [
        | inl missing ↦ ground arith
        | inr (d, found_d) ↦
            let unowned : List Ride =
              e.rides.update_where (λ x. is_vehicle_of e a id (vehicle_row e a w.db x.vehicle_id))
                (λ x. record x { vehicle_id = none }) w.db.rides in
            ground (
              arith,
              e.drivers.find_one_key id w.db.drivers d found_d,
              e.rides.find_one_update_where
                  (λ x. is_vehicle_of e a id (vehicle_row e a w.db x.vehicle_id))
                  (λ x. record x { vehicle_id = none }) i w.db.rides (λ x. refl),
              e.rides.find_one_update_where (λ x. is_id x.driver_id id)
                  (λ x. record x { driver_id = none }) i unowned (λ x. refl),
            )
      ]

  -- A ride in progress whose driver's row is deleted stays in progress with no driver: the ride keeps
  -- everything but the driver and, where it was the driver's, the vehicle, and no history of ride
  -- requests, and of steps that leave the rides alone, changes it again: nobody can complete it and
  -- nobody can cancel it.
  pub deleted_driver_strands :
      (id i : ℕ) (r : Ride) (w u : World)
      → e.rides.find_one i w.db.rides ≡ some r
      → r.driver_id ≡ some id
      → r.status ≡ in_progress
      → (remove e a id w).0 ≡ returned tt
      → Reach e (remove e a id w).1 u
      → e.rides.find_one i u.db.rides ≡ some (without_driver id w r)
  deleted_driver_strands id i r w u found drives driving done later =
      history_stays e i (without_driver id w r) (ground arith) later
        (remove_strands id i r w found drives done)
