-- ===== src/Rides/Endpoints/Refinement.antt =====
-- The endpoints keep the contract of the trip machine.
use arkride_backend.Common.{
  ℕ, ◌≡◌, refl, Bool, true, false, Option, some, none, is_id, String, List, inl, inr, Option-cases,
  ◌==◌, if◌then◌else◌, arith, Bool-cases,
}
use arkride_backend.Entities.Accounts.{Role}
use arkride_backend.Entities.Rides.{Ride, same_status, arrived, in_progress, completed, cancelled}
use arkride_backend.Auth.Sessions.{ResolvedPrincipal, can_activate}
use arkride_backend.Rides.Booking.{CreateRideDto, create_ride, new_ride, book}
use arkride_backend.Rides.Endpoints.{
  Call, create, cancel_by_user, cancel_by_driver, accept, arrive, start, complete, handle, call,
  with_user,
}
use arkride_backend.Rides.Endpoints.Contract.{
  trip_of, move, Moves, moved_accepted, moved_on, moved_off_by_driver, moved_off_by_user,
}
use arkride_backend.Rides.Trip.{
  accepted_ride, reason_or_default, check_accept, commit_accept, accept_ride, mark_arrived,
  start_ride, cancel_ride,
}
use arkride_backend.Rides.Settlement.{completed_ride, complete_ride}
use arkride_backend.Rides.Settlement as Settlement
use arkride_backend.Rides.Settlement.Effects.{settle-rides}
use arkride_backend.Rides.Workload.Accepting.{check_accept-IsAcceptable, check_accept-same}
use arkride_backend.World.{with_lock, Env, World, Outcome-cases, ◌>>=◌}

module _ (e : Env) (p : ResolvedPrincipal) (i : ℕ) (old : Ride) where
  -- What one write of a row that was read makes of the row.
  saved_row :
      (P : Option Ride → Type 0) (j : ℕ) (read new : Ride) (rides : List Ride)
      → e.rides.find_one i rides ≡ some old
      → e.rides.find_one j rides ≡ some read
      → new.id ≡ read.id
      → (some read ≡ some old → P (some new))
      → P (some old)
      → P (e.rides.find_one i (e.rides.save new rides))
  saved_row P j read new rides found found_j same written kept =
      rw (e.rides.find_one_save i new rides) (written_or (new.id == i) refl)
    where
      written_or :
          (b : Bool) → (new.id == i) ≡ b → P (if b then some new else e.rides.find_one i rides)
      written_or true is_it = written (
          let at : j ≡ i = ground (arith, e.rides.find_one_key j rides read found_j) in
          ground (arith, at))
      written_or false other = rw found kept

  Moves-save :
      (j : ℕ) (read new : Ride) (rides : List Ride)
      → e.rides.find_one i rides ≡ some old
      → e.rides.find_one j rides ≡ some read
      → new.id ≡ read.id
      → move p new.status (trip_of read) ≡ some (trip_of new)
      → Moves p old (e.rides.find_one i (e.rides.save new rides))
  Moves-save j read new rides found found_j same moved =
      saved_row (Moves p old) j read new rides found found_j same
        (λ is_old. inr (ground (arith, is_old, moved))) (inl refl)

  Moves-stay :
      (rides : List Ride)
      → e.rides.find_one i rides ≡ some old
      → Moves p old (e.rides.find_one i rides)
  Moves-stay rides found = rw found (inl refl)

  arrive-Moves :
      (j : ℕ) (w : World)
      → p.role ≡ Role.driver
      → e.rides.find_one i w.db.rides ≡ some old
      → Moves p old (e.rides.find_one i (mark_arrived e j p.id w).1.db.rides)
  unfolding mark_arrived
  arrive-Moves j w drives found = elim (Option-cases (e.rides.find_one j w.db.rides)) [
    | inl missing ↦ ground (arith, Moves-stay w.db.rides found)
    | inr (r, found_r) ↦ ground (
      arith,
      Moves-stay w.db.rides found,
      moved_on p r arrived drives,
      Moves-save j r (record r { status = arrived }) w.db.rides found found_r refl,
    )
  ]

  start-Moves :
      (j : ℕ) (w : World)
      → p.role ≡ Role.driver
      → e.rides.find_one i w.db.rides ≡ some old
      → Moves p old (e.rides.find_one i (start_ride e j p.id w).1.db.rides)
  unfolding start_ride
  start-Moves j w drives found = elim (Option-cases (e.rides.find_one j w.db.rides)) [
    | inl missing ↦ ground (arith, Moves-stay w.db.rides found)
    | inr (r, found_r) ↦ ground (
      arith,
      Moves-stay w.db.rides found,
      moved_on p r in_progress drives,
      Moves-save j r (record r { status = in_progress; started_at = some w.now }) w.db.rides found
          found_r refl,
    )
  ]

  driver_off-Moves :
      (j : ℕ) (r : Ride) (reason : Option String) (rides : List Ride)
      → p.role ≡ Role.driver
      → e.rides.find_one i rides ≡ some old
      → e.rides.find_one j rides ≡ some r
      → is_id r.driver_id p.id ≡ true
      → same_status r.status completed ≡ false
      → Moves p old (
          e.rides.find_one i
            (e.rides.save (record r { status = cancelled; cancellation_reason = reason }) rides))
  driver_off-Moves j r reason rides drives found found_r mine over =
      Moves-save j r (record r { status = cancelled; cancellation_reason = reason }) rides found
        found_r refl (moved_off_by_driver p r drives mine over)

  cancel_by_driver-Moves :
      (j : ℕ) (reason : Option String) (w : World)
      → p.role ≡ Role.driver
      → e.rides.find_one i w.db.rides ≡ some old
      → Moves p old (e.rides.find_one i (cancel_ride e j reason none (some p.id) w).1.db.rides)
  unfolding cancel_ride
  cancel_by_driver-Moves j reason w drives found =
      elim (Option-cases (e.rides.find_one j w.db.rides)) [
        | inl missing ↦ ground (arith, Moves-stay w.db.rides found)
        | inr (r, found_r) ↦ elim (Bool-cases (same_status r.status completed)) [
          | inl over ↦ ground (arith, Moves-stay w.db.rides found)
          | inr going ↦ elim (Bool-cases (is_id r.driver_id p.id)) [
            | inl mine ↦ ground (
              arith,
              Moves-stay w.db.rides found,
              driver_off-Moves j r (reason_or_default reason) w.db.rides drives found found_r mine
                  going,
            )
            | inr other ↦ ground (arith, Moves-stay w.db.rides found)
          ]
        ]
      ]

  cancel_by_user-Moves :
      (j : ℕ) (reason : Option String) (w : World)
      → p.role ≡ Role.user
      → e.rides.find_one i w.db.rides ≡ some old
      → Moves p old (e.rides.find_one i (cancel_ride e j reason (some p.id) none w).1.db.rides)
  unfolding cancel_ride
  cancel_by_user-Moves j reason w rides found =
      elim (Option-cases (e.rides.find_one j w.db.rides)) [
        | inl missing ↦ ground (arith, Moves-stay w.db.rides found)
        | inr (r, found_r) ↦ ground (
          arith,
          Moves-stay w.db.rides found,
          moved_off_by_user p r rides,
          Moves-save j r
              (record r { status = cancelled; cancellation_reason = reason_or_default reason })
              w.db.rides found found_r refl,
        )
      ]

  complete_body-Moves :
      (j : ℕ) (w : World)
      → p.role ≡ Role.driver
      → e.rides.find_one i w.db.rides ≡ some old
      → Moves p old (e.rides.find_one i (Settlement.complete e j p.id w).1.db.rides)
  unfolding Settlement.complete
  complete_body-Moves j w drives found = elim (Option-cases (e.rides.find_one j w.db.rides)) [
    | inl missing ↦ ground (arith, Moves-stay w.db.rides found)
    | inr (r, found_r) ↦ ground (
      arith,
      Moves-stay w.db.rides found,
      settle-rides e p.id r w,
      moved_on p r completed drives,
      Moves-save j r (completed_ride r w) w.db.rides found found_r refl,
    )
  ]

  complete-Moves :
      (j : ℕ) (w : World)
      → p.role ≡ Role.driver
      → e.rides.find_one i w.db.rides ≡ some old
      → Moves p old (e.rides.find_one i (complete_ride e j p.id w).1.db.rides)
  unfolding complete_ride with_lock
  complete-Moves j w drives found = grind (arith, complete_body-Moves, Moves-stay w.db.rides found)

  accept_body-Moves :
      (j v : ℕ) (w : World)
      → p.role ≡ Role.driver
      → e.rides.find_one i w.db.rides ≡ some old
      → Moves p old
          (e.rides.find_one i ((check_accept e j p.id v >>= commit_accept e p.id v) w).1.db.rides)
  unfolding commit_accept
  accept_body-Moves j v w drives found = elim (Outcome-cases (check_accept e j p.id v w)) [
    | inl (r, u, ends) ↦
        let (a, same) = check_accept-IsAcceptable e j p.id v w u r ends in
        ground (
          arith,
          Moves-save j r (accepted_ride p.id v r w) w.db.rides found a.found refl
              (moved_accepted p r v w drives a.requested),
        )
    | inr (x, u, ends) ↦ ground (arith, Moves-stay w.db.rides found, check_accept-same e j p.id v w)
  ]

  accept-Moves :
      (j v : ℕ) (w : World)
      → p.role ≡ Role.driver
      → e.rides.find_one i w.db.rides ≡ some old
      → Moves p old (e.rides.find_one i (accept_ride e j p.id v w).1.db.rides)
  unfolding accept_ride with_lock
  accept-Moves j v w drives found = grind (arith, accept_body-Moves, Moves-stay w.db.rides found)

  book-Moves :
      (dto : CreateRideDto) (w : World)
      → e.rides.find_one i w.db.rides ≡ some old
      → Moves p old (e.rides.find_one i (book e dto w).1.db.rides)
  unfolding book
  book-Moves dto w found = ground (
    arith,
    Moves-stay w.db.rides found,
    e.rides.find_one_save i (new_ride e dto w) w.db.rides,
    e.rides.new_id_fresh w.db.rides,
  )

  create-Moves :
      (dto : CreateRideDto) (w : World)
      → e.rides.find_one i w.db.rides ≡ some old
      → Moves p old (e.rides.find_one i (create_ride e dto w).1.db.rides)
  unfolding create_ride
  create-Moves dto w found = grind (arith, book-Moves, Moves-stay w.db.rides found)

  -- One call of an endpoint by a principal, whatever it asks and however it ends, leaves every stored
  -- ride there, and either as the parties know it or after one move that the machine allows that
  -- principal: a driver takes a waiting ride, and takes a ride of their own on by one stage;
  -- the rider calls it off before it is under way, its driver at any time before it is over.
  pub call-Moves :
      (c : Call) (w : World)
      → e.rides.find_one i w.db.rides ≡ some old
      → Moves p old (e.rides.find_one i (call e p c w).1.db.rides)
  unfolding call handle can_activate
  call-Moves (create body) w found =
      ground (arith, create-Moves (with_user p.id body) w found, Moves-stay w.db.rides found)
  call-Moves (cancel_by_user j reason) w found =
      ground (arith, cancel_by_user-Moves j reason w, Moves-stay w.db.rides found)
  call-Moves (cancel_by_driver j reason) w found =
      ground (arith, cancel_by_driver-Moves j reason w, Moves-stay w.db.rides found)
  call-Moves (accept j v) w found = ground (arith, accept-Moves j v w, Moves-stay w.db.rides found)
  call-Moves (arrive j) w found = ground (arith, arrive-Moves j w, Moves-stay w.db.rides found)
  call-Moves (start j) w found = ground (arith, start-Moves j w, Moves-stay w.db.rides found)
  call-Moves (complete j) w found = ground (arith, complete-Moves j w, Moves-stay w.db.rides found)
