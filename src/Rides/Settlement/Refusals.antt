-- ===== src/Rides/Settlement/Refusals.antt =====
-- Completing a ride when it cannot be settled, or has been, and the lock around it.
use arkride_backend.Common.{ℕ, ◌≡◌, some, none, arith, inl, inr, Option-cases}
use arkride_backend.Platform.{ride_lock, holder}
use arkride_backend.Entities.Rides.{Ride, completed}
use arkride_backend.Ledger.Frame.{write_entries-OnlyLedger}
use arkride_backend.Rides.Settlement.{settle, complete, complete_ride}
use arkride_backend.World.{with_lock, Env, World, returned}

-- Two states that differ in the database alone.
pub record OnlyDb (v w : World) : Type 0 where
  pub redis : v.redis ≡ w.redis
  pub events : v.events ≡ w.events
  pub now : v.now ≡ w.now

module _ (e : Env) where
  settle-OnlyDb : (driver_id : ℕ) (r : Ride) (w : World) → OnlyDb (settle e driver_id r w).1 w
  unfolding settle
  settle-OnlyDb driver_id r w = grind (arith, write_entries-OnlyLedger)

  pub complete-OnlyDb : (i driver_id : ℕ) (w : World) → OnlyDb (complete e i driver_id w).1 w
  unfolding complete
  complete-OnlyDb i driver_id w = elim (Option-cases (e.rides.find_one i w.db.rides)) [
    | inl missing ↦ ground arith
    | inr (r, found) ↦ ground (arith, settle-OnlyDb driver_id r w)
  ]

  -- Completing a completed ride again returns it and pays nothing: no table and no event changes.
  pub complete_ride_again :
      (i driver_id : ℕ) (r : Ride) (w : World)
      → e.rides.find_one i w.db.rides ≡ some r
      → r.driver_id ≡ some driver_id
      → r.status ≡ completed
      → w.redis (ride_lock i) ≡ none
      → ((complete_ride e i driver_id w).0 ≡ returned r)
        × ((complete_ride e i driver_id w).1.db ≡ w.db)
        × ((complete_ride e i driver_id w).1.events ≡ w.events)
  unfolding complete_ride complete with_lock
  complete_ride_again i driver_id r w found drives done free =
      ground (arith, e.redis.set_nx_won (ride_lock i) (holder driver_id) 10 w.redis)
