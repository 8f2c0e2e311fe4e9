-- ===== src/Rides/Settlement/Effects.antt =====
-- What `settle` writes, table by table.
use arkride_backend.Common.{ℕ, ◌≡◌, arith}
use arkride_backend.Entities.Rides.{Ride}
use arkride_backend.Ledger.Frame.{write_entries-OnlyLedger}
use arkride_backend.Rides.Settlement.{settle, completed_ride}
use arkride_backend.World.{Env, World}

module _ (e : Env) where
  -- Settling writes the ride once; the ledger is another table.
  pub settle-rides :
      (driver_id : ℕ) (r : Ride) (w : World)
      → (settle e driver_id r w).1.db.rides ≡ e.rides.save (completed_ride r w) w.db.rides
  unfolding settle
  settle-rides driver_id r w = grind (arith, write_entries-OnlyLedger)
