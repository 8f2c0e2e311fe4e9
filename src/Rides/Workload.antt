-- ===== src/Rides/Workload.antt =====
-- How many rides a driver has at once, and what one write to the rides table does to it.
pub mod Accepting
pub mod Kept
use arkride_backend.Common.{
  ℕ, ◌+◌, ◌≤◌, ◌<◌, ◌≡◌, Bool, true, false, some, none, bit, if◌then◌else◌, sum_by, arith, List,
}
use arkride_backend.Entities.Rides.{Ride}
use arkride_backend.Rides.Trip.{is_active_for, is_exclusive}
use arkride_backend.World.{Env}

-- The driver's accepted, arrived and running rides, and those of them that allow no other.
module _ (e : Env) (d : ℕ) (rides : List Ride) where
  abbrev pub load : ℕ
  load = sum_by (λ _. 1) (e.rides.find (is_active_for d) rides)

  abbrev pub exclusive_load : ℕ
  exclusive_load = sum_by (λ r. bit (is_exclusive r)) (e.rides.find (is_active_for d) rides)

  -- At most four rides, and only one where one of them is exclusive.
  pub record IsFair : Type 0 where
    pub within : load ≤ 4
    pub alone : 0 < exclusive_load → load ≤ 1

-- What one row adds.
abbrev pub load_of : ℕ → Ride → ℕ
load_of d r = if is_active_for d r then 1 else 0

abbrev pub exclusive_load_of : ℕ → Ride → ℕ
exclusive_load_of d r = if is_active_for d r then bit (is_exclusive r) else 0

module _ (e : Env) (d : ℕ) (new old : Ride) (rides : List Ride)
    (found : e.rides.find_one new.id rides ≡ some old) where
  pub load-save : load e d (e.rides.save new rides) + load_of d old ≡ load e d rides + load_of d new
  load-save = e.rides.find_update (λ _. 1) (is_active_for d) new old rides found

  pub exclusive_load-save :
      exclusive_load e d (e.rides.save new rides) + exclusive_load_of d old
      ≡ exclusive_load e d rides + exclusive_load_of d new
  exclusive_load-save =
      e.rides.find_update (λ r. bit (is_exclusive r)) (is_active_for d) new old rides found

  -- A write that makes no ride active keeps the load fair.
  pub IsFair-save :
      (load_of d new ≤ load_of d old)
      → (exclusive_load_of d new ≤ exclusive_load_of d old)
      → IsFair e d rides
      → IsFair e d (e.rides.save new rides)
  IsFair-save less fewer h = grind (arith, load-save, exclusive_load-save)
