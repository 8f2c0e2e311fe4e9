-- ===== src/Ledger/Frame.antt =====
-- What the writes to the ledger leave alone.
use arkride_backend.Common.{◌≡◌, List, [], ◌∷◌, arith}
use arkride_backend.Ledger.{WriteLedgerEntry, write_entry, write_entries}
use arkride_backend.World.{Env, World}

-- Two states that differ in the ledger alone.
pub record OnlyLedger (v w : World) : Type 0 where
  pub users : v.db.users ≡ w.db.users
  pub drivers : v.db.drivers ≡ w.db.drivers
  pub vehicles : v.db.vehicles ≡ w.db.vehicles
  pub rides : v.db.rides ≡ w.db.rides
  pub redis : v.redis ≡ w.redis
  pub events : v.events ≡ w.events
  pub now : v.now ≡ w.now

module _ (e : Env) where
  pub write_entry-OnlyLedger :
      (entry : WriteLedgerEntry) (w : World) → OnlyLedger (write_entry e entry w).1 w
  unfolding write_entry
  write_entry-OnlyLedger entry w = ground arith

  pub write_entries-OnlyLedger :
      (entries : List WriteLedgerEntry) (w : World) → OnlyLedger (write_entries e entries w).1 w
  unfolding write_entries
  write_entries-OnlyLedger [] w = ground arith
  write_entries-OnlyLedger (entry ∷ entries) w = ground (
    arith,
    write_entry-OnlyLedger entry w,
    write_entries-OnlyLedger entries (write_entry e entry w).1,
  )
