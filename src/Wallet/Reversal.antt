-- ===== src/Wallet/Reversal.antt =====
-- The writes that both kinds of movement share.
use arkride_backend.Common.{ℕ, ◌≡◌, some, inl, inr, Option-cases, arith}
use arkride_backend.Common.Int.{◌+ℤ◌}
use arkride_backend.Money.{Naira, Kobo, to_kobo}
use arkride_backend.Entities.Accounts.{Driver}
use arkride_backend.Wallet.{wallet, reverse_driver_balance, get_balance}
use arkride_backend.Wallet.Amounts.{reverse-to_kobo}
use arkride_backend.World.{Env, World}

module _ (e : Env) (driver_id : ℕ) where
  -- A row written back under the driver's id is what the next read finds.
  pub wallet-save :
      (d new : Driver) (w : World)
      → e.drivers.find_one driver_id w.db.drivers ≡ some d
      → new.id ≡ d.id
      → wallet e driver_id
          (record w { db = record w.db { drivers = e.drivers.save new w.db.drivers } })
        ≡ some new.wallet_balance
  wallet-save d new w found same = ground (
    arith,
    e.drivers.find_one_key driver_id w.db.drivers d found,
    e.drivers.find_one_save driver_id new w.db.drivers,
  )

  -- A reversal adds the rounded amount to the wallet.
  pub reverse-wallet :
      (delta : Naira) (entry_id : ℕ) (b : Kobo) (w : World)
      → wallet e driver_id w ≡ some b
      → wallet e driver_id (reverse_driver_balance e driver_id delta entry_id w).1
        ≡ some (b +ℤ to_kobo delta)
  unfolding reverse_driver_balance
  reverse-wallet delta entry_id b w h =
      elim (Option-cases (e.drivers.find_one driver_id w.db.drivers)) [
        | inl missing ↦ ground arith
        | inr (d, found) ↦ ground (
          arith,
          reverse-to_kobo e d.wallet_balance delta,
          e.drivers.find_one_key driver_id w.db.drivers d found,
          e.drivers.find_one_save driver_id
              (record d { wallet_balance = d.wallet_balance +ℤ to_kobo delta }) w.db.drivers,
        )
      ]

  pub get_balance-same : (w : World) → (get_balance e driver_id w).1 ≡ w
  unfolding get_balance
  get_balance-same w = ground arith
