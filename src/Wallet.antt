-- ===== src/Wallet.antt =====
-- `WalletService` (src/wallet/wallet.service.ts): fuel advances and payouts of a driver. `dto.amount`
-- is a number of naira of which validation demands a minimum, but no limit on the decimals.
pub mod Amounts
pub mod Reversal
pub mod Payout
pub mod Fuel
use arkride_backend.Common.{
  ℕ, String, Bool, true, false, not, Option, some, none, ◌||◌, if◌then◌else◌,
}
use arkride_backend.Common.Int.{ℤ, pos, ◌+ℤ◌, ◌-ℤ◌, ltb_ℤ}
use arkride_backend.Money.{Kobo, Naira, to_kobo, to_naira, negate}
use arkride_backend.Platform.{fuel_lock, payout_lock, one}
use arkride_backend.Entities.Accounts.{Driver}
use arkride_backend.Entities.LedgerEntries.{
  LedgerEntryType, LedgerEntryStatus, StakeholderType, driver_payout_linkpay,
  driver_fuel_support_mfb,
}
use arkride_backend.Ledger.{WriteLedgerEntry, write_entry, settle_entry, sum_for_stakeholder}
use arkride_backend.World.{
  World, Env, Action, FuelSupportResult, PayoutResult, PayoutStatus, return, throw, found_or,
  throw_if, asks, modify_db, transaction, with_lock, ◌>>=◌, ◌>>◌, bad_request, not_found,
  gateway_failed, driver_not_found, wallet_locked, fuel_limit_exceeded, fuel_declined,
  insufficient_balance, payout_failed,
}

pub record FuelSupportLimit : Type 0 where
  pub daily_limit : Naira
  pub used_today : Naira
  pub remaining : Naira

pub record Balance : Type 0 where
  pub wallet_balance : Naira
  pub total_completed_rides : ℕ
  pub fuel_support : FuelSupportLimit

pub record Receipt : Type 0 where
  pub amount : Naira
  pub provider_reference : Option String
  pub balance : Balance

-- A driver's wallet as the database holds it.
abbrev pub wallet : Env → ℕ → World → Option Kobo
wallet e driver_id w = elim (e.drivers.find_one driver_id w.db.drivers) [
  | none ↦ none
  | some d ↦ some d.wallet_balance
]

-- `Math.max(0, x)`
abbrev pub at_least_zero : ℤ → ℤ
at_least_zero x = if ltb_ℤ x (pos 0) then pos 0 else x

-- `Math.abs(x)`
abbrev pub abs : ℤ → ℤ
abs x = if ltb_ℤ x (pos 0) then negate x else x

abbrev is_failed : PayoutStatus → Bool
is_failed PayoutStatus.failed = true
is_failed _ = false

abbrev pub settled_status : PayoutStatus → LedgerEntryStatus
settled_status PayoutStatus.completed = LedgerEntryStatus.completed
settled_status _ = LedgerEntryStatus.pending

abbrev pub movement : LedgerEntryType → ℕ → Naira → WriteLedgerEntry
movement type driver_id amount = record {
  ride_id = none;
  type = type;
  stakeholder_type = StakeholderType.driver;
  stakeholder_id = some driver_id;
  amount = amount;
  status = some LedgerEntryStatus.pending;
  provider_reference = none;
}

module _ (e : Env) where
  -- What the ledger says was advanced to the driver today.
  abbrev used_today : ℕ → Action Naira
  used_today driver_id = do
    now ← asks (λ w. w.now)
    sum_for_stakeholder e StakeholderType.driver driver_id driver_fuel_support_mfb (e.day_start now)
        (e.day_end now)

  unfoldable pub get_fuel_support_limit : ℕ → Action FuelSupportLimit
  unfolding sum_for_stakeholder
  get_fuel_support_limit driver_id = do
    used ← used_today driver_id
    return (record {
      daily_limit = e.daily_fuel_limit;
      used_today = used;
      remaining = at_least_zero (e.daily_fuel_limit -ℤ used);
    })

  abbrev find_driver : ℕ → Action Driver
  find_driver driver_id = do
    found_or (not_found driver_not_found) (← asks (λ w. e.drivers.find_one driver_id w.db.drivers))

  unfoldable pub get_balance : ℕ → Action Balance
  unfolding get_fuel_support_limit
  get_balance driver_id = do
    driver ← find_driver driver_id
    fuel_support ← get_fuel_support_limit driver_id
    return (record {
      wallet_balance = to_naira driver.wallet_balance;
      total_completed_rides = driver.total_completed_rides;
      fuel_support = fuel_support;
    })

  -- `driver.walletBalance = balance; await manager.save(driver)`
  abbrev pub save_balance : Driver → Naira → Action (Unit {0})
  save_balance driver balance = modify_db (λ db. record db {
    drivers = e.drivers.save (record driver { wallet_balance = e.column balance }) db.drivers;
  })

  -- Phase 1 of `requestFuelSupport`, the body of its transaction; it returns the entry's id.
  unfoldable pub reserve_fuel : ℕ → Naira → Action ℕ
  unfolding write_entry sum_for_stakeholder
  reserve_fuel driver_id amount = do
    driver ← find_driver driver_id
    used ← used_today driver_id
    throw_if (ltb_ℤ (e.daily_fuel_limit -ℤ used) amount) (bad_request fuel_limit_exceeded)
    save_balance driver (to_naira driver.wallet_balance +ℤ to_naira (to_kobo amount))
    entry ← write_entry e (movement driver_fuel_support_mfb driver_id amount)
    return entry.id

  abbrev give_back : Option Driver → Naira → Action (Unit {0})
  give_back none delta = return tt
  give_back (some driver) delta =
      save_balance driver (to_naira (to_kobo (to_naira driver.wallet_balance) +ℤ to_kobo delta))

  unfoldable pub reverse_driver_balance : ℕ → Naira → ℕ → Action (Unit {0})
  unfolding settle_entry
  reverse_driver_balance driver_id delta entry_id = transaction (do
    found ← asks (λ w. e.drivers.find_one driver_id w.db.drivers)
    give_back found delta
    settle_entry e entry_id LedgerEntryStatus.failed (some none))

  abbrev receipt : ℕ → Naira → Option String → Action Receipt
  receipt driver_id amount reference = do
    balance ← get_balance driver_id
    return (record { amount = amount; provider_reference = reference; balance = balance })

  -- Phase 2 of `requestFuelSupport`, after the bank has answered.
  unfoldable pub settle_fuel : ℕ → Naira → ℕ → FuelSupportResult → Action Receipt
  unfolding reverse_driver_balance settle_entry get_balance
  settle_fuel driver_id amount entry_id result =
      if not result.success
      then (reverse_driver_balance driver_id (negate amount) entry_id
          >> throw (bad_request fuel_declined))
      else (settle_entry e entry_id LedgerEntryStatus.completed (some result.provider_reference)
          >> receipt driver_id amount result.provider_reference)

  unfoldable pub request_fuel_support : ℕ → Naira → Action Receipt
  request_fuel_support driver_id amount = with_lock e (fuel_lock driver_id) one 15 wallet_locked (do
    reference ← asks (λ w. e.random_uuid w.now)
    entry_id ← transaction (reserve_fuel driver_id amount)
    result ←
        found_or gateway_failed
          (e.disburse (record { driver_id = driver_id; amount = amount; reference = reference }))
    settle_fuel driver_id amount entry_id result)

  -- Phase 1 of `requestPayout`.
  unfoldable pub reserve_payout : ℕ → Naira → Action ℕ
  unfolding write_entry
  reserve_payout driver_id amount = do
    driver ← find_driver driver_id
    let balance = to_naira driver.wallet_balance
    throw_if (ltb_ℤ balance amount) (bad_request insufficient_balance)
    save_balance driver (to_naira (to_kobo balance -ℤ to_kobo amount))
    entry ← write_entry e (movement driver_payout_linkpay driver_id (negate (abs amount)))
    return entry.id

  -- Phase 2 of `requestPayout`.
  unfoldable pub settle_payout : ℕ → Naira → ℕ → PayoutResult → Action Receipt
  unfolding reverse_driver_balance settle_entry get_balance
  settle_payout driver_id amount entry_id result =
      if not result.success || is_failed result.status
      then (reverse_driver_balance driver_id amount entry_id >> throw (bad_request payout_failed))
      else (settle_entry e entry_id (settled_status result.status) (some result.provider_reference)
          >> receipt driver_id amount result.provider_reference)

  unfoldable pub request_payout : ℕ → Naira → Action Receipt
  request_payout driver_id amount = with_lock e (payout_lock driver_id) one 15 wallet_locked (do
    reference ← asks (λ w. e.random_uuid w.now)
    entry_id ← transaction (reserve_payout driver_id amount)
    result ← found_or gateway_failed (
        e.initiate_payout
          (record { driver_id = driver_id; amount = amount; reference = reference }))
    settle_payout driver_id amount entry_id result)
