-- ===== src/Entities/LedgerEntries.antt =====
-- src/ledger/entities/ledger-entry.entity.ts. The column `amount` holds kobo, as `decimal(12,2)`
-- does; the currency is always the default, and `metadata` is free-form and never read.
use arkride_backend.Common.{ℕ, Bool, true, false, Option, String}
use arkride_backend.Common.Int.{ℤ}

pub data LedgerEntryType : Type 0 where
  ride_fare_driver ride_fare_platform ride_fare_rider_cashback : LedgerEntryType
  driver_payout_linkpay driver_fuel_support_mfb : LedgerEntryType

pub data StakeholderType : Type 0 where
  driver rider platform : StakeholderType

pub data LedgerEntryStatus : Type 0 where
  pending completed failed reversed : LedgerEntryStatus

pub record LedgerEntry : Type 0 where
  pub id : ℕ
  pub ride_id : Option ℕ
  pub type : LedgerEntryType
  pub stakeholder_type : StakeholderType
  pub stakeholder_id : Option ℕ
  pub amount : ℤ
  pub status : LedgerEntryStatus
  pub provider_reference : Option String
  pub created_at : ℕ

abbrev pub same_type : LedgerEntryType → LedgerEntryType → Bool
same_type ride_fare_driver ride_fare_driver = true
same_type ride_fare_platform ride_fare_platform = true
same_type ride_fare_rider_cashback ride_fare_rider_cashback = true
same_type driver_payout_linkpay driver_payout_linkpay = true
same_type driver_fuel_support_mfb driver_fuel_support_mfb = true
same_type _ _ = false

abbrev pub same_stakeholder : StakeholderType → StakeholderType → Bool
same_stakeholder driver driver = true
same_stakeholder rider rider = true
same_stakeholder platform platform = true
same_stakeholder _ _ = false

abbrev pub is_settled_or_pending : LedgerEntryStatus → Bool
is_settled_or_pending pending = true
is_settled_or_pending completed = true
is_settled_or_pending _ = false

abbrev pub is_completed : LedgerEntryStatus → Bool
is_completed completed = true
is_completed _ = false
