-- ===== src/Rides/Breakdown/Paid.antt =====
-- What the breakdown says of a ride that was just completed.
use arkride_backend.Common.{
  ℕ, ◌+◌, ◌≡◌, refl, none, some, List, [], ◌∷◌, bit, is_id, sum_by, if◌then◌else◌, ==_refl, arith,
}
use arkride_backend.Common.Int.{pos, pos_part, neg_part}
use arkride_backend.Money.{to_naira, FareSplitKobo}
use arkride_backend.Entities.LedgerEntries.{
  LedgerEntry, LedgerEntryType, ride_fare_driver, ride_fare_platform, ride_fare_rider_cashback,
  StakeholderType, same_type,
}
use arkride_backend.Ledger.{create_row}
use arkride_backend.Ledger.Posting.{find-posted}
use arkride_backend.Rides.Settlement.{share}
use arkride_backend.Rides.Settlement.Payment.{w₁, w₂, w₃}
use arkride_backend.Rides.Breakdown.{amount_for}
use arkride_backend.World.{Env, World}

module _ (t : LedgerEntryType) where
  abbrev of_type : LedgerEntry → ℕ
  of_type row = bit (same_type row.type t)

  abbrev gained : LedgerEntry → ℕ
  gained row = if same_type row.type t then pos_part row.amount else 0

  abbrev lost : LedgerEntry → ℕ
  lost row = if same_type row.type t then neg_part row.amount else 0

  no_gain :
      (rows : List LedgerEntry)
      → sum_by of_type rows ≡ 0
      → (sum_by gained rows ≡ 0) × (sum_by lost rows ≡ 0)
  no_gain [] h = (refl, refl)
  no_gain (x ∷ xs) h = ground (arith, no_gain xs)

  -- The one entry of a type is found.
  pub amount_for-one :
      (rows : List LedgerEntry) (k : ℕ)
      → sum_by of_type rows ≡ 1
      → sum_by gained rows ≡ k
      → sum_by lost rows ≡ 0
      → amount_for rows t ≡ to_naira (pos k)
  unfolding amount_for
  amount_for-one [] k h g l = absurd (omega arith)
  amount_for-one (x ∷ xs) k h g l = ground (arith, no_gain xs, amount_for-one xs k)

module _ (e : Env) (ride_id driver_id user_id : ℕ) (s : FareSplitKobo) (w : World)
    (none_yet : e.ledger.find (λ row. is_id row.ride_id ride_id) w.db.ledger ≡ []) where
  -- The ride's entries after the three postings.
  abbrev pub entries_after : List LedgerEntry
  entries_after =
      e.ledger.find (λ row. is_id row.ride_id ride_id)
        (w₃ e ride_id driver_id user_id s w).db.ledger

  abbrev row_d : LedgerEntry
  row_d =
      create_row e
        (share ride_id ride_fare_driver StakeholderType.driver (some driver_id) s.driver_kobo) w

  abbrev row_p : LedgerEntry
  row_p =
      create_row e (share ride_id ride_fare_platform StakeholderType.platform none s.platform_kobo)
        (w₁ e ride_id driver_id user_id s w)

  abbrev row_r : LedgerEntry
  row_r =
      create_row e
        (share ride_id ride_fare_rider_cashback StakeholderType.rider (some user_id) s.rider_kobo)
        (w₂ e ride_id driver_id user_id s w)

  sum_by-after : (f : LedgerEntry → ℕ) → sum_by f entries_after ≡ f row_d + f row_p + f row_r
  sum_by-after f = ground (
    arith,
    ==_refl ride_id,
    none_yet,
    find-posted e f (λ row. is_id row.ride_id ride_id)
        (share ride_id ride_fare_driver StakeholderType.driver (some driver_id) s.driver_kobo) w,
    find-posted e f (λ row. is_id row.ride_id ride_id)
        (share ride_id ride_fare_platform StakeholderType.platform none s.platform_kobo)
        (w₁ e ride_id driver_id user_id s w),
    find-posted e f (λ row. is_id row.ride_id ride_id)
        (share ride_id ride_fare_rider_cashback StakeholderType.rider (some user_id) s.rider_kobo)
        (w₂ e ride_id driver_id user_id s w),
  )

  pub amount_for-driver : amount_for entries_after ride_fare_driver ≡ to_naira (pos s.driver_kobo)
  amount_for-driver =
      amount_for-one ride_fare_driver entries_after s.driver_kobo
        (sum_by-after (of_type ride_fare_driver))
        (ground (arith, sum_by-after (gained ride_fare_driver), e.column_exact (pos s.driver_kobo)))
        (ground (arith, sum_by-after (lost ride_fare_driver), e.column_exact (pos s.driver_kobo)))

  pub amount_for-platform :
      amount_for entries_after ride_fare_platform ≡ to_naira (pos s.platform_kobo)
  amount_for-platform =
      amount_for-one ride_fare_platform entries_after s.platform_kobo
        (sum_by-after (of_type ride_fare_platform))
        (ground
          (arith, sum_by-after (gained ride_fare_platform), e.column_exact (pos s.platform_kobo)))
        (ground
          (arith, sum_by-after (lost ride_fare_platform), e.column_exact (pos s.platform_kobo)))

  pub amount_for-rider :
      amount_for entries_after ride_fare_rider_cashback ≡ to_naira (pos s.rider_kobo)
  amount_for-rider =
      amount_for-one ride_fare_rider_cashback entries_after s.rider_kobo
        (sum_by-after (of_type ride_fare_rider_cashback))
        (ground (
          arith,
          sum_by-after (gained ride_fare_rider_cashback),
          e.column_exact (pos s.rider_kobo),
        ))
        (ground
          (arith, sum_by-after (lost ride_fare_rider_cashback), e.column_exact (pos s.rider_kobo)))
