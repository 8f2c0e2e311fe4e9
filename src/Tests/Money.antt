-- ===== src/Tests/Money.antt =====
-- Splits and ledger postings.
use arkride_backend.Common.{◌≡◌, ◌≤◌, ◌<◌, ◌+◌, ◌*◌, some, List, [], ◌∷◌}
use arkride_backend.Money.{fare_to_kobo, split_fare_kobo}
use arkride_backend.Money.Split.{split_fare_kobo_shares}
use arkride_backend.Entities.LedgerEntries.{ride_fare_driver, StakeholderType}
use arkride_backend.Ledger.{WriteLedgerEntry}
use arkride_backend.Rides.Settlement.{share}

-- 800.015 naira are 80002 kobo.
split_fare_kobo_shares_example :
    let s = split_fare_kobo 800_015 in
    (s.driver_kobo + s.platform_kobo + s.rider_kobo ≡ fare_to_kobo 800_015)
    × (s.driver_kobo * 100 ≤ s.total_kobo * 95)
    × (s.total_kobo * 95 < s.driver_kobo * 100 + 100)
    × (s.rider_kobo * 100 ≤ s.total_kobo)
    × (s.total_kobo < s.rider_kobo * 100 + 100)
    × (s.total_kobo * 4 ≤ s.platform_kobo * 100)
    × (s.platform_kobo * 100 < s.total_kobo * 4 + 200)
split_fare_kobo_shares_example = split_fare_kobo_shares 800_015

-- The driver's share of ride 7, posted twice.
abbrev twice : List WriteLedgerEntry
twice =
    share 7 ride_fare_driver StakeholderType.driver (some 2) 76_000
    ∷ share 7 ride_fare_driver StakeholderType.driver (some 2) 76_000
    ∷ []
