-- ===== src/Money/Split.antt =====
-- What `splitFareKobo` promises about the three shares.
use arkride_backend.Common.{ℕ, ◌+◌, ◌*◌, ◌≤◌, ◌<◌, ◌≡◌, arith}
use arkride_backend.Money.Rounding.{fare_to_kobo-fare_to_naira}
use arkride_backend.Money.{fare_to_kobo, split_fare_kobo, split_fare_naira, fare_to_naira}

-- The three shares of a fare add up to the fare in kobo; the driver and the rider get their 95%
-- and 1%, less a fraction of a kobo; the platform gets at least its 4% and less than two kobo more.
pub split_fare_kobo_shares :
    (fare : ℕ)
    → let s = split_fare_kobo fare in
      (s.driver_kobo + s.platform_kobo + s.rider_kobo ≡ fare_to_kobo fare)
      × (s.driver_kobo * 100 ≤ s.total_kobo * 95)
      × (s.total_kobo * 95 < s.driver_kobo * 100 + 100)
      × (s.rider_kobo * 100 ≤ s.total_kobo)
      × (s.total_kobo < s.rider_kobo * 100 + 100)
      × (s.total_kobo * 4 ≤ s.platform_kobo * 100)
      × (s.platform_kobo * 100 < s.total_kobo * 4 + 200)
unfolding split_fare_kobo
split_fare_kobo_shares fare = omega arith

-- A fare of whole kobo is split, in naira, into parts that add up to the fare itself.
pub split_fare_naira_whole :
    (kobo : ℕ)
    → let s = split_fare_naira (fare_to_naira kobo) in
      (s.total_fare ≡ fare_to_naira kobo)
      × (s.driver_earning + s.platform_commission + s.rider_cashback ≡ fare_to_naira kobo)
unfolding split_fare_naira fare_to_naira
split_fare_naira_whole kobo = omega (arith, fare_to_kobo-fare_to_naira kobo)

-- A fare of whole kobo goes out to the last kobo.
pub split_fare_kobo_whole :
    (kobo : ℕ)
    → let s = split_fare_kobo (fare_to_naira kobo) in
      s.driver_kobo + s.platform_kobo + s.rider_kobo ≡ kobo
unfolding split_fare_kobo fare_to_naira
split_fare_kobo_whole kobo = omega (arith, fare_to_kobo-fare_to_naira kobo)
