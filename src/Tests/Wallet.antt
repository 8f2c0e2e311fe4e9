-- ===== src/Tests/Wallet.antt =====
-- Payouts and fuel advances of the sample driver, whose wallet holds 1000 naira.
use arkride_backend.Common.{ℕ, ◌≡◌, refl, false, some, none, if◌then◌else◌, arith}
use arkride_backend.Common.Int.{pos, ◌+ℤ◌, ◌≤ℤ◌, ltb_ℤ}
use arkride_backend.Money.{Kobo, to_naira}
use arkride_backend.Platform.{RedisKey, fuel_lock, one}
use arkride_backend.Locks.{fuel, Refuses, after, locked_out}
use arkride_backend.Wallet.{wallet, request_payout, request_fuel_support, reserve_fuel}
use arkride_backend.Wallet.Payout.{
  left_over, gateway_answer, request_payout-wallet, request_payout_nonneg,
}
use arkride_backend.Wallet.Fuel.{
  used_today_kobo, over_limit, advanced, bank_answer, request_fuel_support-wallet,
  reserve_fuel-limit, declined_fuel_half_kobo,
}
use arkride_backend.World.{World}
use arkride_backend.Sample.Data.{driving}
use arkride_backend.Sample.Services.{sample, declined}

request_payout-wallet_example :
    wallet sample 2 (request_payout sample 2 (pos 400_005) driving).1
    ≡ some (
        if ltb_ℤ (to_naira (pos 100_000)) (pos 400_005)
        then pos 100_000
        else left_over sample 2
            (pos 400_005)
            (pos 100_000)
            (gateway_answer sample 2 (pos 400_005) driving))
request_payout-wallet_example =
    request_payout-wallet sample 2 (pos 400_005) (pos 100_000) driving refl refl

request_payout_nonneg_example :
    (c : Kobo) × (wallet sample 2 (request_payout sample 2 (pos 999_995) driving).1 ≡ some c)
    × (pos 0 ≤ℤ c)
request_payout_nonneg_example =
    request_payout_nonneg sample 2 (pos 999_995) (pos 100_000) driving refl refl (ground arith)

request_fuel_support-wallet_example :
    wallet sample 2 (request_fuel_support sample 2 (pos 300_000) driving).1
    ≡ some (
        if over_limit sample 2 (pos 300_000) driving
        then pos 100_000
        else advanced sample 2
            (pos 300_000)
            (pos 100_000)
            (bank_answer sample 2 (pos 300_000) driving))
request_fuel_support-wallet_example =
    request_fuel_support-wallet sample 2 (pos 300_000) (pos 100_000) driving refl refl

reserve_fuel-limit_example :
    to_naira (used_today_kobo sample 2 (reserve_fuel sample 2 (to_naira (pos 400_000)) driving).1)
    ≤ℤ pos 5_000_000
unfolding to_naira
reserve_fuel-limit_example = reserve_fuel-limit sample 2 (pos 400_000) driving (ground arith)

-- 100.125 naira.
declined_fuel_half_kobo_example :
    wallet sample 2 (request_fuel_support sample 2 (pos 100_125) driving).1 ≡ some (pos 100_001)
unfolding to_naira arkride_backend.Common.Int.◌-ℤ◌ ◌+ℤ◌ arkride_backend.Money.half_side
declined_fuel_half_kobo_example =
    declined_fuel_half_kobo sample 2 100_125 (pos 100_000) declined driving refl refl refl refl refl
      refl refl

-- Another request of the same driver is at work.
abbrev busy : World
busy = record driving { redis = λ (k : RedisKey). some one }

locked_out_example :
    Refuses sample (fuel 2 (pos 1000)) busy
    × ((after sample (fuel 2 (pos 1000)) busy).db ≡ busy.db)
    × ((after sample (fuel 2 (pos 1000)) busy).events ≡ busy.events)
    × ((after sample (fuel 2 (pos 1000)) busy).redis (fuel_lock 2) ≡ busy.redis (fuel_lock 2))
locked_out_example = locked_out sample (fuel 2 (pos 1000)) busy (fuel_lock 2) {u = one} refl
