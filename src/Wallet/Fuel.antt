-- ===== src/Wallet/Fuel.antt =====
-- Fuel advances: what they leave in the wallet, and the daily limit.
use arkride_backend.Common.{
  if◌then◌else◌, Bool-cases, ℕ, ◌≡◌, Bool, true, false, Option, some, none, inl, inr, Option-cases,
  arith, ◌%◌,
}
use arkride_backend.Common.Int.{pos, ◌+ℤ◌, ◌-ℤ◌, ◌≤ℤ◌, ltb_ℤ, int_laws}
use mathlib.Core.Path.{subst}
use arkride_backend.Money.{Naira, Kobo, to_kobo, to_naira, negate, Side, half_side}
use arkride_backend.Money.Rounding.{to_naira-+ℤ}
use arkride_backend.Platform.{fuel_lock, one}
use arkride_backend.Entities.LedgerEntries.{driver_fuel_support_mfb, StakeholderType}
use arkride_backend.Ledger.{sum_amounts, counts_for}
use arkride_backend.Ledger.Posting.{sum_amounts-posted}
use arkride_backend.Wallet.{wallet, movement, reserve_fuel, settle_fuel, request_fuel_support}
use arkride_backend.Wallet.Amounts.{whole_kobo_sum, gain, undo, credit-to_kobo, half_kobo_sum}
use arkride_backend.Wallet.Reversal.{reverse-wallet}
use arkride_backend.World.{
  Env, World, FuelSupportResult, returned, thrown, with_lock, bad_request, fuel_limit_exceeded,
}

-- What the ledger counts as advanced to the driver on the day of `now`, in kobo.
abbrev pub used_today_kobo : Env → ℕ → World → Kobo
used_today_kobo e driver_id w = sum_amounts (
    e.ledger.find
      (counts_for StakeholderType.driver driver_id driver_fuel_support_mfb (e.day_start w.now)
        (e.day_end w.now))
      w.db.ledger)

abbrev pub over_limit : Env → ℕ → Naira → World → Bool
over_limit e driver_id x w =
    ltb_ℤ (e.daily_fuel_limit -ℤ to_naira (used_today_kobo e driver_id w)) x

module _ (e : Env) (driver_id : ℕ) (x : Naira) where
  reserve_fuel-wallet :
      (b : Kobo) (w : World)
      → wallet e driver_id w ≡ some b
      → over_limit e driver_id x w ≡ false
      → wallet e driver_id (reserve_fuel e driver_id x w).1 ≡ some (b +ℤ to_kobo x)
  unfolding reserve_fuel
  reserve_fuel-wallet b w h fits = elim (Option-cases (e.drivers.find_one driver_id w.db.drivers)) [
    | inl missing ↦ ground arith
    | inr (d, found) ↦ ground (
      arith,
      credit-to_kobo e d.wallet_balance x,
      e.drivers.find_one_key driver_id w.db.drivers d found,
      e.drivers.find_one_save driver_id
          (record d { wallet_balance = d.wallet_balance +ℤ to_kobo x }) w.db.drivers,
    )
  ]

  reserve_fuel-returned :
      (b : Kobo) (w : World)
      → wallet e driver_id w ≡ some b
      → over_limit e driver_id x w ≡ false
      → (id : ℕ) × ((reserve_fuel e driver_id x w).0 ≡ returned id)
  unfolding reserve_fuel
  reserve_fuel-returned b w h fits = (e.ledger.new_id w.db.ledger, ground arith)

  reserve_fuel-thrown :
      (b : Kobo) (w : World)
      → wallet e driver_id w ≡ some b
      → over_limit e driver_id x w ≡ true
      → (reserve_fuel e driver_id x w).0 ≡ thrown (bad_request fuel_limit_exceeded)
  unfolding reserve_fuel
  reserve_fuel-thrown b w h exceeds = ground arith

  -- The bank's answer: a refusal takes the rounded negative amount back.
  abbrev pub advanced : Kobo → Option FuelSupportResult → Kobo
  advanced b none = b +ℤ to_kobo x
  advanced b (some answer) =
      if answer.success then b +ℤ to_kobo x else b +ℤ to_kobo x +ℤ to_kobo (negate x)

  abbrev pub bank_answer : World → Option FuelSupportResult
  bank_answer w =
      e.disburse (record { driver_id = driver_id; amount = x; reference = e.random_uuid w.now })

  settle_fuel-wallet :
      (entry_id : ℕ) (answer : FuelSupportResult) (b : Kobo) (w : World)
      → wallet e driver_id w ≡ some b
      → wallet e driver_id (settle_fuel e driver_id x entry_id answer w).1
        ≡ some (if answer.success then b else b +ℤ to_kobo (negate x))
  unfolding settle_fuel
  settle_fuel-wallet entry_id answer b w h =
      ground (arith, reverse-wallet e driver_id (negate x) entry_id b w h)

-- A fuel request that gets the lock leaves the wallet alone beyond the day's limit; within it the
-- wallet is credited at once, and a refusal by the bank takes back what rounding the negative amount
-- gives.
pub request_fuel_support-wallet :
    (e : Env) (driver_id : ℕ) (x : Naira) (b : Kobo) (w : World)
    → wallet e driver_id w ≡ some b
    → w.redis (fuel_lock driver_id) ≡ none
    → wallet e driver_id (request_fuel_support e driver_id x w).1
      ≡ some (
          if over_limit e driver_id x w
          then b
          else advanced e driver_id x b (bank_answer e driver_id x w))
unfolding request_fuel_support with_lock
request_fuel_support-wallet e driver_id x b w h free =
    let v = record w { redis = (e.redis.set_nx (fuel_lock driver_id) one 15 w.redis).0 } in
    let won = e.redis.set_nx_won (fuel_lock driver_id) one 15 w.redis in
    elim (Bool-cases (over_limit e driver_id x w)) [
      | inl exceeds ↦ ground (arith, won, reserve_fuel-thrown e driver_id x b v h exceeds)
      | inr fits ↦
          let (id, goes) = reserve_fuel-returned e driver_id x b v h fits in
          let credits = reserve_fuel-wallet e driver_id x b v h fits in
          elim (Option-cases (bank_answer e driver_id x w)) [
            | inl silent ↦ ground (arith, won, goes, credits)
            | inr (answer, said) ↦ ground (
              arith,
              won,
              goes,
              credits,
              settle_fuel-wallet e driver_id x id answer (b +ℤ to_kobo x)
                  (reserve_fuel e driver_id x v).1 credits,
            )
          ]
    ]

fits_sum :
    (lim : Naira) (s k : Kobo)
    → ltb_ℤ (lim -ℤ to_naira s) (to_naira k) ≡ false
    → to_naira (s +ℤ k) ≤ℤ lim
fits_sum lim s k h =
    let room : to_naira k ≤ℤ lim -ℤ to_naira s = ground arith in
    let total : to_naira s +ℤ to_naira k ≤ℤ lim = omega int_laws in
    subst (λ (n : Naira). n ≤ℤ lim) (to_naira-+ℤ s k) total

-- Phase 1 of an advance of whole kobo, granted or refused, keeps what the ledger counts as advanced
-- today within the daily limit.
pub reserve_fuel-limit :
    (e : Env) (driver_id : ℕ) (k : Kobo) (w : World)
    → to_naira (used_today_kobo e driver_id w) ≤ℤ e.daily_fuel_limit
    → to_naira (used_today_kobo e driver_id (reserve_fuel e driver_id (to_naira k) w).1)
      ≤ℤ e.daily_fuel_limit
unfolding reserve_fuel
reserve_fuel-limit e driver_id k w within =
    elim (Option-cases (e.drivers.find_one driver_id w.db.drivers)) [
      | inl missing ↦ ground arith
      | inr (d, found) ↦ ground (
        arith,
        e.column_exact k,
        sum_amounts-posted e
            (counts_for StakeholderType.driver driver_id driver_fuel_support_mfb (e.day_start w.now)
              (e.day_end w.now))
            (movement driver_fuel_support_mfb driver_id (to_naira k)) w,
        fits_sum e.daily_fuel_limit (used_today_kobo e driver_id w) k,
      )
    ]

-- A declined advance of whole kobo leaves the wallet as it was.
pub declined_fuel_restores :
    (e : Env) (driver_id : ℕ) (k b : Kobo) (answer : FuelSupportResult) (w : World)
    → wallet e driver_id w ≡ some b
    → w.redis (fuel_lock driver_id) ≡ none
    → bank_answer e driver_id (to_naira k) w ≡ some answer
    → answer.success ≡ false
    → wallet e driver_id (request_fuel_support e driver_id (to_naira k) w).1 ≡ some b
declined_fuel_restores e driver_id k b answer w h free said no_success = ground (
  arith,
  request_fuel_support-wallet e driver_id (to_naira k) b w h free,
  whole_kobo_sum k,
  undo b (to_kobo (to_naira k)) (to_kobo (negate (to_naira k))),
)

-- A declined advance whose amount times 100 is, as a double, exactly a number of kobo and a half,
-- such as 100.125 naira, leaves the driver one kobo richer: the amount is rounded up when it is
-- credited, and its negative is rounded up as well.
pub declined_fuel_half_kobo :
    (e : Env) (driver_id n : ℕ) (b : Kobo) (answer : FuelSupportResult) (w : World)
    → n % 10 ≡ 5
    → half_side n ≡ Side.half
    → wallet e driver_id w ≡ some b
    → w.redis (fuel_lock driver_id) ≡ none
    → over_limit e driver_id (pos n) w ≡ false
    → bank_answer e driver_id (pos n) w ≡ some answer
    → answer.success ≡ false
    → wallet e driver_id (request_fuel_support e driver_id (pos n) w).1 ≡ some (b +ℤ pos 1)
declined_fuel_half_kobo e driver_id n b answer w odd exact h free fits said no_success = ground (
  arith,
  request_fuel_support-wallet e driver_id (pos n) b w h free,
  gain b (to_kobo (pos n)) (to_kobo (negate (pos n))) (half_kobo_sum n odd exact),
)
