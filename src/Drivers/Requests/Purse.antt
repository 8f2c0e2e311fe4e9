-- ===== src/Drivers/Requests/Purse.antt =====
-- What the wallet and the ratings write to a driver's row keeps who may be on dispatch.
use arkride_backend.Common.{ℕ, Option-cases, inl, inr, arith, List}
use arkride_backend.Common.Int.{◌+ℤ◌, ◌-ℤ◌}
use arkride_backend.Money.{to_naira, to_kobo, Naira, negate}
use arkride_backend.Ledger.{settle_entry}
use arkride_backend.Wallet.{
  request_fuel_support, reserve_fuel, settle_fuel, request_payout, reserve_payout, settle_payout,
  reverse_driver_balance, get_balance,
}
use arkride_backend.Drivers.Standing.Dispatch.{AreDispatchable}
use arkride_backend.Drivers.Requests.Kept.{change-AreDispatchable}
use arkride_backend.Ratings.{
  CreateRatingDto, is_about, update_rating, write_rating, check_rating, create,
}
use arkride_backend.Entities.Safety.{Rating, RateeType}
use arkride_backend.World.Keeps.{bind_keeps}
use arkride_backend.World.{Env, World, FuelSupportResult, PayoutResult, with_lock}

module _ (e : Env) where
  reserve_fuel-AreDispatchable :
      (d : ℕ) (x : Naira) (w : World)
      → AreDispatchable e w.db.drivers
      → AreDispatchable e (reserve_fuel e d x w).1.db.drivers
  unfolding reserve_fuel
  reserve_fuel-AreDispatchable d x w all = elim (Option-cases (e.drivers.find_one d w.db.drivers)) [
    | inl missing ↦ ground arith
    | inr (r, found) ↦ grind (
      arith,
      change-AreDispatchable e d r
          (record r {
            wallet_balance = e.column (to_naira r.wallet_balance +ℤ to_naira (to_kobo x));
          })
          w.db.drivers found,
    )
  ]

  reserve_payout-AreDispatchable :
      (d : ℕ) (x : Naira) (w : World)
      → AreDispatchable e w.db.drivers
      → AreDispatchable e (reserve_payout e d x w).1.db.drivers
  unfolding reserve_payout
  reserve_payout-AreDispatchable d x w all =
      elim (Option-cases (e.drivers.find_one d w.db.drivers)) [
        | inl missing ↦ ground arith
        | inr (r, found) ↦ grind (
          arith,
          change-AreDispatchable e d r
              (record r {
                wallet_balance =
                    e.column (to_naira (to_kobo (to_naira r.wallet_balance) -ℤ to_kobo x));
              })
              w.db.drivers found,
        )
      ]

  reverse-AreDispatchable :
      (d : ℕ) (x : Naira) (entry : ℕ) (w : World)
      → AreDispatchable e w.db.drivers
      → AreDispatchable e (reverse_driver_balance e d x entry w).1.db.drivers
  unfolding reverse_driver_balance settle_entry
  reverse-AreDispatchable d x entry w all =
      elim (Option-cases (e.drivers.find_one d w.db.drivers)) [
        | inl missing ↦ ground arith
        | inr (r, found) ↦ grind (
          arith,
          change-AreDispatchable e d r
              (record r {
                wallet_balance =
                    e.column (to_naira (to_kobo (to_naira r.wallet_balance) +ℤ to_kobo x));
              })
              w.db.drivers found,
        )
      ]

  settle_fuel-AreDispatchable :
      (d : ℕ) (x : Naira) (entry : ℕ) (r : FuelSupportResult) (w : World)
      → AreDispatchable e w.db.drivers
      → AreDispatchable e (settle_fuel e d x entry r w).1.db.drivers
  unfolding settle_fuel settle_entry get_balance
  settle_fuel-AreDispatchable d x entry r w all =
      ground (arith, reverse-AreDispatchable d (negate x) entry w all)

  settle_payout-AreDispatchable :
      (d : ℕ) (x : Naira) (entry : ℕ) (r : PayoutResult) (w : World)
      → AreDispatchable e w.db.drivers
      → AreDispatchable e (settle_payout e d x entry r w).1.db.drivers
  unfolding settle_payout settle_entry get_balance
  settle_payout-AreDispatchable d x entry r w all =
      ground (arith, reverse-AreDispatchable d x entry w all)

  pub request_fuel_support-AreDispatchable :
      (d : ℕ) (x : Naira) (w : World)
      → AreDispatchable e w.db.drivers
      → AreDispatchable e (request_fuel_support e d x w).1.db.drivers
  unfolding request_fuel_support with_lock
  request_fuel_support-AreDispatchable d x w all =
      grind (arith, reserve_fuel-AreDispatchable, settle_fuel-AreDispatchable)

  pub request_payout-AreDispatchable :
      (d : ℕ) (x : Naira) (w : World)
      → AreDispatchable e w.db.drivers
      → AreDispatchable e (request_payout e d x w).1.db.drivers
  unfolding request_payout with_lock
  request_payout-AreDispatchable d x w all =
      grind (arith, reserve_payout-AreDispatchable, settle_payout-AreDispatchable)

module _ (e : Env) (average : List Rating → ℕ) where
  update_rating-AreDispatchable :
      (ratee : ℕ) (type : RateeType) (w : World)
      → AreDispatchable e w.db.drivers
      → AreDispatchable e (update_rating e average ratee type w).1.db.drivers
  unfolding update_rating
  update_rating-AreDispatchable ratee RateeType.user w all = all
  update_rating-AreDispatchable ratee RateeType.driver w all =
      elim (Option-cases (e.drivers.find_one ratee w.db.drivers)) [
        | inl missing ↦ ground arith
        | inr (d, found) ↦ ground (
          arith,
          change-AreDispatchable e ratee d
              (record d {
                rating_average =
                    average (e.ratings.find (is_about ratee RateeType.driver) w.db.ratings);
              })
              w.db.drivers found,
        )
      ]

  write_rating-AreDispatchable :
      (rater_id : ℕ) (dto : CreateRatingDto) (ratee : ℕ × RateeType) (w : World)
      → AreDispatchable e w.db.drivers
      → AreDispatchable e (write_rating e average rater_id dto ratee w).1.db.drivers
  unfolding write_rating
  write_rating-AreDispatchable rater_id dto ratee w all =
      grind (arith, update_rating-AreDispatchable)

  check_rating-AreDispatchable :
      (rater_id : ℕ) (dto : CreateRatingDto) (w : World)
      → AreDispatchable e w.db.drivers
      → AreDispatchable e (check_rating e average rater_id dto w).1.db.drivers
  unfolding check_rating
  check_rating-AreDispatchable rater_id dto w all = ground arith

  pub create_rating-AreDispatchable :
      (rater_id : ℕ) (dto : CreateRatingDto) (w : World)
      → AreDispatchable e w.db.drivers
      → AreDispatchable e (create e average rater_id dto w).1.db.drivers
  unfolding create
  create_rating-AreDispatchable rater_id dto w all =
      bind_keeps (λ v. AreDispatchable e v.db.drivers) (check_rating e average rater_id dto)
        (write_rating e average rater_id dto) w (check_rating-AreDispatchable rater_id dto w all)
        (λ ratee v h. write_rating-AreDispatchable rater_id dto ratee v h)
