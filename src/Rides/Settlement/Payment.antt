-- ===== src/Rides/Settlement/Payment.antt =====
-- What completing a ride pays, and what it leaves alone.
use arkride_backend.Common.{
  ==_refl, refl, ◌+◌, ap, ◌∙◌, [], ◌∷◌, is_id, suc, false, ℕ, ◌≡◌, some, none, arith,
}
use arkride_backend.Common.Int.{int_laws, ℤ, pos, ◌+ℤ◌}
use arkride_backend.Money.{split_fare_kobo, fare_to_naira, split_fare_naira, FareSplitKobo}
use mathlib.Core.Path.{subst}
use arkride_backend.Money.Split.{split_fare_kobo_whole}
use arkride_backend.Money.Rounding.{to_naira-+ℤ}
use arkride_backend.Platform.{ride_lock, holder}
use arkride_backend.Entities.Rides.{RideStatus, Ride}
use arkride_backend.Entities.Accounts.{User, Driver}
use arkride_backend.Entities.LedgerEntries.{
  ride_fare_driver, ride_fare_platform, ride_fare_rider_cashback, StakeholderType,
}
use arkride_backend.Ledger.{
  create_row, is_platform_revenue, sum_amounts, write_entries, is_ride_type,
}
use arkride_backend.Ledger.Posting.{
  sum_amounts-posted, entry_count, posted, write_entry-new, not-violates, find-posted,
}
use arkride_backend.Rides.Settlement.{
  complete, complete_ride, completed_ride, final_fare_of, credited_driver, credited_user, settle,
  share, fare_entries, credit,
}
use arkride_backend.World.{with_lock, Db, returned, Env, World}

-- The split of the ride's estimate, which becomes its final fare.
abbrev pub split_of : Ride → FareSplitKobo
split_of r = split_fare_kobo (fare_to_naira (final_fare_of r))

module _ (e : Env) where
  pub credit-+ℤ : (balance : ℤ) (kobo : ℕ) → credit e balance kobo ≡ balance +ℤ pos kobo
  credit-+ℤ balance kobo =
      ap e.column (to_naira-+ℤ balance (pos kobo)) ∙ e.column_exact (balance +ℤ pos kobo)

  -- The states between the three postings.
  module _ (ride_id driver_id user_id : ℕ) (s : FareSplitKobo) (w : World) where
    abbrev pub w₁ : World
    w₁ =
        posted e
          (share ride_id ride_fare_driver StakeholderType.driver (some driver_id) s.driver_kobo) w

    abbrev pub w₂ : World
    w₂ =
        posted e (share ride_id ride_fare_platform StakeholderType.platform none s.platform_kobo) w₁

    abbrev pub w₃ : World
    w₃ =
        posted e
          (share ride_id ride_fare_rider_cashback StakeholderType.rider (some user_id) s.rider_kobo)
          w₂

    -- The three amounts count towards the ride, and one of them towards the platform.
    ride_sum :
        sum_amounts (e.ledger.find (λ row. is_id row.ride_id ride_id) w₃.db.ledger)
        ≡ sum_amounts (e.ledger.find (λ row. is_id row.ride_id ride_id) w.db.ledger)
          +ℤ pos (s.driver_kobo + s.platform_kobo + s.rider_kobo)
    ride_sum =
        rw
          (
            sum_amounts-posted e (λ row. is_id row.ride_id ride_id)
                (share ride_id ride_fare_rider_cashback StakeholderType.rider (some user_id)
                  s.rider_kobo)
                w₂,
            sum_amounts-posted e (λ row. is_id row.ride_id ride_id)
                (share ride_id ride_fare_platform StakeholderType.platform none s.platform_kobo) w₁,
            sum_amounts-posted e (λ row. is_id row.ride_id ride_id)
                (share ride_id ride_fare_driver StakeholderType.driver (some driver_id)
                  s.driver_kobo)
                w,
            ==_refl ride_id,
            e.column_exact,
            e.column_exact,
            e.column_exact,
          )
          (omega int_laws)

    platform_sum :
        sum_amounts (e.ledger.find is_platform_revenue w₃.db.ledger)
        ≡ sum_amounts (e.ledger.find is_platform_revenue w.db.ledger) +ℤ pos s.platform_kobo
    platform_sum =
        rw
          (
            sum_amounts-posted e is_platform_revenue
                (share ride_id ride_fare_rider_cashback StakeholderType.rider (some user_id)
                  s.rider_kobo)
                w₂,
            sum_amounts-posted e is_platform_revenue
                (share ride_id ride_fare_platform StakeholderType.platform none s.platform_kobo) w₁,
            sum_amounts-posted e is_platform_revenue
                (share ride_id ride_fare_driver StakeholderType.driver (some driver_id)
                  s.driver_kobo)
                w,
            e.column_exact,
          )
          refl

  -- The three entries of a ride that has none of them yet.
  module _ (ride_id driver_id user_id : ℕ) (s : FareSplitKobo) (w : World)
      (no_driver : entry_count e ride_id ride_fare_driver w.db.ledger ≡ 0)
      (no_platform : entry_count e ride_id ride_fare_platform w.db.ledger ≡ 0)
      (no_cashback : entry_count e ride_id ride_fare_rider_cashback w.db.ledger ≡ 0) where
    pub fare_entries-posted : write_entries e (fare_entries ride_id driver_id user_id s) w ≡ (
      returned (
          create_row e
            (share ride_id ride_fare_driver StakeholderType.driver (some driver_id) s.driver_kobo)
            w
          ∷ create_row e
              (share ride_id ride_fare_platform StakeholderType.platform none s.platform_kobo)
              (w₁ ride_id driver_id user_id s w)
          ∷ create_row e
              (share ride_id ride_fare_rider_cashback StakeholderType.rider
                (some user_id)
                s.rider_kobo)
              (w₂ ride_id driver_id user_id s w)
          ∷ []),
      (w₃ ride_id driver_id user_id s w),
    )
    unfolding write_entries
    fare_entries-posted = ground (
      arith,
      not-violates e ride_id ride_fare_driver w.db.ledger no_driver,
      write_entry-new e
          (share ride_id ride_fare_driver StakeholderType.driver (some driver_id) s.driver_kobo) w,
      find-posted e (λ _. 1) (is_ride_type ride_id ride_fare_platform)
          (share ride_id ride_fare_driver StakeholderType.driver (some driver_id) s.driver_kobo) w,
      not-violates e ride_id ride_fare_platform (w₁ ride_id driver_id user_id s w).db.ledger,
      write_entry-new e
          (share ride_id ride_fare_platform StakeholderType.platform none s.platform_kobo)
          (w₁ ride_id driver_id user_id s w),
      find-posted e (λ _. 1) (is_ride_type ride_id ride_fare_rider_cashback)
          (share ride_id ride_fare_driver StakeholderType.driver (some driver_id) s.driver_kobo) w,
      find-posted e (λ _. 1) (is_ride_type ride_id ride_fare_rider_cashback)
          (share ride_id ride_fare_platform StakeholderType.platform none s.platform_kobo)
          (w₁ ride_id driver_id user_id s w),
      not-violates e ride_id ride_fare_rider_cashback (w₂ ride_id driver_id user_id s w).db.ledger,
      write_entry-new e
          (share ride_id ride_fare_rider_cashback StakeholderType.rider (some user_id) s.rider_kobo)
          (w₂ ride_id driver_id user_id s w),
    )

  -- What one settled ride has done. `done` is the ride as it is stored.
  pub record IsPaid (i driver_id : ℕ) (r done : Ride) (d : Driver) (u : User) (before after : Db)
      : Type 0 where
    pub ride : e.rides.find_one i after.rides ≡ some done
    pub driver :
        e.drivers.find_one driver_id after.drivers
        ≡ some (record d {
          wallet_balance = d.wallet_balance +ℤ pos (split_of r).driver_kobo;
          total_completed_rides = suc d.total_completed_rides;
        })
    pub rider :
        e.users.find_one r.user_id after.users
        ≡ some (record u { cashback_balance = u.cashback_balance +ℤ pos (split_of r).rider_kobo })
    pub ledger :
        sum_amounts (e.ledger.find (λ row. is_id row.ride_id i) after.ledger)
        ≡ sum_amounts (e.ledger.find (λ row. is_id row.ride_id i) before.ledger)
          +ℤ pos (final_fare_of r)
    pub platform :
        sum_amounts (e.ledger.find is_platform_revenue after.ledger)
        ≡ sum_amounts (e.ledger.find is_platform_revenue before.ledger)
          +ℤ pos (split_of r).platform_kobo

  module _ (i driver_id : ℕ) (r : Ride) (d : Driver) (u : User) (w : World)
      (found : e.rides.find_one i w.db.rides ≡ some r)
      (found_d : e.drivers.find_one driver_id w.db.drivers ≡ some d)
      (found_u : e.users.find_one r.user_id w.db.users ≡ some u)
      (no_driver : entry_count e i ride_fare_driver w.db.ledger ≡ 0)
      (no_platform : entry_count e i ride_fare_platform w.db.ledger ≡ 0)
      (no_cashback : entry_count e i ride_fare_rider_cashback w.db.ledger ≡ 0) where
    -- The three balances are written, and the ledger is not.
    abbrev pub saved : World
    saved = record w {
      db = record w.db {
        rides = e.rides.save (completed_ride r w) w.db.rides;
        drivers = e.drivers.save (credited_driver e d (split_of r).driver_kobo) w.db.drivers;
        users = e.users.save (credited_user e u (split_of r).rider_kobo) w.db.users;
      };
    }

    pub settle-posted : settle e driver_id r w ≡ (
      returned (record {
        ride = completed_ride r w;
        split = split_fare_naira (fare_to_naira (final_fare_of r));
        already_completed = false;
      }),
      w₃ r.id driver_id r.user_id (split_of r) saved,
    )
    unfolding settle
    settle-posted = ground (
      arith,
      e.rides.find_one_key i w.db.rides r found,
      fare_entries-posted r.id driver_id r.user_id (split_of r) saved,
    )

    posted-IsPaid :
        IsPaid i driver_id r
          (completed_ride r w)
          d
          u
          w.db
          (w₃ r.id driver_id r.user_id (split_of r) saved).db
    posted-IsPaid = record {
      ride = ground (
        arith,
        e.rides.find_one_key i w.db.rides r found,
        e.rides.find_one_save i (completed_ride r w) w.db.rides,
      );
      driver = ground (
        arith,
        e.drivers.find_one_key driver_id w.db.drivers d found_d,
        e.drivers.find_one_save driver_id (credited_driver e d (split_of r).driver_kobo)
            w.db.drivers,
        credit-+ℤ d.wallet_balance (split_of r).driver_kobo,
      );
      rider = ground (
        arith,
        e.users.find_one_key r.user_id w.db.users u found_u,
        e.users.find_one_save r.user_id (credited_user e u (split_of r).rider_kobo) w.db.users,
        credit-+ℤ u.cashback_balance (split_of r).rider_kobo,
      );
      ledger =
          subst
            (λ (j : ℕ).
              sum_amounts (
                e.ledger.find (λ row. is_id row.ride_id j)
                  (w₃ r.id driver_id r.user_id (split_of r) saved).db.ledger)
              ≡ sum_amounts (e.ledger.find (λ row. is_id row.ride_id j) w.db.ledger)
                +ℤ pos (final_fare_of r))
            (e.rides.find_one_key i w.db.rides r found)
            (ride_sum r.id driver_id r.user_id (split_of r) saved
              ∙ ap
                  (λ (n : ℕ).
                    sum_amounts (e.ledger.find (λ row. is_id row.ride_id r.id) w.db.ledger)
                    +ℤ pos n)
                  (split_fare_kobo_whole (final_fare_of r)));
      platform = platform_sum r.id driver_id r.user_id (split_of r) saved;
    }

-- Completing a running ride of which nothing was paid before: the call returns, the ride is stored
-- as completed, the driver is credited 95%, the rider 1%, and the ledger gains exactly the fare, of
-- which the platform's share counts as its revenue.
pub complete_ride-IsPaid :
    (e : Env) (i driver_id : ℕ) (r : Ride) (d : Driver) (u : User) (w : World)
    → e.rides.find_one i w.db.rides ≡ some r
    → r.driver_id ≡ some driver_id
    → r.status ≡ RideStatus.in_progress
    → e.drivers.find_one driver_id w.db.drivers ≡ some d
    → e.users.find_one r.user_id w.db.users ≡ some u
    → entry_count e i ride_fare_driver w.db.ledger ≡ 0
    → entry_count e i ride_fare_platform w.db.ledger ≡ 0
    → entry_count e i ride_fare_rider_cashback w.db.ledger ≡ 0
    → w.redis (ride_lock i) ≡ none
    → ((complete_ride e i driver_id w).0 ≡ returned (completed_ride r w))
      × IsPaid e i driver_id r (completed_ride r w) d u w.db (complete_ride e i driver_id w).1.db
unfolding complete_ride complete with_lock
complete_ride-IsPaid e i driver_id r d u w found drives running found_d found_u nd np nc free =
    let v = record w { redis = (e.redis.set_nx (ride_lock i) (holder driver_id) 10 w.redis).0 } in
    let paid = posted-IsPaid e i driver_id r d u v found found_d found_u nd np nc in
    let posts = settle-posted e i driver_id r d u v found found_d found_u nd np nc in
    let won = e.redis.set_nx_won (ride_lock i) (holder driver_id) 10 w.redis in
    (
      ground (arith, posts, won),
      subst (IsPaid e i driver_id r (completed_ride r w) d u w.db) (ground (arith, posts, won))
          paid,
    )
