-- ===== src/Rides/Breakdown/Agreement.antt =====
-- The breakdown before and after a ride is completed.
use arkride_backend.Common.{
  ℕ, ◌≡◌, ◌∙◌, ap, sym, refl, Bool, true, ◌||◌, none, some, List, [], is_id, arith,
}
use arkride_backend.Money.{fare_to_naira, to_naira, split_fare_naira, split_fare_kobo}
use arkride_backend.Platform.{ride_lock, holder}
use arkride_backend.Entities.Rides.{Ride, completed, in_progress}
use arkride_backend.Entities.Accounts.{Driver, User}
use arkride_backend.Entities.LedgerEntries.{
  LedgerEntry, ride_fare_driver, ride_fare_platform, ride_fare_rider_cashback,
}
use arkride_backend.Ledger.{find_by_ride_id}
use arkride_backend.Ledger.Posting.{entry_count}
use arkride_backend.Rides.Settlement.{final_fare_of, completed_ride, complete, complete_ride}
use arkride_backend.Rides.Settlement.Payment.{w₃, saved, settle-posted, split_of}
use arkride_backend.Rides.Trip.{find_one}
use arkride_backend.Rides.Breakdown.{
  FareBreakdown, is_party, paid_breakdown, projected_breakdown, get_fare_breakdown,
}
use arkride_backend.Rides.Breakdown.Paid.{
  entries_after, amount_for-driver, amount_for-platform, amount_for-rider,
}
use arkride_backend.Money.Rounding.{fare_to_kobo-fare_to_naira}
use arkride_backend.World.{Db, Env, World, with_lock, returned}

-- The same breakdown, said of a completed ride.
abbrev pub as_settled : FareBreakdown → FareBreakdown
as_settled b = record b { status = completed; settled = true }

module _ (e : Env) (i requester : ℕ) (admin : Bool) where
  breakdown_paid :
      (done : Ride) (entries : List LedgerEntry) (w : World)
      → e.rides.find_one i w.db.rides ≡ some done
      → e.ledger.find (λ row. is_id row.ride_id i) w.db.ledger ≡ entries
      → done.status ≡ completed
      → (admin || is_party done requester) ≡ true
      → (get_fare_breakdown e i requester admin w).0 ≡ returned (paid_breakdown done entries)
  unfolding get_fare_breakdown find_one find_by_ride_id
  breakdown_paid done entries w found listed done_status party = ground arith

  breakdown_projected :
      (r : Ride) (w : World)
      → e.rides.find_one i w.db.rides ≡ some r
      → r.status ≡ in_progress
      → (admin || is_party r requester) ≡ true
      → (get_fare_breakdown e i requester admin w).0 ≡ returned (projected_breakdown r)
  unfolding get_fare_breakdown find_one
  breakdown_projected r w found running party = ground arith

-- The entries of the three shares give the projected amounts.
paid-projected :
    (e : Env) (driver_id : ℕ) (r : Ride) (w v : World)
    (none_yet : e.ledger.find (λ row. is_id row.ride_id r.id) v.db.ledger ≡ [])
    → paid_breakdown
        (completed_ride r w)
        (entries_after e r.id driver_id r.user_id (split_of r) v none_yet)
      ≡ as_settled (projected_breakdown r)
unfolding split_fare_naira fare_to_naira to_naira split_fare_kobo
paid-projected e driver_id r w v none_yet =
    rw
      (
        amount_for-driver e r.id driver_id r.user_id (split_of r) v none_yet,
        amount_for-platform e r.id driver_id r.user_id (split_of r) v none_yet,
        amount_for-rider e r.id driver_id r.user_id (split_of r) v none_yet,
        fare_to_kobo-fare_to_naira (final_fare_of r),
      )
      refl

-- Completing a running ride that has no ledger entry yet makes its breakdown, for either party and
-- for an admin, the one that was projected before, now as settled: the ledger's amounts are the
-- projected shares.
pub complete_ride-breakdown :
    (e : Env) (i driver_id requester : ℕ) (admin : Bool) (r : Ride) (d : Driver) (u : User)
    (w : World)
    → e.rides.find_one i w.db.rides ≡ some r
    → r.driver_id ≡ some driver_id
    → r.status ≡ in_progress
    → e.drivers.find_one driver_id w.db.drivers ≡ some d
    → e.users.find_one r.user_id w.db.users ≡ some u
    → entry_count e i ride_fare_driver w.db.ledger ≡ 0
    → entry_count e i ride_fare_platform w.db.ledger ≡ 0
    → entry_count e i ride_fare_rider_cashback w.db.ledger ≡ 0
    → e.ledger.find (λ row. is_id row.ride_id i) w.db.ledger ≡ []
    → w.redis (ride_lock i) ≡ none
    → (admin || is_party r requester) ≡ true
    → ((get_fare_breakdown e i requester admin w).0 ≡ returned (projected_breakdown r))
      × ((get_fare_breakdown e i requester admin (complete_ride e i driver_id w).1).0
          ≡ returned (as_settled (projected_breakdown r)))
unfolding complete_ride complete with_lock
complete_ride-breakdown e i driver_id requester admin r d u w found drives running found_d found_u
      nd np nc none_yet free party =
    let v = record w { redis = (e.redis.set_nx (ride_lock i) (holder driver_id) 10 w.redis).0 } in
    let posts = settle-posted e i driver_id r d u v found found_d found_u nd np nc in
    let won = e.redis.set_nx_won (ride_lock i) (holder driver_id) 10 w.redis in
    let key = e.rides.find_one_key i w.db.rides r found in
    let s = saved e i driver_id r d u v found found_d found_u nd np nc in
    let done = w₃ e r.id driver_id r.user_id (split_of r) s in
    let after : (complete_ride e i driver_id w).1.db ≡ done.db = ground (arith, posts, won) in
    let none_id =
      ap (λ (n : ℕ). e.ledger.find (λ row. is_id row.ride_id n) w.db.ledger) key ∙ none_yet in
    (
      breakdown_projected e i requester admin r w found running party,
      breakdown_paid e i requester admin (completed_ride r w)
            (entries_after e r.id driver_id r.user_id (split_of r) s none_id)
            (complete_ride e i driver_id w).1
            (ap (λ (db : Db). e.rides.find_one i db.rides) after
              ∙ ground (arith, key, e.rides.find_one_save i (completed_ride r w) w.db.rides))
            (ap (λ (db : Db). e.ledger.find (λ row. is_id row.ride_id i) db.ledger) after
              ∙ ap (λ (n : ℕ). e.ledger.find (λ row. is_id row.ride_id n) done.db.ledger) (sym key))
            refl party
          ∙ ap returned (paid-projected e driver_id r w s none_id),
    )
