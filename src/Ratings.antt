-- ===== src/Ratings.antt =====
-- `RatingsService` (src/rides/ratings.service.ts). A rating is its number of stars.
pub mod Votes
use arkride_backend.Common.{
  ℕ, Bool, true, false, not, ◌&&◌, ◌||◌, Option, none, some, is_some, is_id, List, ◌==◌,
  if◌then◌else◌,
}
use arkride_backend.Common.Text.{Text}
use arkride_backend.Entities.Accounts.{User, Driver}
use arkride_backend.Entities.Rides.{Ride, same_status, completed}
use arkride_backend.Entities.Safety.{Rating, RateeType, same_ratee_type}
use arkride_backend.World.{
  Env, World, Action, return, found_or, throw_if, asks, modify_db, ◌>>=◌, ◌>>◌, bad_request,
  not_found, forbidden, conflict, query_failed, ride_not_found, access_denied, not_completed,
  no_counterparty, wrong_ratee, already_rated,
}

-- src/rides/dto/create-rating.dto.ts
pub record CreateRatingDto : Type 0 where
  pub ride_id : ℕ
  pub ratee_id : ℕ
  pub ratee_type : RateeType
  pub rating : ℕ
  pub comment : Option Text

-- The other party of a rider, and of a driver.
abbrev pub expected_ratee : Bool → Ride → Option ℕ
expected_ratee true ride = ride.driver_id
expected_ratee false ride = some ride.user_id

abbrev pub expected_type : Bool → RateeType
expected_type true = RateeType.driver
expected_type false = RateeType.user

abbrev pub is_vote : (ride_id rater_id : ℕ) → Rating → Bool
is_vote ride_id rater_id r = r.ride_id == ride_id && r.rater_id == rater_id

abbrev pub is_about : ℕ → RateeType → Rating → Bool
is_about ratee type r = r.ratee_id == ratee && same_ratee_type r.ratee_type type

-- `AVG(rating)` over rows, in hundredths, and 0 where there are none, is what the database computes.
module _ (e : Env) (average : List Rating → ℕ) where
  abbrev pub find_vote : (ride_id rater_id : ℕ) → Action (Option Rating)
  find_vote ride_id rater_id =
      asks (λ w. e.ratings.find_where (is_vote ride_id rater_id) w.db.ratings)

  -- The checks of `create`: the ratee, and what kind of account that is.
  unfoldable pub check_rating : ℕ → CreateRatingDto → Action (ℕ × RateeType)
  check_rating rater_id dto = do
    ride ←
        found_or (not_found ride_not_found) (← asks (λ w. e.rides.find_one dto.ride_id w.db.rides))
    let is_rider = ride.user_id == rater_id
    throw_if (not (is_rider || is_id ride.driver_id rater_id)) (forbidden access_denied)
    throw_if (not (same_status ride.status completed)) (bad_request not_completed)
    ratee ← found_or (bad_request no_counterparty) (expected_ratee is_rider ride)
    throw_if
        (not (dto.ratee_id == ratee && same_ratee_type dto.ratee_type (expected_type is_rider)))
        (bad_request wrong_ratee)
    existing ← find_vote dto.ride_id rater_id
    throw_if (is_some existing) (conflict already_rated)
    return (ratee, expected_type is_rider)

  abbrev pub new_rating : ℕ → CreateRatingDto → ℕ × RateeType → World → Rating
  new_rating rater_id dto ratee w = record {
    id = e.ratings.new_id w.db.ratings;
    ride_id = dto.ride_id;
    rater_id = rater_id;
    ratee_id = ratee.0;
    ratee_type = ratee.1;
    rating = dto.rating;
    comment = dto.comment;
  }

  abbrev rated_driver : ℕ → Option Driver → List Driver → List Driver
  rated_driver stars none rows = rows
  rated_driver stars (some d) rows = e.drivers.save (record d { rating_average = stars }) rows

  abbrev rated_user : ℕ → Option User → List User → List User
  rated_user stars none rows = rows
  rated_user stars (some u) rows = e.users.save (record u { rating_average = stars }) rows

  -- `updateDriverRating`, `updateUserRating`
  unfoldable pub update_rating : ℕ → RateeType → Action (Unit {0})
  update_rating ratee RateeType.driver = do
    stars ← asks (λ w. average (e.ratings.find (is_about ratee RateeType.driver) w.db.ratings))
    modify_db (λ db. record db {
      drivers = rated_driver stars (e.drivers.find_one ratee db.drivers) db.drivers;
    })
  update_rating ratee RateeType.user = do
    stars ← asks (λ w. average (e.ratings.find (is_about ratee RateeType.user) w.db.ratings))
    modify_db
        (λ db. record db { users = rated_user stars (e.users.find_one ratee db.users) db.users })

  -- The rest of `create`; the unique index on (rideId, raterId) refuses a second row.
  unfoldable pub write_rating : ℕ → CreateRatingDto → ℕ × RateeType → Action Rating
  unfolding update_rating
  write_rating rater_id dto ratee = do
    entry ← asks (new_rating rater_id dto ratee)
    clash ← find_vote dto.ride_id rater_id
    throw_if (is_some clash) query_failed
    modify_db (λ db. record db { ratings = e.ratings.save entry db.ratings })
    update_rating ratee.0 ratee.1
    return entry

  unfoldable pub create : ℕ → CreateRatingDto → Action Rating
  unfolding check_rating write_rating
  create rater_id dto = check_rating rater_id dto >>= write_rating rater_id dto
