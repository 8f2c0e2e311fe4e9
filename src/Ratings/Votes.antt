-- ===== src/Ratings/Votes.antt =====
-- A rating is a vote: one for each rater of a ride, by a party, about the other.
use arkride_backend.Common.{ℕ, ◌≡◌, some, none, Option-cases, inl, inr, refl, List, arith, ◌⊎◌}
use arkride_backend.Entities.Safety.{Rating, RateeType}
use arkride_backend.Ratings.{
  CreateRatingDto, is_vote, new_rating, update_rating, write_rating, check_rating, create,
}
use arkride_backend.World.{Env, World, returned, Outcome-cases}
use arkride_backend.Entities.Rides.{Ride, completed}

-- No two rows are of one rater for one ride.
unfoldable pub HasOneVote : Env → List Rating → Type 0
HasOneVote e rows =
    (i j : ℕ) (a b : Rating)
    → e.ratings.find_one i rows ≡ some a
    → e.ratings.find_one j rows ≡ some b
    → a.ride_id ≡ b.ride_id
    → a.rater_id ≡ b.rater_id
    → i ≡ j

module _ (e : Env) (average : List Rating → ℕ) where
  update_rating-ratings :
      (ratee : ℕ) (type : RateeType) (w : World)
      → (update_rating e average ratee type w).1.db.ratings ≡ w.db.ratings
  unfolding update_rating
  update_rating-ratings ratee RateeType.driver w = refl
  update_rating-ratings ratee RateeType.user w = refl

  save-HasOneVote :
      (x : Rating) (rows : List Rating)
      → e.ratings.find_one x.id rows ≡ none
      → e.ratings.find_where (is_vote x.ride_id x.rater_id) rows ≡ none
      → HasOneVote e rows
      → HasOneVote e (e.ratings.save x rows)
  unfolding HasOneVote
  save-HasOneVote x rows fresh first votes i j a b found_i found_j same_ride same_rater = ground (
    arith,
    e.ratings.find_one_save i x rows,
    e.ratings.find_one_save j x rows,
    e.ratings.find_where_none (is_vote x.ride_id x.rater_id) rows i a first,
    e.ratings.find_where_none (is_vote x.ride_id x.rater_id) rows j b first,
    votes i j a b,
  )

  -- Whatever was checked before, and in whatever state: the write of a rating keeps that no two rows
  -- are of one rater for one ride, so that two calls of `create` that check before either writes
  -- cannot both count.
  pub write_rating-HasOneVote :
      (rater_id : ℕ) (dto : CreateRatingDto) (ratee : ℕ × RateeType) (w : World)
      → HasOneVote e w.db.ratings
      → HasOneVote e (write_rating e average rater_id dto ratee w).1.db.ratings
  unfolding write_rating
  write_rating-HasOneVote rater_id dto ratee w votes =
      elim (Option-cases (e.ratings.find_where (is_vote dto.ride_id rater_id) w.db.ratings)) [
        | inl first ↦ ground (
          arith,
          e.ratings.new_id_fresh w.db.ratings,
          save-HasOneVote (new_rating e average rater_id dto ratee w) w.db.ratings,
          update_rating-ratings ratee.0 ratee.1,
        )
        | inr (r, there) ↦ ground arith
      ]

  -- The ride is completed, and the rater is one of its two parties and the ratee the other.
  pub record IsVote (ride_id rater_id : ℕ) (w : World) (ratee : ℕ) (type : RateeType) : Type 0 where
    pub ride : Ride
    pub found : e.rides.find_one ride_id w.db.rides ≡ some ride
    pub over : ride.status ≡ completed
    pub between :
        ((ride.user_id ≡ rater_id) × ((ride.driver_id ≡ some ratee) × (type ≡ RateeType.driver)))
        ⊎ ((ride.driver_id ≡ some rater_id) × ((ride.user_id ≡ ratee) × (type ≡ RateeType.user)))

  check_rating-IsVote :
      (rater_id ratee : ℕ) (type : RateeType) (dto : CreateRatingDto) (ride : Ride) (w v : World)
      → e.rides.find_one dto.ride_id w.db.rides ≡ some ride
      → check_rating e average rater_id dto w ≡ (returned (ratee, type), v)
      → IsVote dto.ride_id rater_id w ratee type × (v ≡ w)
  unfolding check_rating
  check_rating-IsVote rater_id ratee type dto ride w v found h = (
    record { ride = ride; found = found; over = ground arith; between = ground arith },
    ground arith,
  )

  check_rating_missing :
      (rater_id : ℕ) (dto : CreateRatingDto) (x : ℕ × RateeType) (w v : World)
      → e.rides.find_one dto.ride_id w.db.rides ≡ none
      → ¬ (check_rating e average rater_id dto w ≡ (returned x, v))
  unfolding check_rating
  check_rating_missing rater_id dto x w v missing h = ground arith

  check_rating-same :
      (rater_id : ℕ) (dto : CreateRatingDto) (w : World)
      → (check_rating e average rater_id dto w).1 ≡ w
  unfolding check_rating
  check_rating-same rater_id dto w = ground arith

  write_rating_returned :
      (rater_id : ℕ) (dto : CreateRatingDto) (ratee : ℕ × RateeType) (x : Rating) (w : World)
      → (write_rating e average rater_id dto ratee w).0 ≡ returned x
      → (x ≡ new_rating e average rater_id dto ratee w)
        × (e.ratings.find_one x.id (write_rating e average rater_id dto ratee w).1.db.ratings
            ≡ some x)
  unfolding write_rating
  write_rating_returned rater_id dto ratee x w h = (
    ground arith,
    ground (
      arith,
      update_rating-ratings ratee.0 ratee.1,
      e.ratings.find_one_save x.id (new_rating e average rater_id dto ratee w) w.db.ratings,
    ),
  )

  voted :
      (rater_id : ℕ) (dto : CreateRatingDto) (ratee : ℕ × RateeType) (w : World)
      → check_rating e average rater_id dto w ≡ (returned ratee, w)
      → IsVote dto.ride_id rater_id w ratee.0 ratee.1
  voted rater_id dto ratee w checked =
      elim (Option-cases (e.rides.find_one dto.ride_id w.db.rides)) [
        | inl missing ↦ absurd (check_rating_missing rater_id dto ratee w w missing checked)
        | inr (ride, found) ↦
            (check_rating-IsVote rater_id ratee.0 ratee.1 dto ride w w found checked).0
      ]

  created :
      (rater_id : ℕ) (dto : CreateRatingDto) (x : Rating) (w : World)
      → (create e average rater_id dto w).0 ≡ returned x
      → (ratee : ℕ × RateeType) × ((check_rating e average rater_id dto w ≡ (returned ratee, w))
          × (create e average rater_id dto w ≡ write_rating e average rater_id dto ratee w))
  unfolding create
  created rater_id dto x w h = elim (Outcome-cases (check_rating e average rater_id dto w)) [
    | inl (ratee, v, ends) ↦ (ratee, ground (arith, check_rating-same rater_id dto w))
    | inr (y, v, ends) ↦ absurd (ground arith)
  ]

  -- A rating that `create` returns is stored, is by the caller, for a completed ride, and either the
  -- caller is its rider and it is about its driver, or the caller is its driver and it is about its
  -- rider, whomever the request names.
  pub create-IsVote :
      (rater_id : ℕ) (dto : CreateRatingDto) (x : Rating) (w : World)
      → (create e average rater_id dto w).0 ≡ returned x
      → (e.ratings.find_one x.id (create e average rater_id dto w).1.db.ratings ≡ some x)
        × ((x.rater_id ≡ rater_id) × IsVote x.ride_id rater_id w x.ratee_id x.ratee_type)
  create-IsVote rater_id dto x w h =
      let (ratee, (checked, same)) = created rater_id dto x w h in
      let (is_new, stored) =
        write_rating_returned rater_id dto ratee x w (ground (arith, same, h)) in
      let vote = voted rater_id dto ratee w checked in
      (ground (arith, same, stored), ground (arith, is_new, vote))

  check_rating_again :
      (rater_id : ℕ) (dto : CreateRatingDto) (y : ℕ × RateeType) (w v : World)
      → ¬ (e.ratings.find_where (is_vote dto.ride_id rater_id) w.db.ratings ≡ none)
      → ¬ (check_rating e average rater_id dto w ≡ (returned y, v))
  unfolding check_rating
  check_rating_again rater_id dto y w v there h =
      elim (Option-cases (e.ratings.find_where (is_vote dto.ride_id rater_id) w.db.ratings)) [
        | inl first ↦ absurd (there first)
        | inr (r, found) ↦ ground arith
      ]

  -- After a rating that `create` returned, no other call by the same rater for the same ride returns
  -- one, whatever it says.
  pub create_once :
      (rater_id : ℕ) (first second : CreateRatingDto) (x y : Rating) (w : World)
      → (create e average rater_id first w).0 ≡ returned x
      → second.ride_id ≡ first.ride_id
      → ¬ ((create e average rater_id second (create e average rater_id first w).1).0 ≡ returned y)
  create_once rater_id first second x y w h same again =
      let (ratee, (checked, writes)) = created rater_id first x w h in
      let (is_new, stored) =
        write_rating_returned rater_id first ratee x w (ground (arith, writes, h)) in
      let v = (create e average rater_id first w).1 in
      let (other, (allowed, rest)) = created rater_id second y v again in
      check_rating_again rater_id second other v v
        (λ none_there. ground (
          arith,
          writes,
          stored,
          is_new,
          e.ratings.find_where_none (is_vote second.ride_id rater_id) v.db.ratings x.id x
              none_there,
        ))
        allowed
