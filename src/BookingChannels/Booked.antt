-- ===== src/BookingChannels/Booked.antt =====
-- What a message that books has booked, and for whom.
use arkride_backend.Common.{
  ◌≡◌, false, Option, some, none, is_id, Option-cases, inl, inr, refl, arith,
}
use arkride_backend.Common.Text.{Text}
use arkride_backend.Entities.Accounts.{User}
use arkride_backend.Entities.Rides.{Ride, Location, requested}
use arkride_backend.BookingChannels.{
  Channels, ParseAndBookDto, ParsedRideIntent, Answer, booked, clarification_needed, intent,
  ambiguity, ParseResult, else_place, with_places, answer_to, ride_dto, resolve_rider, book_for,
  parse_and_book,
}
use arkride_backend.Rides.Booking.{CreateRideDto, create_ride, book, new_ride}
use arkride_backend.World.{World, Env, Outcome-cases, returned}

-- The ride waits for a driver, is of the category that was understood, starts and ends where the caller
-- said exactly, if so, and is for an account with the caller's number that is not blocked.
pub record IsBooked (e : Env) (c : Channels) (dto : ParseAndBookDto) (r : Ride) (v : World)
    : Type 0 where
  pub understood :
      (parsed : ParsedRideIntent) × ((c.parse dto.raw_text ≡ intent parsed)
        × (r.category ≡ parsed.category))
  pub waiting : r.status ≡ requested
  pub stored : e.rides.find_one r.id v.db.rides ≡ some r
  pub channel : r.origin_channel ≡ dto.channel
  pub from : (place : Location) → dto.pickup ≡ some place → r.pickup ≡ place
  pub to : (place : Location) → dto.dropoff ≡ some place → r.dropoff ≡ place
  pub caller :
      (u : User) × ((e.users.find_one r.user_id v.db.users ≡ some u)
        × ((u.phone ≡ dto.caller_phone) × (u.is_blocked ≡ false)))

-- A question goes back with nothing written, or the ride is booked.
pub IsAnswered : Env → Channels → ParseAndBookDto → Answer → World → World → Type 0
IsAnswered e c dto (clarification_needed missing) w v = v ≡ w
IsAnswered e c dto (booked r) w v = IsBooked e c dto r v

module _ (e : Env) where
  ride_created :
      (d : CreateRideDto) (r : Ride) (w v : World)
      → create_ride e d w ≡ (returned r, v)
      → (r ≡ new_ride e d w)
        × ((v.db.rides ≡ e.rides.save r w.db.rides)
            × ((v.db.users ≡ w.db.users)
                × ((u : User) × ((e.users.find_one d.user_id w.db.users ≡ some u)
                      × (u.is_blocked ≡ false)))))
  unfolding create_ride book
  ride_created d r w v h = elim (Option-cases (e.users.find_one d.user_id w.db.users)) [
    | inl missing ↦ absurd (ground arith)
    | inr (u, found) ↦ (ground arith, (ground arith, (ground arith, (u, (found, ground arith)))))
  ]

  module _ (c : Channels) where
    rider_resolved :
        (phone : Option Text) (u : User) (w v : World)
        → resolve_rider e c phone w ≡ (returned u, v)
        → (u.phone ≡ phone) × (e.users.find_one u.id v.db.users ≡ some u)
    unfolding resolve_rider
    rider_resolved none u w v h = absurd (ground arith)
    rider_resolved (some p) u w v h =
        elim (Option-cases (e.users.find_where (λ x. is_id x.phone p) w.db.users)) [
          | inl free ↦ (ground arith, ground (arith, e.users.find_one_save u.id u w.db.users))
          | inr (x, found) ↦
              let (his, stored) =
                e.users.find_where_some (λ x. is_id x.phone p) w.db.users x found in
              (ground (arith, his), ground (arith, stored))
        ]

    created-IsBooked :
        (dto : ParseAndBookDto) (parsed : ParsedRideIntent) (a b : Location) (user : User)
        (r : Ride) (m v : World)
        → c.parse dto.raw_text ≡ intent parsed
        → else_place dto.pickup (c.geocode parsed.pickup_text) ≡ some a
        → else_place dto.dropoff (c.geocode parsed.dropoff_text) ≡ some b
        → user.phone ≡ dto.caller_phone
        → e.users.find_one user.id m.db.users ≡ some user
        → create_ride e (ride_dto e c dto parsed a b user) m ≡ (returned r, v)
        → IsBooked e c dto r v
    created-IsBooked dto parsed a b user r m v understood from to phone known h =
        let (made, (rides, (users, (x, (found, open_))))) =
          ride_created (ride_dto e c dto parsed a b user) r m v h in
        record {
          understood = (parsed, (understood, ground (arith, made)));
          waiting = ground (arith, made);
          stored = ground (arith, rides, e.rides.find_one_save r.id r m.db.rides);
          channel = ground (arith, made);
          from = λ place pinned. ground (arith, made, pinned, from);
          to = λ place pinned. ground (arith, made, pinned, to);
          caller = (
            user,
            (ground (arith, made, users, known), (phone, ground (arith, known, found, open_))),
          );
        }

    book_for-IsBooked :
        (dto : ParseAndBookDto) (parsed : ParsedRideIntent) (a b : Location) (r : Ride)
        (w v : World)
        → c.parse dto.raw_text ≡ intent parsed
        → else_place dto.pickup (c.geocode parsed.pickup_text) ≡ some a
        → else_place dto.dropoff (c.geocode parsed.dropoff_text) ≡ some b
        → book_for e c dto parsed a b w ≡ (returned (booked r), v)
        → IsBooked e c dto r v
    unfolding book_for
    book_for-IsBooked dto parsed a b r w v understood from to h =
        elim (Outcome-cases (resolve_rider e c dto.caller_phone w)) [
          | inr (y, u, ends) ↦ absurd (ground (arith, ends))
          | inl (user, m, ends) ↦
              elim (Outcome-cases (create_ride e (ride_dto e c dto parsed a b user) m)) [
                | inr (y, u, wrote) ↦ absurd (ground (arith, ends, wrote))
                | inl (ride, u, wrote) ↦
                    let (phone, known) = rider_resolved dto.caller_phone user w m ends in
                    created-IsBooked dto parsed a b user r m v understood from to phone known
                      (ground (arith, ends, wrote))
              ]
        ]

    placed-IsAnswered :
        (dto : ParseAndBookDto) (parsed : ParsedRideIntent) (x : Answer) (w v : World)
        (from to : Option Location)
        → c.parse dto.raw_text ≡ intent parsed
        → else_place dto.pickup (c.geocode parsed.pickup_text) ≡ from
        → else_place dto.dropoff (c.geocode parsed.dropoff_text) ≡ to
        → with_places e c dto parsed from to w ≡ (returned x, v)
        → IsAnswered e c dto x w v
    unfolding IsAnswered book_for
    placed-IsAnswered dto parsed (booked r) w v (some a) (some b) understood from to h =
        book_for-IsBooked dto parsed a b r w v understood from to h
    placed-IsAnswered dto parsed (clarification_needed missing) w v (some a) (some b) understood
          from to h =
        absurd (ground arith)
    placed-IsAnswered dto parsed (booked r) w v none b understood from to h = absurd (ground arith)
    placed-IsAnswered dto parsed (clarification_needed missing) w v none b understood from to h =
        ground arith
    placed-IsAnswered dto parsed (booked r) w v (some a) none understood from to h =
        absurd (ground arith)
    placed-IsAnswered dto parsed (clarification_needed missing) w v (some a) none understood from to
          h =
        ground arith

    answer_to-IsAnswered :
        (dto : ParseAndBookDto) (result : ParseResult) (x : Answer) (w v : World)
        → c.parse dto.raw_text ≡ result
        → answer_to e c dto result w ≡ (returned x, v)
        → IsAnswered e c dto x w v
    unfolding IsAnswered
    answer_to-IsAnswered dto (ambiguity missing) (clarification_needed asked) w v understood h =
        ground arith
    answer_to-IsAnswered dto (ambiguity missing) (booked r) w v understood h = absurd (ground arith)
    answer_to-IsAnswered dto (intent parsed) x w v understood h =
        placed-IsAnswered dto parsed x w v (else_place dto.pickup (c.geocode parsed.pickup_text))
          (else_place dto.dropoff (c.geocode parsed.dropoff_text)) understood refl refl h

    -- A message that is answered with a question has written nothing; one that is answered with a ride
    -- has booked it: it is stored and waits for a driver, is of the category that was understood and of
    -- the channel of the message, starts and ends at the places that the caller sent, where such were
    -- sent, and is for an account with the caller's number that is not blocked.
    pub parse_and_book-IsAnswered :
        (dto : ParseAndBookDto) (x : Answer) (w v : World)
        → parse_and_book e c dto w ≡ (returned x, v)
        → IsAnswered e c dto x w v
    unfolding parse_and_book
    parse_and_book-IsAnswered dto x w v h =
        answer_to-IsAnswered dto (c.parse dto.raw_text) x w v refl h
