-- ===== src/Tests/BookingChannels.antt =====
-- Booking by message at concrete inputs.
use arkride_backend.Common.{◌≡◌, refl, some, ℕ, [], ◌∷◌}
use arkride_backend.BookingChannels.{
  ParsedRideIntent, booked, guest, resolve_rider, parse_and_book, book_for, guest_email,
}
use arkride_backend.BookingChannels.Booked.{IsAnswered, parse_and_book-IsAnswered}
use arkride_backend.BookingChannels.Guests.{guest_collides}
use arkride_backend.Entities.Rides.{RideCategory, RideOriginChannel}
use arkride_backend.Rides.Booking.{create_ride, book, new_ride, CreateRideDto}
use arkride_backend.Sample.Channels.{channels, message_from}
use arkride_backend.Sample.Data.{idle, market}
use arkride_backend.Sample.Services.{sample}
use arkride_backend.World.{thrown, query_failed}

abbrev understood : ParsedRideIntent
understood = record { category = RideCategory.private; pickup_text = 1; dropoff_text = 2 }

abbrev wanted : CreateRideDto
wanted = record {
  user_id = 1;
  pickup = market;
  dropoff = market;
  category = RideCategory.private;
  origin_channel = some RideOriginChannel.whatsapp;
}

parse_and_book-IsAnswered_example :
    IsAnswered sample channels
      (message_from 201)
      (booked (new_ride sample wanted idle))
      idle
      (parse_and_book sample channels (message_from 201) idle).1
unfolding parse_and_book book_for resolve_rider create_ride book
parse_and_book-IsAnswered_example =
    parse_and_book-IsAnswered sample channels (message_from 201)
      (booked (new_ride sample wanted idle)) idle
      (parse_and_book sample channels (message_from 201) idle).1 refl

-- The texts 7654321 and +7654321.
abbrev bare : ℕ
bare = channels.text_of (b'7' ∷ b'6' ∷ b'5' ∷ b'4' ∷ b'3' ∷ b'2' ∷ b'1' ∷ [])

abbrev signed : ℕ
signed = channels.text_of (b'+' ∷ b'7' ∷ b'6' ∷ b'5' ∷ b'4' ∷ b'3' ∷ b'2' ∷ b'1' ∷ [])

guest_collides_example :
    parse_and_book sample channels
      (message_from signed)
      (resolve_rider sample channels (some bare) idle).1
    ≡ (thrown query_failed, (resolve_rider sample channels (some bare) idle).1)
unfolding resolve_rider guest_email
guest_collides_example =
    guest_collides sample channels bare signed (guest sample channels bare 2) (message_from signed)
      understood market market idle refl refl refl refl refl refl refl refl refl
