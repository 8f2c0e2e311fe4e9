-- ===== src/Sample/Channels.antt =====
-- A parser that always understands the same, and a geocoder that knows one place. A text is the number
-- with its characters as digits, to the base of 256.
use arkride_backend.Common.{
  ℕ, zero, suc, ◌+◌, ◌*◌, ◌/◌, ◌%◌, ◌==◌, some, none, List, [], ◌∷◌, if◌then◌else◌,
}
use arkride_backend.BookingChannels.{Channels, ParseAndBookDto, intent}
use arkride_backend.Entities.Rides.{RideCategory, RideOriginChannel}
use arkride_backend.Sample.Data.{market}

abbrev pub number_of : ℕ → List ℕ → ℕ
number_of n [] = n
number_of n (c ∷ cs) = number_of (n * 256 + c) cs

abbrev pub digits_of : (fuel : ℕ) → ℕ → List ℕ → List ℕ
digits_of zero n cs = cs
digits_of (suc fuel) n cs = if n == 0 then cs else digits_of fuel (n / 256) (n % 256 ∷ cs)

abbrev pub channels : Channels
channels = record {
  parse =
      λ t. intent (record { category = RideCategory.private; pickup_text = 1; dropoff_text = 2 });
  geocode = λ t. some market;
  chars = λ t. digits_of 16 t [];
  text_of = number_of 0;
}

abbrev pub message_from : ℕ → ParseAndBookDto
message_from phone = record {
  raw_text = 9;
  channel = RideOriginChannel.whatsapp;
  caller_phone = some phone;
  pickup = none;
  dropoff = some market;
}
