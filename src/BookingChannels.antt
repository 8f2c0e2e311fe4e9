-- ===== src/BookingChannels.antt =====
-- Booking by message or call: `BookingChannelsService`
-- (src/booking-channels/booking-channels.service.ts), over the interfaces of the parser and of the
-- geocoder that it is given, and the guard of its endpoint.
pub mod Booked
pub mod Guests
use arkride_backend.Common.{
  ℕ, Bool, true, false, not, ◌&&◌, Option, none, some, is_some, is_id, ◌==◌, List, [], ◌∷◌, ◌++◌,
  length, if◌then◌else◌, String, leb, keep,
}
use Prim.Native.Char.{code}
use arkride_backend.Common.Int.{pos}
use arkride_backend.Common.Text.{Text, is_blank}
use arkride_backend.Entities.Accounts.{Role, User}
use arkride_backend.Entities.Rides.{Ride, RideCategory, RideOriginChannel, Location}
use arkride_backend.Otp.{timing_safe_equal}
use arkride_backend.Rides.Booking.{CreateRideDto, create_ride}
use arkride_backend.Users.{clashes}
use arkride_backend.World.{
  World, Env, Action, return, found_or, throw_if, asks, modify_db, ◌>>=◌, ◌>>◌, bad_request,
  query_failed, caller_unknown,
}

pub data MissingField : Type 0 where
  category_field pickup_field dropoff_field : MissingField

-- src/booking-channels/parsers/ride-request-parser.interface.ts; what is only shown is left out.
pub record ParsedRideIntent : Type 0 where
  pub category : RideCategory
  pub pickup_text : Text
  pub dropoff_text : Text

pub data ParseResult : Type 0 where
  intent : ParsedRideIntent → ParseResult
  ambiguity : List MissingField → ParseResult

pub record ParseAndBookDto : Type 0 where
  pub raw_text : Text
  pub channel : RideOriginChannel
  pub caller_phone : Option Text
  pub pickup : Option Location
  pub dropoff : Option Location

-- `RIDE_REQUEST_PARSER`, `GEOCODING_PROVIDER`, and the characters of a text, with the text of some.
pub record Channels : Type 0 where
  pub parse : Text → ParseResult
  pub geocode : Text → Option Location
  pub chars : Text → List ℕ
  pub text_of : List ℕ → Text

-- The characters of a text of the program.
abbrev pub codes : String → List ℕ
codes String.[] = []
codes (String.◌∷◌ c s) = code c ∷ codes s

abbrev pub is_digit : ℕ → Bool
is_digit c = leb b'0' c && leb c b'9'

-- `text.slice(-4)`
abbrev pub last_four : List ℕ → List ℕ
last_four [] = []
last_four (c ∷ cs) = if leb (length (c ∷ cs)) 4 then c ∷ cs else last_four cs

-- `'Guest ' + callerPhone.slice(-4)`
unfoldable pub guest_name : List ℕ → List ℕ
guest_name phone = codes "Guest " ++ last_four phone

-- `callerPhone.replace(/\D/g, '') + '@guest.arkrides.local'`
unfoldable pub guest_email : List ℕ → List ℕ
guest_email phone = keep is_digit phone ++ codes "@guest.arkrides.local"

pub data Answer : Type 0 where
  clarification_needed : List MissingField → Answer
  booked : Ride → Answer

-- `given ?? looked_up`
abbrev pub else_place : Option Location → Option Location → Option Location
else_place (some place) looked_up = some place
else_place none looked_up = looked_up

abbrev pub missing_place : MissingField → Option Location → List MissingField
missing_place field none = field ∷ []
missing_place field (some place) = []

module _ (e : Env) (c : Channels) where
  abbrev pub guest : Text → ℕ → User
  guest phone id = record {
    id = id;
    name = c.text_of (guest_name (c.chars phone));
    email = c.text_of (guest_email (c.chars phone));
    phone = some phone;
    password = none;
    provider = some (c.text_of (codes "omnichannel"));
    provider_id = none;
    privy_did = none;
    wallet_address_evm = none;
    wallet_address_solana = none;
    wallet_address_tron = none;
    otp_code = none;
    otp_expiry = none;
    is_verified = false;
    role = Role.user;
    rating_average = 0;
    total_rides = 0;
    cashback_balance = pos 0;
    is_blocked = false;
  }

  -- `userRepository.save(guest)`, which the unique columns may refuse.
  abbrev pub create_guest : Text → Action User
  create_guest phone = do
    created ← asks (λ w. guest phone (e.users.new_id w.db.users))
    clash ← asks (λ w. e.users.find_where (clashes created) w.db.users)
    throw_if (is_some clash) query_failed
    modify_db (λ db. record db { users = e.users.save created db.users })
    return created

  abbrev pub user_or_guest : Text → Option User → Action User
  user_or_guest phone (some user) = return user
  user_or_guest phone none = create_guest phone

  unfoldable pub resolve_rider : Option Text → Action User
  resolve_rider caller_phone = do
    phone ← found_or (bad_request caller_unknown) caller_phone
    throw_if (is_blank phone) (bad_request caller_unknown)
    existing ← asks (λ w. e.users.find_where (λ u. is_id u.phone phone) w.db.users)
    user_or_guest phone existing

  abbrev pub ride_dto :
      ParseAndBookDto → ParsedRideIntent → Location → Location → User → CreateRideDto
  ride_dto dto parsed pickup dropoff user = record {
    user_id = user.id;
    pickup = pickup;
    dropoff = dropoff;
    category = parsed.category;
    origin_channel = some dto.channel;
  }

  unfoldable pub book_for : ParseAndBookDto → ParsedRideIntent → Location → Location → Action Answer
  unfolding resolve_rider
  book_for dto parsed pickup dropoff = do
    user ← resolve_rider dto.caller_phone
    ride ← create_ride e (ride_dto dto parsed pickup dropoff user)
    return (booked ride)

  abbrev pub with_places :
      ParseAndBookDto → ParsedRideIntent → Option Location → Option Location → Action Answer
  with_places dto parsed (some pickup) (some dropoff) = book_for dto parsed pickup dropoff
  with_places dto parsed pickup dropoff = return (
      clarification_needed
        (missing_place pickup_field pickup ++ missing_place dropoff_field dropoff))

  abbrev pub answer_to : ParseAndBookDto → ParseResult → Action Answer
  answer_to dto (ambiguity missing) = return (clarification_needed missing)
  answer_to dto (intent parsed) =
      with_places dto parsed (else_place dto.pickup (c.geocode parsed.pickup_text))
        (else_place dto.dropoff (c.geocode parsed.dropoff_text))

  unfoldable pub parse_and_book : ParseAndBookDto → Action Answer
  unfolding book_for
  parse_and_book dto = answer_to dto (c.parse dto.raw_text)

-- `InternalApiKeyGuard.matches`, of the bytes of two keys.
unfoldable pub key_matches : (provided expected : List ℕ) → Bool
unfolding timing_safe_equal
key_matches provided expected =
    if not (length provided == length expected) then false else timing_safe_equal provided expected

-- `InternalApiKeyGuard.canActivate`: none is the refusal; an empty key is falsy.
unfoldable pub can_activate : (configured provided : Option (List ℕ)) → Bool
unfolding key_matches
can_activate (some (x ∷ xs)) (some (y ∷ ys)) = key_matches (y ∷ ys) (x ∷ xs)
can_activate _ _ = false
