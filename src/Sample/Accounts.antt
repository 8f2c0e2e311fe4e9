-- ===== src/Sample/Accounts.antt =====
-- A driver with a code to reset the password, and a blocked rider with a live token.
use arkride_backend.Common.{true, some, none, [], ◌∷◌}
use arkride_backend.Entities.Accounts.{User, Driver, Code}
use arkride_backend.Entities.Safety.{RateeType}
use arkride_backend.Auth.Accounts.{RegisterDto}
use arkride_backend.Ratings.{CreateRatingDto}
use arkride_backend.Emergency.{TriggerEmergencyDto}
use arkride_backend.Sample.Data.{rider, chauffeur, idle, signed_in}
use arkride_backend.World.{World}

abbrev pub code : Code
code = 49 ∷ 50 ∷ 51 ∷ []

abbrev pub forgetful : Driver
forgetful = record chauffeur { otp_code = some code; otp_expiry = some 60 }

abbrev pub resetting : World
resetting = record idle { db = record idle.db { drivers = forgetful ∷ [] } }

abbrev pub blocked : User
blocked = record rider { is_blocked = true }

abbrev pub blocked_in : World
blocked_in = record signed_in { db = record signed_in.db { users = blocked ∷ [] } }

abbrev pub newcomer : RegisterDto
newcomer = record {
  name = 13;
  email = 103;
  phone = 203;
  password = 303;
  confirm_password = 303;
  accept_terms = true;
}

abbrev pub praise : CreateRatingDto
praise = record {
  ride_id = 8;
  ratee_id = 2;
  ratee_type = RateeType.driver;
  rating = 5;
  comment = none;
}

abbrev pub alarm : TriggerEmergencyDto
alarm = record { ride_id = 7; lat = none; lng = none; note = none }
