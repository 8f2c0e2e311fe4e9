-- ===== src/Drivers/Requests.antt =====
-- The driver endpoints as a transition system, together with what rides, wallets and ratings
-- write to a driver's row.
pub mod Kept
pub mod Purse
pub mod History
use arkride_backend.Common.{ℕ, ◌≡◌, Bool, Option, List}
use arkride_backend.Common.Text.{Text}
use arkride_backend.Money.{Naira}
use arkride_backend.Entities.Accounts.{VerificationStatus, Code}
use arkride_backend.Auth.Tokens.{AuthEnv}
use arkride_backend.Auth.Secrets.{Secrets}
use arkride_backend.Drivers.Registration.{CreateDriverDto, create, create_from_privy}
use arkride_backend.Drivers.Profile.{UpdateDriverDto, update}
use arkride_backend.Drivers.Standing.{
  update_online_status, update_verification_status, update_active_status, remove,
}
use arkride_backend.Drivers.Password.{login, forgot_password, reset_password}
use arkride_backend.Rides.Settlement.{complete_ride}
use arkride_backend.Wallet.{request_fuel_support, request_payout}
use arkride_backend.Entities.Safety.{Rating}
use arkride_backend.Ratings.{CreateRatingDto}
use arkride_backend.Ratings as Ratings
use arkride_backend.World.{World, Env}

-- src/drivers/drivers.controller.ts: the calls that its endpoints make; `register_privy` is the one
-- of src/auth/privy/privy-auth.service.ts.
pub data Request : Type 0 where
  register : CreateDriverDto → Request
  register_privy :
      (did placeholder : Text) → (email wallet : Option Text) → CreateDriverDto → Request
  sign_in : (email password : Text) → Request
  edit : ℕ → UpdateDriverDto → Request
  go : ℕ → (is_online : Bool) → Request
  verify : ℕ → VerificationStatus → Request
  activate : ℕ → (is_active : Bool) → Request
  delete : ℕ → Request
  forgot : (email : Text) → Request
  reset : (email : Text) → Code → (new_password : Text) → Request
  complete : (ride_id driver_id : ℕ) → Request
  fuel payout : (driver_id : ℕ) → Naira → Request
  rate : (rater_id : ℕ) → CreateRatingDto → Request

-- `average` is `AVG(rating)` over rows, as the database computes it.
module _ (e : Env) (a : AuthEnv) (s : Secrets) (average : List Rating → ℕ) where
  unfoldable pub serve : Request → World → World
  serve (register dto) w = (create e a s dto w).1
  serve (register_privy did placeholder email wallet dto) w =
      (create_from_privy e did placeholder email wallet dto w).1
  serve (sign_in email password) w = (login e a s email password w).1
  serve (edit id dto) w = (update e id dto w).1
  serve (go id is_online) w = (update_online_status e id is_online w).1
  serve (verify id status) w = (update_verification_status e a id status w).1
  serve (activate id is_active) w = (update_active_status e a id is_active w).1
  serve (delete id) w = (remove e a id w).1
  serve (forgot email) w = (forgot_password e s email w).1
  serve (reset email otp new_password) w = (reset_password e s email otp new_password w).1
  serve (complete r d) w = (complete_ride e r d w).1
  serve (fuel d x) w = (request_fuel_support e d x w).1
  serve (payout d x) w = (request_payout e d x w).1
  serve (rate rater_id dto) w = (Ratings.create e average rater_id dto w).1

  pub data Step (w : World) : World → Type 0 where
    request : (q : Request) → Step w (serve q w)
    elsewhere : {v : World} → v.db.drivers ≡ w.db.drivers → Step w v

  pub data Reach (w : World) : World → Type 0 where
    here : Reach w w
    next : {u v : World} → Reach w u → Step u v → Reach w v
