-- ===== src/Drivers/Password.antt =====
-- Signing in with a password, and resetting it with a one-time code: `login`, `forgotPassword`,
-- `resetPassword`.
pub mod Reset
use arkride_backend.Common.{ℕ, true, not, Option, none, some, ◌==◌, if◌then◌else◌}
use arkride_backend.Common.Text.{Text, is_blank}
use arkride_backend.Entities.Accounts.{Driver, Code}
use arkride_backend.Otp.{generate, get_expiry_time, is_expired, matches}
use arkride_backend.Auth.Tokens.{AuthEnv, issue_session}
use arkride_backend.Auth.Secrets.{Secrets, forgot_password_mail}
use arkride_backend.Drivers.{sanitize_driver, find_driver}
use arkride_backend.Drivers.Registration.{Registered}
use arkride_backend.World.{
  Env, Action, return, found_or, throw_if, asks, modify_db, ◌>>=◌, ◌>>◌, bad_request, not_found,
  unauthorized, driver_not_found, mail_failed, invalid_otp, otp_expired,
}

-- The hash, if there is one that is not empty.
abbrev pub given_hash : Option Text → Option Text
given_hash none = none
given_hash (some h) = if is_blank h then none else some h

module _ (e : Env) where
  abbrev pub by_email : Text → Action (Option Driver)
  by_email email = find_driver e (λ d. d.email == email)

  unfoldable pub login : AuthEnv → Secrets → (email password : Text) → Action Registered
  unfolding sanitize_driver
  login a s email password = do
    driver ← found_or unauthorized (← by_email email)
    hashed ← found_or unauthorized (given_hash driver.password)
    throw_if (not (s.compare password hashed)) unauthorized
    throw_if (not driver.is_active) unauthorized
    session ← issue_session a (record { id = driver.id; role = driver.role; is_driver = true })
    return (record { driver = sanitize_driver driver; session = session })

  -- `driversRepository.update(id, set)`: nothing where the row is gone.
  abbrev pub set_driver : ℕ → (Driver → Driver) → Action (Unit {0})
  set_driver id f = modify_db (λ db. record db {
    drivers = elim (e.drivers.find_one id db.drivers) [
      | none ↦ db.drivers
      | some d ↦ e.drivers.save (f d) db.drivers
    ];
  })

  unfoldable pub update_otp : ℕ → Code → ℕ → Action (Unit {0})
  update_otp id otp_code otp_expiry =
      set_driver id (λ d. record d { otp_code = some otp_code; otp_expiry = some otp_expiry })

  unfoldable pub update_password : ℕ → Text → Action (Unit {0})
  update_password id hashed =
      set_driver id (λ d. record d { password = some hashed; otp_code = none; otp_expiry = none })

  unfoldable pub forgot_password : Secrets → Text → Action (Unit {0})
  unfolding update_otp
  forgot_password s email = do
    driver ← found_or (not_found driver_not_found) (← by_email email)
    otp ← asks (λ w. generate (s.random_int w))
    now ← asks (λ w. w.now)
    update_otp driver.id otp (get_expiry_time now 10)
    sent ← asks (s.mail_accepts (forgot_password_mail driver.email otp driver.name))
    throw_if (not sent) (bad_request mail_failed)

  unfoldable pub reset_password :
      Secrets → (email : Text) → Code → (new_password : Text) → Action (Unit {0})
  unfolding update_password
  reset_password s email otp new_password = do
    driver ← found_or (not_found driver_not_found) (← by_email email)
    throw_if (not (matches (some otp) driver.otp_code)) (bad_request invalid_otp)
    now ← asks (λ w. w.now)
    throw_if (is_expired now driver.otp_expiry) (bad_request otp_expired)
    hashed ← asks (λ w. s.hash w new_password)
    update_password driver.id hashed
