-- ===== src/Auth/Accounts.antt =====
-- Signing up and in with a password: `AuthService` (src/auth/auth.service.ts), less what renews and
-- ends a session.
pub mod Codes
use arkride_backend.Common.{
  ℕ, Bool, true, false, not, Option, none, some, ◌==◌, if◌then◌else◌, [], ◌∷◌,
}
use arkride_backend.Common.Text.{Text, is_blank}
use arkride_backend.Entities.Accounts.{Role, User, Code}
use arkride_backend.Otp.{generate, get_expiry_time, is_expired, matches}
use arkride_backend.Auth.Tokens.{AuthEnv, SessionSubject, SessionTokens, issue_session}
use arkride_backend.Auth.Secrets.{Secrets, forgot_password_mail, otp_mail}
use arkride_backend.Users.{
  UserData, create_user, check_if_email_exists, check_if_phone_exists, find_by_email, verify_user,
  update_otp, update_password,
}
use arkride_backend.World.{
  Env, Action, return, found_or, throw_if, asks, ◌>>=◌, ◌>>◌, bad_request, unauthorized, Reason,
  mail_failed, invalid_otp, otp_expired, no_otp, terms_not_accepted, passwords_differ,
  already_verified, social_account, user_not_found,
}

pub record RegisterDto : Type 0 where
  pub name : Text
  pub email : Text
  pub phone : Text
  pub password : Text
  pub confirm_password : Text
  pub accept_terms : Bool

-- A user as the service answers, less `password`, `otpCode` and `otpExpiry`: the row's id, name,
-- e-mail, role and marks.
pub record SanitizedUser : Type 0 where
  pub id : ℕ
  pub name : Text
  pub email : Text
  pub phone : Option Text
  pub role : Role
  pub is_verified : Bool
  pub is_blocked : Bool

abbrev pub sanitize_user : User → SanitizedUser
sanitize_user u = record {
  id = u.id;
  name = u.name;
  email = u.email;
  phone = u.phone;
  role = u.role;
  is_verified = u.is_verified;
  is_blocked = u.is_blocked;
}

pub record SignedIn : Type 0 where
  pub user : SanitizedUser
  pub session : SessionTokens

-- The provider 'local' is the text that stands as 1.
abbrev local : Text
local = 1

abbrev pub given : Option Text → Option Text
given none = none
given (some h) = if is_blank h then none else some h

abbrev pub given_code : Option Code → Bool
given_code none = false
given_code (some []) = false
given_code (some (x ∷ xs)) = true

abbrev pub subject_of_user : User → SessionSubject
subject_of_user u = record { id = u.id; role = u.role; is_driver = false }

abbrev pub registration : RegisterDto → Text → UserData
registration dto hashed = record {
  name = dto.name;
  email = dto.email;
  phone = some dto.phone;
  password = some hashed;
  provider = some local;
  provider_id = none;
  is_verified = true;
  otp_code = none;
  otp_expiry = none;
}

module _ (e : Env) (a : AuthEnv) (s : Secrets) where
  -- The refusals of `register`.
  unfoldable pub check_register : RegisterDto → Action (Unit {0})
  unfolding check_if_email_exists check_if_phone_exists
  check_register dto = do
    throw_if (not dto.accept_terms) (bad_request terms_not_accepted)
    throw_if (not (dto.password == dto.confirm_password)) (bad_request passwords_differ)
    check_if_email_exists e dto.email
    check_if_phone_exists e dto.phone

  -- The mail with the code, sent in a `try` that ends in a log line, has no effect on the rest.
  unfoldable pub register : RegisterDto → Action SignedIn
  register dto = do
    check_register dto
    hashed ← asks (λ w. s.hash w dto.password)
    user ← create_user e (registration dto hashed)
    session ← issue_session a (subject_of_user user)
    return (record { user = sanitize_user user; session = session })

  unfoldable pub verify_otp : (email : Text) → Code → Action SignedIn
  unfolding verify_user
  verify_otp email otp = do
    user ← found_or (bad_request user_not_found) (← find_by_email e email)
    throw_if user.is_verified (bad_request already_verified)
    throw_if (not (given_code user.otp_code)) (bad_request no_otp)
    throw_if (not (matches (some otp) user.otp_code)) (bad_request invalid_otp)
    now ← asks (λ w. w.now)
    throw_if (is_expired now user.otp_expiry) (bad_request otp_expired)
    verify_user e user.id
    session ← issue_session a (subject_of_user user)
    return (record { user = record (sanitize_user user) { is_verified = true }; session = session })

  unfoldable pub resend_otp : (email : Text) → Action Text
  unfolding update_otp
  resend_otp email = do
    user ← found_or (bad_request user_not_found) (← find_by_email e email)
    throw_if user.is_verified (bad_request already_verified)
    otp ← asks (λ w. generate (s.random_int w))
    now ← asks (λ w. w.now)
    update_otp e user.id otp (get_expiry_time now 10)
    sent ← asks (s.mail_accepts (otp_mail user.email otp user.name))
    throw_if (not sent) (bad_request mail_failed)
    return user.email

  unfoldable pub login : (email password : Text) → Action SignedIn
  login email password = do
    user ← found_or unauthorized (← find_by_email e email)
    hashed ← found_or (bad_request social_account) (given user.password)
    throw_if (not (s.compare password hashed)) unauthorized
    throw_if (not user.is_verified) unauthorized
    session ← issue_session a (subject_of_user user)
    return (record { user = sanitize_user user; session = session })

  unfoldable pub forgot_password : (email : Text) → Action (Unit {0})
  unfolding update_otp
  forgot_password email = do
    user ← found_or (bad_request user_not_found) (← find_by_email e email)
    otp ← asks (λ w. generate (s.random_int w))
    now ← asks (λ w. w.now)
    update_otp e user.id otp (get_expiry_time now 10)
    sent ← asks (s.mail_accepts (forgot_password_mail user.email otp user.name))
    throw_if (not sent) (bad_request mail_failed)

  unfoldable pub reset_password : (email : Text) → Code → (new_password : Text) → Action (Unit {0})
  unfolding update_password
  reset_password email otp new_password = do
    user ← found_or (bad_request user_not_found) (← find_by_email e email)
    throw_if (not (matches (some otp) user.otp_code)) (bad_request invalid_otp)
    now ← asks (λ w. w.now)
    throw_if (is_expired now user.otp_expiry) (bad_request otp_expired)
    hashed ← asks (λ w. s.hash w new_password)
    update_password e user.id hashed
