-- ===== src/Auth/Secrets.antt =====
-- bcrypt, the random source and the mail queue, which the account services call.
use arkride_backend.Common.{◌≤◌, ◌<◌, ◌≡◌, Bool, true, false}
use arkride_backend.Common.Text.{Text, is_blank}
use arkride_backend.Entities.Accounts.{Code}
use arkride_backend.Otp.{RandomInt, otp_min, otp_max}
use arkride_backend.World.{World}

-- The jobs that src/common/services/email.service.ts queues.
pub data Mail : Type 0 where
  otp_mail forgot_password_mail : (to : Text) → Code → (name : Text) → Mail
  welcome_mail : (to name : Text) → Mail

pub record Secrets : Type 0 where
  -- `bcrypt.hash(password, 10)`, with a salt from the random source, and `bcrypt.compare`.
  pub hash : World → Text → Text
  pub compare : (password hashed : Text) → Bool
  pub random_int : World → RandomInt
  -- Whether the mail queue takes the job.
  pub mail_accepts : Mail → World → Bool
  pub compare_hash : (w : World) (password : Text) → compare password (hash w password) ≡ true
  pub hash_given : (w : World) (password : Text) → is_blank (hash w password) ≡ false
  pub random_int_min : (w : World) → otp_min ≤ random_int w otp_min otp_max
  pub random_int_max : (w : World) → random_int w otp_min otp_max < otp_max
