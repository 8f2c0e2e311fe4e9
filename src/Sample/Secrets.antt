-- ===== src/Sample/Secrets.antt =====
-- Secrets that hash a text to the next one, draw the least code and mail everything.
use arkride_backend.Common.{ℕ, ◌+◌, ◌≤◌, ◌<◌, ◌≡◌, ◌==◌, true, false, arith}
use arkride_backend.Common.Text.{is_blank}
use arkride_backend.Auth.Secrets.{Secrets}
use arkride_backend.Otp.{otp_min, otp_max}

pub equal_refl : (p : ℕ) → (p == p) ≡ true
equal_refl p = ground arith

pub next_given : (p : ℕ) → is_blank (p + 1) ≡ false
next_given p = ground arith

pub least : otp_min ≤ otp_min
least = omega arith

pub below : otp_min < otp_max
below = omega arith

abbrev pub secrets : Secrets
secrets = record {
  hash = λ w p. p + 1;
  compare = λ p h. (p + 1) == h;
  random_int = λ w lo hi. lo;
  mail_accepts = λ m w. true;
  compare_hash = λ w p. equal_refl (p + 1);
  hash_given = λ w p. next_given p;
  random_int_min = λ w. least;
  random_int_max = λ w. below;
}
