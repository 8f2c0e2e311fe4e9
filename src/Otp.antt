-- ===== src/Otp.antt =====
-- `OtpUtil` (src/common/utils/otp.util.ts): one-time codes. A code's text is the list of its bytes; the
-- random source is an argument.
pub mod Codes
use arkride_backend.Common.{
  ℕ, zero, suc, ◌+◌, ◌*◌, ◌/◌, ◌%◌, Bool, true, false, ◌&&◌, Option, none, some, List, [], ◌∷◌,
  ◌++◌, ◌==◌, ltb, length, if◌then◌else◌,
}
use arkride_backend.Entities.Accounts.{Code}

-- `n.toString()`, by digits; the fuel is the number of digits at most.
unfoldable pub decimal : ℕ → ℕ → Code
decimal zero n = []
decimal (suc fuel) n =
    let rest = decimal fuel (n / 10) in
    if ltb n 10 then (48 + n) ∷ [] else rest ++ (48 + n % 10) ∷ []

-- `randomInt(min, max)`
abbrev pub RandomInt : Type 0
RandomInt = ℕ → ℕ → ℕ

abbrev pub otp_min : ℕ
otp_min = 100_000

abbrev pub otp_max : ℕ
otp_max = 1_000_000

-- A safe integer has at most 16 digits.
unfoldable pub generate : RandomInt → Code
generate random_int = decimal 16 (random_int otp_min otp_max)

abbrev pub get_expiry_time : (now minutes : ℕ) → ℕ
get_expiry_time now minutes = now + minutes * 60_000

abbrev pub is_expired : (now : ℕ) → Option ℕ → Bool
is_expired now none = true
is_expired now (some expiry_date) = ltb expiry_date now

-- A buffer of `width` bytes that holds a truncation of the value, padded with zeros.
unfoldable pub fixed_width : ℕ → Code → List ℕ
fixed_width zero value = []
fixed_width (suc width) [] = 0 ∷ fixed_width width []
fixed_width (suc width) (b ∷ bs) = b ∷ fixed_width width bs

-- `timingSafeEqual` of two buffers.
unfoldable pub timing_safe_equal : List ℕ → List ℕ → Bool
timing_safe_equal [] [] = true
timing_safe_equal (x ∷ xs) (y ∷ ys) = x == y && timing_safe_equal xs ys
timing_safe_equal _ _ = false

unfoldable pub matches : Option Code → Option Code → Bool
matches (some (x ∷ xs)) (some (y ∷ ys)) =
    timing_safe_equal (fixed_width 64 (x ∷ xs)) (fixed_width 64 (y ∷ ys))
    && length (x ∷ xs) == length (y ∷ ys)
matches _ _ = false
