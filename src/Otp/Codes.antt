-- ===== src/Otp/Codes.antt =====
-- What a generated code looks like, and which submitted codes are accepted.
use arkride_backend.Common.{
  ℕ, zero, suc, ◌+◌, ◌/◌, ◌%◌, ◌≤◌, ◌<◌, ◌≡◌, ap, refl, ◌↔◌, true, some, List, [], ◌∷◌, ◌++◌,
  length, Bool-cases, inl, inr, ltb, arith,
}
use arkride_backend.Entities.Accounts.{Code}
use arkride_backend.Otp.{
  decimal, generate, RandomInt, otp_min, otp_max, fixed_width, timing_safe_equal, matches,
}

length-snoc : (c : Code) (b : ℕ) → length (c ++ b ∷ []) ≡ suc (length c)
length-snoc [] b = refl
length-snoc (x ∷ xs) b = ap suc (length-snoc xs b)

-- Every byte is a digit.
abbrev pub AreDigits : Code → Type 0
AreDigits [] = Unit
AreDigits (b ∷ bs) = (48 ≤ b) × (b < 58) × AreDigits bs

AreDigits-snoc : (c : Code) (b : ℕ) → AreDigits c → 48 ≤ b → b < 58 → AreDigits (c ++ b ∷ [])
AreDigits-snoc [] b h lo hi = (lo, hi, tt)
AreDigits-snoc (x ∷ xs) b (p, q, h) lo hi = (p, q, AreDigits-snoc xs b h lo hi)

decimal-AreDigits : (fuel n : ℕ) → AreDigits (decimal fuel n)
unfolding decimal
decimal-AreDigits zero n = tt
decimal-AreDigits (suc fuel) n = elim (Bool-cases (ltb n 10)) [
  | inl small ↦ rw small (omega arith, ground arith, tt)
  | inr large ↦ rw large (
      AreDigits-snoc (decimal fuel (n / 10)) (48 + n % 10) (decimal-AreDigits fuel (n / 10))
        (omega arith) (omega arith))
]

decimal_one : (fuel n : ℕ) → n < 10 → length (decimal (suc fuel) n) ≡ 1
unfolding decimal
decimal_one fuel n h = ground arith

decimal_more :
    (fuel n : ℕ) → 10 ≤ n → length (decimal (suc fuel) n) ≡ suc (length (decimal fuel (n / 10)))
unfolding decimal
decimal_more fuel n h = ground (arith, length-snoc (decimal fuel (n / 10)) (48 + n % 10))

decimal_six :
    (fuel n : ℕ)
    → 100_000 ≤ n
    → n < 1_000_000
    → length (decimal (suc (suc (suc (suc (suc (suc fuel)))))) n) ≡ 6
decimal_six fuel n lo hi = omega (
  arith,
  decimal_more (suc (suc (suc (suc (suc fuel))))) n (omega arith),
  decimal_more (suc (suc (suc (suc fuel)))) (n / 10) (omega arith),
  decimal_more (suc (suc (suc fuel))) (n / 10 / 10) (omega arith),
  decimal_more (suc (suc fuel)) (n / 10 / 10 / 10) (omega arith),
  decimal_more (suc fuel) (n / 10 / 10 / 10 / 10) (omega arith),
  decimal_one fuel (n / 10 / 10 / 10 / 10 / 10) (omega arith),
)

-- A generated code has exactly six digits, whatever number of its range the random source gives.
pub generate_digits :
    (random_int : RandomInt)
    → otp_min ≤ random_int otp_min otp_max
    → random_int otp_min otp_max < otp_max
    → (length (generate random_int) ≡ 6) × AreDigits (generate random_int)
unfolding generate
generate_digits random_int lo hi = (
  decimal_six 10 (random_int otp_min otp_max) lo hi,
  decimal-AreDigits 16 (random_int otp_min otp_max),
)

timing_safe_equal_refl : (xs : List ℕ) → timing_safe_equal xs xs ≡ true
unfolding timing_safe_equal
timing_safe_equal_refl [] = refl
timing_safe_equal_refl (x ∷ xs) = ground (arith, timing_safe_equal_refl xs)

fixed_width-injective :
    (width : ℕ) (a b : Code)
    → length a ≤ width
    → length a ≡ length b
    → timing_safe_equal (fixed_width width a) (fixed_width width b) ≡ true
    → a ≡ b
unfolding fixed_width timing_safe_equal
fixed_width-injective width [] [] h k e = refl
fixed_width-injective width [] (y ∷ ys) h k e = absurd (omega arith)
fixed_width-injective width (x ∷ xs) [] h k e = absurd (omega arith)
fixed_width-injective zero (x ∷ xs) (y ∷ ys) h k e = absurd (omega arith)
fixed_width-injective (suc width) (x ∷ xs) (y ∷ ys) h k e =
    ground (arith, fixed_width-injective width xs ys)

-- Of codes of at most 64 bytes, exactly the stored one is accepted, and never an empty one.
pub matches_iff :
    (submitted stored : Code)
    → length submitted ≤ 64
    → (matches (some submitted) (some stored) ≡ true) ↔ ((submitted ≡ stored) × (0 < length stored))
unfolding matches
matches_iff [] stored h = (λ e. cc, λ p. absurd (omega (arith, p.1, ap length p.0)))
matches_iff (x ∷ xs) [] h = (λ e. cc, λ p. absurd (omega (arith, p.1)))
matches_iff (x ∷ xs) (y ∷ ys) h = ground (
  arith,
  fixed_width-injective 64 (x ∷ xs) (y ∷ ys),
  timing_safe_equal_refl (fixed_width 64 (x ∷ xs)),
)
