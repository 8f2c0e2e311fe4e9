-- ===== src/Money/Rounding.antt =====
-- `toKobo` and `toNaira` as conversions.
use arkride_backend.Common.{
  ℕ, suc, ◌+◌, ◌*◌, ◌/◌, ◌%◌, ◌≤◌, ◌≡◌, ◌==◌, ◌⊎◌, inl, inr, Bool-cases, ap, arith,
}
use arkride_backend.Common.Int.{pos, negsuc, pos_part, neg_part, ◌+ℤ◌, ◌≤ℤ◌, int_laws}
use arkride_backend.Money.{
  Naira, Kobo, negate_ℕ, to_kobo, to_naira, Side, half_side, half_up, half_down, fare_to_kobo,
  fare_to_naira,
}

-- The double product is looked at only where there is half a kobo.
half_side-cases : (n : ℕ) → (half_side n ≡ Side.half) ⊎ (n % 10 ≡ 5)
unfolding half_side
half_side-cases n = elim (Bool-cases (n % 10 == 5)) [
  | inl h ↦ inr (ground arith)
  | inr h ↦ inl (ground arith)
]

half_up_bounds : (s : Side) (n : ℕ) → (n / 10 ≤ half_up s n) × (half_up s n ≤ (n + 5) / 10)
unfolding half_up
half_up_bounds s n = ground arith

half_down_bounds :
    (s : Side) (n : ℕ) → ((n + 4) / 10 ≤ half_down s n) × (half_down s n ≤ (n + 5) / 10)
unfolding half_down
half_down_bounds s n = ground arith

-- A magnitude with no half in it is rounded to the nearest kobo.
half_up-nearest : (n : ℕ) → (half_up (half_side n) n ≡ (n + 5) / 10) ⊎ (n % 10 ≡ 5)
unfolding half_up
half_up-nearest n = elim (half_side-cases n) [ inl h ↦ inl (ground arith) | inr h ↦ inr h ]

half_down-nearest : (n : ℕ) → (half_down (half_side n) n ≡ (n + 4) / 10) ⊎ (n % 10 ≡ 5)
unfolding half_down
half_down-nearest n = elim (half_side-cases n) [ inl h ↦ inl (ground arith) | inr h ↦ inr h ]

pub fare_to_kobo-fare_to_naira : (kobo : ℕ) → fare_to_kobo (fare_to_naira kobo) ≡ kobo
unfolding fare_to_kobo fare_to_naira
fare_to_kobo-fare_to_naira kobo = omega (arith, half_up-nearest (kobo * 10))

half_down_kobo : (n : ℕ) → half_down (half_side (suc (n * 10 + 9))) (suc (n * 10 + 9)) ≡ suc n
half_down_kobo n = omega (arith, half_down-nearest (suc (n * 10 + 9)))

-- Kobo survive the way to naira and back.
pub to_kobo-to_naira : (k : Kobo) → to_kobo (to_naira k) ≡ k
unfolding to_kobo to_naira fare_to_kobo fare_to_naira
to_kobo-to_naira (pos n) = ap pos (fare_to_kobo-fare_to_naira n)
to_kobo-to_naira (negsuc n) = ap negate_ℕ (half_down_kobo n)

half_up_mono : (n m : ℕ) → n ≤ m → half_up (half_side n) n ≤ half_up (half_side m) m
half_up_mono n m h = elim (Bool-cases (n == m)) [
  | inl same ↦ ground arith
  | inr other ↦ ground (
    arith,
    half_up-nearest n,
    half_up-nearest m,
    half_up_bounds (half_side n) n,
    half_up_bounds (half_side m) m,
  )
]

half_down_mono : (n m : ℕ) → n ≤ m → half_down (half_side n) n ≤ half_down (half_side m) m
half_down_mono n m h = elim (Bool-cases (n == m)) [
  | inl same ↦ ground arith
  | inr other ↦ ground (
    arith,
    half_down-nearest n,
    half_down-nearest m,
    half_down_bounds (half_side n) n,
    half_down_bounds (half_side m) m,
  )
]

pub to_naira_parts :
    (k : Kobo)
    → (pos_part (to_naira k) ≡ pos_part k * 10) × (neg_part (to_naira k) ≡ neg_part k * 10)
unfolding to_naira
to_naira_parts k = ground arith

pub to_naira-+ℤ : (a b : Kobo) → to_naira a +ℤ to_naira b ≡ to_naira (a +ℤ b)
to_naira-+ℤ a b = omega (int_laws, to_naira_parts)

pub to_kobo_mono : (a b : Naira) → a ≤ℤ b → to_kobo a ≤ℤ to_kobo b
unfolding to_kobo
to_kobo_mono (pos n) (pos m) h = ground (arith, half_up_mono n m)
to_kobo_mono (pos n) (negsuc m) h = ground arith
to_kobo_mono (negsuc n) (pos m) h = ground arith
to_kobo_mono (negsuc n) (negsuc m) h = ground (arith, half_down_mono (suc m) (suc n))
