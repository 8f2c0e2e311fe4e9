-- ===== src/Money.antt =====
-- Naira and kobo (src/common/utils/money.util.ts).
--
-- A JavaScript number of naira is an integer count of thousandths of a naira (`Naira`), of which it is
-- the nearest double, so that the rounding of `toKobo` is seen; a number of kobo is an integer
-- (`Kobo`). Fares are never negative and stand over ℕ. The shares 0.95 and 0.01 are doubles whose
-- relative error is below 2⁻⁵⁴, so for fewer than 2⁴⁵ kobo the floor of the double product is the
-- floor of the rational one.
pub mod Split
pub mod Rounding
use Prim.Native.Nat.{◌^◌}
use arkride_backend.Common.{
  ℕ, zero, suc, ◌+◌, ◌-◌, ◌*◌, ◌/◌, ◌%◌, ◌≤◌, ◌≡◌, ◌==◌, ◌||◌, ◌&&◌, ltb, if◌then◌else◌, true,
  false, arith,
}
use arkride_backend.Common.Int.{ℤ, pos, negsuc}

-- Thousandths of a naira.
abbrev pub Naira : Type 0
Naira = ℤ

abbrev pub Kobo : Type 0
Kobo = ℤ

abbrev pub negate_ℕ : ℕ → ℤ
negate_ℕ zero = pos 0
negate_ℕ (suc n) = negsuc n

-- `-x`
abbrev pub negate : ℤ → ℤ
negate (pos n) = negate_ℕ n
negate (negsuc n) = pos (suc n)

-- Where the double product of an amount and 100 lies, beside a half kobo that it would exactly be.
pub data Side : Type 0 where
  below : Side
  half : Side
  above : Side

-- A positive amount `x / 1000` scaled by a power of two, given with it, to at least 2⁵².
scale : (fuel x power : ℕ) → ℕ × ℕ
scale zero x power = (x, power)
scale (suc fuel) x power =
    let rest = scale fuel (x * 2) (power * 2) in if ltb x (1000 * 2 ^ 52) then rest else (x, power)

-- The nearest integer to `x / d`, of two the even one.
round_even : (x d : ℕ) → ℕ
round_even x d =
    let q = x / d in
    let r = x % d in if ltb (r * 2) d || (r * 2 == d && q % 2 == 0) then q else q + 1

side_of : (x y : ℕ) → Side
side_of x y = if x == y then half else if ltb x y then below else above

-- The double of `n` thousandths has the 53 bits of `mantissa`; times 100 it has 59 or 60 bits, and
-- is rounded to 53 again. That product is compared with `n / 10`.
unfoldable product_side : ℕ → Side
unfolding scale round_even side_of
product_side n =
    let (x, power) = scale 63 n 1 in
    let mantissa = round_even x 1000 in
    let unit = if ltb (mantissa * 100) (2 ^ 59) then 2 ^ 6 else 2 ^ 7 in
    side_of (round_even (mantissa * 100) unit * unit * 10) (n * power)

-- Elsewhere than at a half the error of the product is too small to be seen.
unfoldable pub half_side : ℕ → Side
unfolding product_side
half_side n = elim (n % 10 == 5) [ true ↦ product_side n | false ↦ half ]

-- A magnitude in thousandths, rounded to kobo: up at a half, and down at a half.
unfoldable pub half_up : Side → ℕ → ℕ
half_up below n = n / 10
half_up half n = (n + 5) / 10
half_up above n = (n + 5) / 10

unfoldable pub half_down : Side → ℕ → ℕ
half_down below n = (n + 4) / 10
half_down half n = (n + 4) / 10
half_down above n = (n + 5) / 10

-- `Math.round(naira * 100)`, a product of doubles: `Math.round` takes a half upwards, also below
-- zero.
unfoldable pub to_kobo : Naira → Kobo
to_kobo (pos n) = pos (half_up (half_side n) n)
to_kobo (negsuc n) = negate_ℕ (half_down (half_side (suc n)) (suc n))

unfoldable pub to_naira : Kobo → Naira
to_naira (pos n) = pos (n * 10)
to_naira (negsuc n) = negsuc (n * 10 + 9)

-- A fare is not negative: `toKobo` and `toNaira` on ℕ.
unfoldable pub fare_to_kobo : ℕ → ℕ
fare_to_kobo naira = half_up (half_side naira) naira

unfoldable pub fare_to_naira : ℕ → ℕ
fare_to_naira kobo = kobo * 10

pub record FareSplitKobo : Type 0 where
  pub total_kobo : ℕ
  pub driver_kobo : ℕ
  pub platform_kobo : ℕ
  pub rider_kobo : ℕ

unfoldable pub split_fare_kobo : ℕ → FareSplitKobo
unfolding fare_to_kobo
split_fare_kobo final_fare_naira =
    let total_kobo = fare_to_kobo final_fare_naira in
    let driver_kobo = total_kobo * 95 / 100 in
    let rider_kobo = total_kobo / 100 in
    record {
      total_kobo = total_kobo;
      driver_kobo = driver_kobo;
      platform_kobo = total_kobo - driver_kobo - rider_kobo;
      rider_kobo = rider_kobo;
    }

pub record FareSplitNaira : Type 0 where
  pub total_fare : ℕ
  pub driver_earning : ℕ
  pub platform_commission : ℕ
  pub rider_cashback : ℕ

unfoldable pub split_fare_naira : ℕ → FareSplitNaira
unfolding split_fare_kobo fare_to_naira
split_fare_naira final_fare_naira =
    let split = split_fare_kobo final_fare_naira in
    record {
      total_fare = fare_to_naira split.total_kobo;
      driver_earning = fare_to_naira split.driver_kobo;
      platform_commission = fare_to_naira split.platform_kobo;
      rider_cashback = fare_to_naira split.rider_kobo;
    }
