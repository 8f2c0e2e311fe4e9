-- ===== src/Common/Lists.antt =====
-- Lists measured by native numbers.
use Prim.Native.Nat.{ℕ, suc, ◌+◌, ◌≤◌}
use mathlib.Core.Path.{◌≡◌, refl}
use mathlib.Core.Bool.{Bool, false, ◌||◌}
use mathlib.Core.Option.{Option, none, some}
use mathlib.Core.List.{List, [], ◌∷◌}
use native.Mathlib.Omega.{arith}
use arkride_backend.Common.Tests.{bit, if◌then◌else◌}

module _ {ℓ} {A : Type ℓ} where
  abbrev pub length : List A → ℕ
  length [] = 0
  length (x ∷ xs) = suc (length xs)

  -- `xs.some(p)`
  abbrev pub any : (A → Bool) → List A → Bool
  any p [] = false
  any p (x ∷ xs) = p x || any p xs

  -- The rows that pass a test, in order.
  abbrev pub keep : (A → Bool) → List A → List A
  keep p [] = []
  keep p (x ∷ xs) = if p x then x ∷ keep p xs else keep p xs

  -- The first row that passes a test, `xs.find(p)`.
  abbrev pub first : (A → Bool) → List A → Option A
  first p [] = none
  first p (x ∷ xs) = if p x then some x else first p xs

  abbrev pub sum_by : (A → ℕ) → List A → ℕ
  sum_by w [] = 0
  sum_by w (x ∷ xs) = w x + sum_by w xs

  pub sum_by-one : (xs : List A) → sum_by (λ _. 1) xs ≡ length xs
  sum_by-one [] = refl
  sum_by-one (x ∷ xs) = omega (arith, sum_by-one xs)

  -- No row counts if none passes.
  pub sum_by-any : (p : A → Bool) (xs : List A) → any p xs ≡ false → sum_by (λ x. bit (p x)) xs ≡ 0
  sum_by-any p [] h = refl
  sum_by-any p (x ∷ xs) h = ground (arith, sum_by-any p xs)

module _ {ℓ} {A : Type ℓ} where
  pub sum_by-cong : (v w : A → ℕ) (xs : List A) → ((x : A) → v x ≡ w x) → sum_by v xs ≡ sum_by w xs
  sum_by-cong v w [] h = refl
  sum_by-cong v w (x ∷ xs) h = omega (arith, h x, sum_by-cong v w xs h)

  pub sum_by-zero : (w : A → ℕ) (xs : List A) → ((x : A) → w x ≡ 0) → sum_by w xs ≡ 0
  sum_by-zero w [] h = refl
  sum_by-zero w (x ∷ xs) h = omega (arith, h x, sum_by-zero w xs h)

  pub sum_by_mono : (v w : A → ℕ) (xs : List A) → ((x : A) → v x ≤ w x) → sum_by v xs ≤ sum_by w xs
  sum_by_mono v w [] h = omega arith
  sum_by_mono v w (x ∷ xs) h = omega (arith, h x, sum_by_mono v w xs h)

  pub sum_by-+ :
      (v w : A → ℕ) (xs : List A) → sum_by (λ x. v x + w x) xs ≡ sum_by v xs + sum_by w xs
  sum_by-+ v w [] = refl
  sum_by-+ v w (x ∷ xs) = omega (arith, sum_by-+ v w xs)
