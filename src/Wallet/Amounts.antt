-- ===== src/Wallet/Amounts.antt =====
-- What a rounded amount does to a balance.
use arkride_backend.Common.{refl, zero, suc, ℕ, ◌+◌, ◌*◌, ◌≡◌, ◌∙◌, ap, arith, ◌%◌}
use arkride_backend.Common.Int.{ℤ, negsuc, pos, ◌+ℤ◌, ◌-ℤ◌, ◌≤ℤ◌, int_laws}
use mathlib.Core.Path.{subst}
use arkride_backend.Money.{
  Naira, Kobo, to_kobo, to_naira, negate, Side, half_side, half_up, half_down,
}
use arkride_backend.Money.Rounding.{to_kobo-to_naira, to_naira-+ℤ, to_kobo_mono}
use arkride_backend.World.{Env}

module _ (e : Env) where
  -- The optimistic credit of a fuel advance.
  pub credit-to_kobo :
      (b : Kobo) (x : Naira) → e.column (to_naira b +ℤ to_naira (to_kobo x)) ≡ b +ℤ to_kobo x
  credit-to_kobo b x = ap e.column (to_naira-+ℤ b (to_kobo x)) ∙ e.column_exact (b +ℤ to_kobo x)

  -- The debit of a payout.
  pub debit-to_kobo :
      (b : Kobo) (x : Naira)
      → e.column (to_naira (to_kobo (to_naira b) -ℤ to_kobo x)) ≡ b -ℤ to_kobo x
  debit-to_kobo b x =
      e.column_exact (to_kobo (to_naira b) -ℤ to_kobo x)
      ∙ ap (λ (k : Kobo). k -ℤ to_kobo x) (to_kobo-to_naira b)

  -- A reversal.
  pub reverse-to_kobo :
      (b : Kobo) (x : Naira)
      → e.column (to_naira (to_kobo (to_naira b) +ℤ to_kobo x)) ≡ b +ℤ to_kobo x
  reverse-to_kobo b x =
      e.column_exact (to_kobo (to_naira b) +ℤ to_kobo x)
      ∙ ap (λ (k : Kobo). k +ℤ to_kobo x) (to_kobo-to_naira b)

pub undo_debit : (b k : Kobo) → b -ℤ k +ℤ k ≡ b
undo_debit b k = omega int_laws

-- An amount that the balance covers leaves no negative balance, whatever its decimals.
pub covered_nonneg : (b : Kobo) (x : Naira) → x ≤ℤ to_naira b → pos 0 ≤ℤ b -ℤ to_kobo x
covered_nonneg b x h =
    let rounded : to_kobo x ≤ℤ b =
      subst (λ (k : Kobo). to_kobo x ≤ℤ k) (to_kobo-to_naira b) (to_kobo_mono x (to_naira b) h) in
    omega int_laws

negate-to_naira : (k : Kobo) → negate (to_naira k) ≡ to_naira (negate k)
unfolding to_naira
negate-to_naira (pos zero) = refl
negate-to_naira (pos (suc n)) = let e : suc n * 10 ≡ suc (n * 10 + 9) = omega arith in rw e refl
negate-to_naira (negsuc n) = ap pos (omega arith)

negate_sum : (k : Kobo) → k +ℤ negate k ≡ pos 0
unfolding ◌+ℤ◌
negate_sum (pos zero) = refl
negate_sum (pos (suc n)) = ground arith
negate_sum (negsuc n) = ground arith

-- `Math.round` takes halves upwards on both sides of zero, so the two roundings of half a kobo do
-- not cancel, when the double product of the amount and 100 is that half.
pub half_kobo_sum :
    (n : ℕ)
    → n % 10 ≡ 5
    → half_side n ≡ Side.half
    → to_kobo (pos n) +ℤ to_kobo (negate (pos n)) ≡ pos 1
unfolding to_kobo half_up half_down ◌+ℤ◌
half_kobo_sum zero h exact = ground arith
half_kobo_sum (suc n) h exact = rw exact (ground arith)

-- Of whole kobo they do.
pub whole_kobo_sum : (k : Kobo) → to_kobo (to_naira k) +ℤ to_kobo (negate (to_naira k)) ≡ pos 0
whole_kobo_sum k =
    ground (arith, to_kobo-to_naira k, negate-to_naira k, to_kobo-to_naira (negate k), negate_sum k)

+ℤ_assoc : (a b c : ℤ) → a +ℤ b +ℤ c ≡ a +ℤ (b +ℤ c)
+ℤ_assoc a b c = omega int_laws

pub gain : (b s t : Kobo) → s +ℤ t ≡ pos 1 → b +ℤ s +ℤ t ≡ b +ℤ pos 1
gain b s t h = +ℤ_assoc b s t ∙ ap (λ (k : Kobo). b +ℤ k) h

+ℤ-zero : (b : ℤ) → b +ℤ pos 0 ≡ b
+ℤ-zero b = omega int_laws

pub undo : (b s t : Kobo) → s +ℤ t ≡ pos 0 → b +ℤ s +ℤ t ≡ b
undo b s t h = +ℤ_assoc b s t ∙ ap (λ (k : Kobo). b +ℤ k) h ∙ +ℤ-zero b
