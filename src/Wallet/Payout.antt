-- ===== src/Wallet/Payout.antt =====
-- Payouts: what they leave in the wallet, on every path.
use arkride_backend.Common.{
  if◌then◌else◌, Bool-cases, ℕ, ◌≡◌, not, Option, some, none, inl, inr, Option-cases, arith, ◌||◌,
}
use arkride_backend.Common.Int.{pos, ◌+ℤ◌, ◌-ℤ◌, ◌≤ℤ◌, ltb_ℤ}
use arkride_backend.Money.{Naira, Kobo, to_kobo, to_naira}
use arkride_backend.Platform.{payout_lock, one}
use arkride_backend.Wallet.{wallet, is_failed, reserve_payout, settle_payout, request_payout}
use arkride_backend.Wallet.Amounts.{debit-to_kobo, undo_debit, covered_nonneg}
use arkride_backend.Wallet.Reversal.{reverse-wallet}
use arkride_backend.World.{
  Env, World, PayoutResult, returned, thrown, with_lock, bad_request, insufficient_balance,
}

module _ (e : Env) (driver_id : ℕ) (x : Naira) where
  reserve_payout-wallet :
      (b : Kobo) (w : World)
      → wallet e driver_id w ≡ some b
      → x ≤ℤ to_naira b
      → wallet e driver_id (reserve_payout e driver_id x w).1 ≡ some (b -ℤ to_kobo x)
  unfolding reserve_payout
  reserve_payout-wallet b w h covered =
      elim (Option-cases (e.drivers.find_one driver_id w.db.drivers)) [
        | inl missing ↦ ground arith
        | inr (d, found) ↦ ground (
          arith,
          debit-to_kobo e d.wallet_balance x,
          e.drivers.find_one_key driver_id w.db.drivers d found,
          e.drivers.find_one_save driver_id
              (record d { wallet_balance = d.wallet_balance -ℤ to_kobo x }) w.db.drivers,
        )
      ]

  -- A covered debit goes through; any other is refused.
  reserve_payout-returned :
      (b : Kobo) (w : World)
      → wallet e driver_id w ≡ some b
      → x ≤ℤ to_naira b
      → (id : ℕ) × ((reserve_payout e driver_id x w).0 ≡ returned id)
  unfolding reserve_payout
  reserve_payout-returned b w h covered = (e.ledger.new_id w.db.ledger, ground arith)

  reserve_payout-thrown :
      (b : Kobo) (w : World)
      → wallet e driver_id w ≡ some b
      → ¬ (x ≤ℤ to_naira b)
      → (reserve_payout e driver_id x w).0 ≡ thrown (bad_request insufficient_balance)
  unfolding reserve_payout
  reserve_payout-thrown b w h short = ground arith

  -- What the gateway's answer does to the wallet.
  settle_payout-wallet :
      (entry_id : ℕ) (answer : PayoutResult) (b : Kobo) (w : World)
      → wallet e driver_id w ≡ some b
      → wallet e driver_id (settle_payout e driver_id x entry_id answer w).1
        ≡ some (if not answer.success || is_failed answer.status then b +ℤ to_kobo x else b)
  unfolding settle_payout
  settle_payout-wallet entry_id answer b w h =
      ground (arith, reverse-wallet e driver_id x entry_id b w h)

  -- What is left of a wallet `b` that covers the payout, by the gateway's answer.
  abbrev pub left_over : Kobo → Option PayoutResult → Kobo
  left_over b none = b -ℤ to_kobo x
  left_over b (some answer) =
      if not answer.success || is_failed answer.status then b else b -ℤ to_kobo x

  abbrev pub gateway_answer : World → Option PayoutResult
  gateway_answer w =
      e.initiate_payout
        (record { driver_id = driver_id; amount = x; reference = e.random_uuid w.now })

-- A payout that gets the lock leaves the wallet alone where the amount is not covered or the gateway
-- reports a failure, and takes the amount in kobo off it where the gateway accepts, and also where
-- the call of the gateway itself fails.
pub request_payout-wallet :
    (e : Env) (driver_id : ℕ) (x : Naira) (b : Kobo) (w : World)
    → wallet e driver_id w ≡ some b
    → w.redis (payout_lock driver_id) ≡ none
    → wallet e driver_id (request_payout e driver_id x w).1
      ≡ some (
          if ltb_ℤ (to_naira b) x
          then b
          else left_over e driver_id x b (gateway_answer e driver_id x w))
unfolding request_payout with_lock
request_payout-wallet e driver_id x b w h free =
    let v = record w { redis = (e.redis.set_nx (payout_lock driver_id) one 15 w.redis).0 } in
    let won = e.redis.set_nx_won (payout_lock driver_id) one 15 w.redis in
    elim (Bool-cases (ltb_ℤ (to_naira b) x)) [
      | inl short ↦ ground (arith, won, reserve_payout-thrown e driver_id x b v h (ground arith))
      | inr covered ↦
          let (id, goes) = reserve_payout-returned e driver_id x b v h (ground arith) in
          let debits = reserve_payout-wallet e driver_id x b v h (ground arith) in
          elim (Option-cases (gateway_answer e driver_id x w)) [
            | inl silent ↦ ground (arith, won, goes, debits)
            | inr (answer, said) ↦ ground (
              arith,
              won,
              goes,
              debits,
              undo_debit b (to_kobo x),
              settle_payout-wallet e driver_id x id answer (b -ℤ to_kobo x)
                  (reserve_payout e driver_id x v).1 debits,
            )
          ]
    ]

-- A payout of any amount, with any decimals and any answer of the gateway, leaves no negative wallet
-- where there was none.
pub request_payout_nonneg :
    (e : Env) (driver_id : ℕ) (x : Naira) (b : Kobo) (w : World)
    → wallet e driver_id w ≡ some b
    → w.redis (payout_lock driver_id) ≡ none
    → pos 0 ≤ℤ b
    → (c : Kobo) × (wallet e driver_id (request_payout e driver_id x w).1 ≡ some c) × (pos 0 ≤ℤ c)
request_payout_nonneg e driver_id x b w h free nonneg =
    (_, request_payout-wallet e driver_id x b w h free, ground (arith, covered_nonneg b x))
