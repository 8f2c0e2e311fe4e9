-- ===== src/Auth/Tokens/Chain.antt =====
-- A session is a chain of tokens: exchanging one never adds to what can be exchanged.
use arkride_backend.Common.{
  ℕ, ◌+◌, ◌≤◌, ◌≡◌, ◌∙◌, ◌&&◌, Bool, Option, some, none, inl, inr, Option-cases, List, bit,
  sum_by-cong, sum_by_mono, sum_by-+, ◌==◌, if◌then◌else◌, arith,
}
use arkride_backend.Entities.Tokens.{
  RefreshToken, RevokedReason, rotated, reuse_detected, subject_unavailable,
}
use arkride_backend.Entities.Accounts.{Role}
use arkride_backend.Auth.Tokens.Queries.{count}
use arkride_backend.Auth.Tokens.Families.{live_count, dead, stamped, revoke_family-returned}
use arkride_backend.Auth.Tokens.{
  AuthEnv, SessionSubject, is_live, in_family, revoke, revoke_family, update_where, present, claim,
  minted, mint, mint_unless_breached, renew, renew_for, rotate,
}
use arkride_backend.Auth.Tokens.Race.{claim_won}
use arkride_backend.World.{World, Db, Outcome-cases, returned}

module _ (e : AuthEnv) (f : ℕ) where
  -- Revoking some rows leaves no family with more.
  revoked-live :
      (test : RefreshToken → Bool) (now : ℕ) (reason : RevokedReason) (rows : List RefreshToken)
      → count (λ t. in_family f t && is_live t) (e.table.update test (revoke now reason) rows).0
        ≤ count (λ t. in_family f t && is_live t) rows
  revoked-live test now reason rows =
      rw (e.table.update_rows (λ t. bit (in_family f t && is_live t)) test (revoke now reason) rows)
        (sum_by_mono _ _ rows (λ t. ground arith))

  stamp-live :
      (family : ℕ) (reason : RevokedReason) (rows : List RefreshToken)
      → count (λ t. in_family f t && is_live t) (stamped e family reason rows)
        ≡ count (λ t. in_family f t && is_live t) rows
  stamp-live family reason rows =
      e.table.update_rows (λ t. bit (in_family f t && is_live t)) (in_family family) _ rows
      ∙ sum_by-cong _ _ rows (λ t. ground arith)

  revoke-live :
      (family : ℕ) (reason : RevokedReason) (w : World)
      → live_count f (revoke_family e family reason w).1 ≤ live_count f w
  unfolding revoke_family
  revoke-live family reason w = ground (
    arith,
    revoked-live (λ t. in_family family t && is_live t) w.now reason w.db.refresh_tokens,
    stamp-live family reason (dead e family reason w.now w.db.refresh_tokens),
  )

  -- The claim of a stored live token takes one from its family.
  claimed-live-+ :
      (s : RefreshToken) (p : RefreshToken → Bool) (now : ℕ) (rows : List RefreshToken)
      → e.table.find_one p rows ≡ some s
      → s.revoked_at ≡ none
      → count
            (λ t. in_family f t && is_live t)
            (e.table.update (λ t. t.id == s.id && is_live t) (revoke now rotated) rows).0
          + bit (in_family f s)
        ≤ count (λ t. in_family f t && is_live t) rows
  claimed-live-+ s p now rows found live =
      let test : RefreshToken → Bool = λ t. t.id == s.id && is_live t in
      let left : RefreshToken → ℕ = λ t.
        if test t
        then bit (in_family f (revoke now rotated t) && is_live (revoke now rotated t))
        else bit (in_family f t && is_live t) in
      let killed : RefreshToken → ℕ = λ t. bit (t.id == s.id && (is_live t && in_family f t)) in
      let one_less : killed s ≡ bit (in_family f s) = ground arith in
      let after =
        e.table.update_rows (λ t. bit (in_family f t && is_live t)) test (revoke now rotated)
          rows in
      let split =
        sum_by-cong (λ t. left t + killed t) (λ t. bit (in_family f t && is_live t)) rows
          (λ t. ground arith) in
      omega (
        arith,
        after,
        split,
        one_less,
        sum_by-+ left killed rows,
        (e.table.find_one_some p rows s found).1 killed,
      )

  pub mint-live :
      (subject : SessionSubject) (family : ℕ) (w : World)
      → live_count f (mint e subject family w).1 ≡ live_count f w + bit (family == f)
  unfolding mint
  mint-live subject family w =
      e.table.insert_rows (λ t. bit (in_family f t && is_live t)) (minted e subject family w)
        w.db.refresh_tokens
      ∙ ground arith

  renew-live :
      (subject : SessionSubject) (family : ℕ) (w : World)
      → live_count f (renew e subject family w).1 ≤ live_count f w + bit (family == f)
  unfolding renew mint_unless_breached
  renew-live subject family w = ground (
    arith,
    mint-live subject family w,
    revoke-live family reuse_detected w,
    revoke_family-returned e family reuse_detected w,
  )

  claim-live :
      (s : RefreshToken) (p : RefreshToken → Bool) (w : World)
      → e.table.find_one p w.db.refresh_tokens ≡ some s
      → s.revoked_at ≡ none
      → (claim e s w).0 ≡ returned tt
      → live_count f (claim e s w).1 + bit (in_family f s) ≤ live_count f w
  claim-live s p w found live won =
      rw (claim_won e s w won) (claimed-live-+ s p w.now w.db.refresh_tokens found live)

  claim-live_le : (s : RefreshToken) (w : World) → live_count f (claim e s w).1 ≤ live_count f w
  unfolding claim
  claim-live_le s w = ground (
    arith,
    revoked-live (λ t. t.id == s.id && is_live t) w.now rotated w.db.refresh_tokens,
    revoke-live s.family_id reuse_detected
        (update_where e (λ t. t.id == s.id && is_live t) (revoke w.now rotated) w).1,
  )

  renew_for-live :
      (s : RefreshToken) (o : Option SessionSubject) (w : World)
      → live_count f (renew_for e s o w).1 ≤ live_count f w + bit (in_family f s)
  renew_for-live s none w = ground (
    arith,
    revoke-live s.family_id subject_unavailable w,
    revoke_family-returned e s.family_id subject_unavailable w,
  )
  renew_for-live s (some subject) w = renew-live subject s.family_id w

  present-live : (token : ℕ) (w : World) → live_count f (present e token w).1 ≤ live_count f w
  unfolding present
  present-live token w =
      elim (Option-cases
        (e.table.find_one (λ t. t.token_hash == e.hash_token token) w.db.refresh_tokens)) [
          | inl missing ↦ ground arith
          | inr (s, found) ↦ ground (
            arith,
            revoke-live s.family_id reuse_detected w,
            revoke_family-returned e s.family_id reuse_detected w,
          )
        ]

  -- A token that passes the first look is stored, and live; nothing has changed.
  present_passes :
      (token : ℕ) (s : RefreshToken) (w v : World)
      → present e token w ≡ (returned s, v)
      → (e.table.find_one (λ t. t.token_hash == e.hash_token token) w.db.refresh_tokens ≡ some s)
        × (s.revoked_at ≡ none)
        × (v ≡ w)
  unfolding present
  present_passes token s w v h =
      elim (Option-cases
        (e.table.find_one (λ t. t.token_hash == e.hash_token token) w.db.refresh_tokens)) [
          | inl missing ↦ ground arith
          | inr (a, found) ↦ ground (arith, revoke_family-returned e a.family_id reuse_detected w)
        ]

-- Exchanging a token, however it ends and whoever the subject is, leaves no family with more tokens
-- that can be exchanged than it had: a session never forks.
pub rotate-live_count :
    (e : AuthEnv) (f token : ℕ) (resolve : Db → ℕ → Role → Option SessionSubject) (w : World)
    → live_count f (rotate e token resolve w).1 ≤ live_count f w
unfolding rotate
rotate-live_count e f token resolve w = elim (Outcome-cases (present e token w)) [
  | inl (s, v, passes) ↦
      let (found, live, same) = present_passes e f token s w v passes in
      elim (Outcome-cases (claim e s w)) [
        | inl (u, v₁, won) ↦ ground (
          arith,
          claim-live e f s (λ t. t.token_hash == e.hash_token token) w found live,
          renew_for-live e f s (resolve v₁.db s.subject_id s.subject_type) v₁,
        )
        | inr (x, v₁, lost) ↦ ground (arith, claim-live_le e f s w)
      ]
  | inr (x, v, refused) ↦ ground (arith, present-live e f token w)
]
