-- ===== src/Auth/Tokens/Families.antt =====
-- What revoking a family does to the tokens that can still be exchanged.
use arkride_backend.Common.{
  ℕ, ◌≡◌, ◌∙◌, ◌&&◌, Option, some, List, bit, sum_by-cong, sum_by-zero, ◌==◌, arith,
}
use arkride_backend.Entities.Tokens.{RefreshToken, RevokedReason, rotated, reuse_detected}
use arkride_backend.Entities.Accounts.{Role}
use arkride_backend.Auth.Tokens.Queries.{count}
use arkride_backend.Auth.Tokens.{
  AuthEnv, is_live, in_family, is_breach, revoke, restamp, revoke_family, present, rotate,
  SessionSubject,
}
use arkride_backend.World.{World, Db, returned, thrown, unauthorized}

-- The tokens of a family that can still be exchanged; those that bear the mark of a breach.
abbrev pub live_count : ℕ → World → ℕ
live_count family w = count (λ t. in_family family t && is_live t) w.db.refresh_tokens

abbrev pub breach_count : ℕ → World → ℕ
breach_count family w =
    count (λ t. in_family family t && is_breach t.revoked_reason) w.db.refresh_tokens

abbrev pub size : ℕ → World → ℕ
size family w = count (in_family family) w.db.refresh_tokens

module _ (e : AuthEnv) where
  -- The rows of a family after its live ones were revoked, and after all were stamped anew.
  abbrev pub dead : ℕ → RevokedReason → ℕ → List RefreshToken → List RefreshToken
  dead family reason now rows =
      (e.table.update (λ t. in_family family t && is_live t) (revoke now reason) rows).0

  abbrev pub stamped : ℕ → RevokedReason → List RefreshToken → List RefreshToken
  stamped family reason rows = (e.table.update (in_family family) (restamp reason) rows).0

  dead-live :
      (family now : ℕ) (reason : RevokedReason) (rows : List RefreshToken)
      → count (λ t. in_family family t && is_live t) (dead family reason now rows) ≡ 0
  dead-live family now reason rows =
      e.table.update_rows (λ t. bit (in_family family t && is_live t))
        (λ t. in_family family t && is_live t) (revoke now reason) rows
      ∙ sum_by-zero _ rows (λ t. ground arith)

  pub stamped-live :
      (family : ℕ) (reason : RevokedReason) (rows : List RefreshToken)
      → count (λ t. in_family family t && is_live t) (stamped family reason rows)
        ≡ count (λ t. in_family family t && is_live t) rows
  stamped-live family reason rows =
      e.table.update_rows (λ t. bit (in_family family t && is_live t)) (in_family family)
        (restamp reason) rows
      ∙ sum_by-cong _ _ rows (λ t. ground arith)

  dead-size :
      (family now : ℕ) (reason : RevokedReason) (rows : List RefreshToken)
      → count (in_family family) (dead family reason now rows) ≡ count (in_family family) rows
  dead-size family now reason rows =
      e.table.update_rows (λ t. bit (in_family family t)) (λ t. in_family family t && is_live t)
        (revoke now reason) rows
      ∙ sum_by-cong _ _ rows (λ t. ground arith)

  stamped-breach :
      (family : ℕ) (rows : List RefreshToken)
      → count
          (λ t. in_family family t && is_breach t.revoked_reason)
          (stamped family reuse_detected rows)
        ≡ count (in_family family) rows
  stamped-breach family rows =
      e.table.update_rows (λ t. bit (in_family family t && is_breach t.revoked_reason))
        (in_family family) (restamp reuse_detected) rows
      ∙ sum_by-cong _ _ rows (λ t. ground arith)

  -- Whatever the reason, no token of the family can be exchanged any more.
  pub revoke_family-live :
      (family : ℕ) (reason : RevokedReason) (w : World)
      → live_count family (revoke_family e family reason w).1 ≡ 0
  unfolding revoke_family
  revoke_family-live family reason w = ground (
    arith,
    dead-live family w.now reason w.db.refresh_tokens,
    stamped-live family reason (dead family reason w.now w.db.refresh_tokens),
  )

  -- A breach marks every row of the family.
  pub revoke_family-breach :
      (family : ℕ) (w : World)
      → breach_count family (revoke_family e family reuse_detected w).1 ≡ size family w
  unfolding revoke_family
  revoke_family-breach family w = ground (
    arith,
    dead-size family w.now reuse_detected w.db.refresh_tokens,
    stamped-breach family (dead family reuse_detected w.now w.db.refresh_tokens),
  )

  pub revoke_family-returned :
      (family : ℕ) (reason : RevokedReason) (w : World)
      → (revoke_family e family reason w).0 ≡ returned tt
  unfolding revoke_family
  revoke_family-returned family reason w = ground arith

  -- A token that was exchanged before and is presented again: nobody gets a session, and no token of
  -- the family can be exchanged any more.
  pub rotate_replay :
      (token : ℕ) (resolve : Db → ℕ → Role → Option SessionSubject) (s : RefreshToken) (w : World)
      {at : ℕ}
      → e.table.find_one (λ t. t.token_hash == e.hash_token token) w.db.refresh_tokens ≡ some s
      → s.revoked_at ≡ some at
      → s.revoked_reason ≡ some rotated
      → ((rotate e token resolve w).0 ≡ thrown unauthorized)
        × (live_count s.family_id (rotate e token resolve w).1 ≡ 0)
  unfolding rotate present
  rotate_replay token resolve s w found revoked reason = ground (
    arith,
    revoke_family-live s.family_id reuse_detected w,
    revoke_family-returned s.family_id reuse_detected w,
  )
