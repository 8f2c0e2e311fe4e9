-- ===== src/Auth/Tokens.antt =====
-- `TokenService` (src/auth/services/token.service.ts): refresh tokens that are exchanged once.
pub mod Queries
pub mod Families
pub mod Race
pub mod Chain
pub mod Renewal
use arkride_backend.Common.{
  ℕ, ◌+◌, ◌*◌, Bool, true, false, not, ◌&&◌, Option, some, none, is_some, ◌==◌, leb, ltb,
  if◌then◌else◌,
}
use arkride_backend.Entities.Accounts.{Role}
use arkride_backend.Entities.Accounts.{same_role}
use arkride_backend.Entities.Tokens.{
  RefreshToken, RevokedReason, rotated, logout, reuse_detected, subject_unavailable,
  subject_revoked,
}
use arkride_backend.Auth.Tokens.Queries.{TokenTable}
use arkride_backend.World.{
  World, Db, Action, Outcome, returned, thrown, return, throw, found_or, throw_if, asks, modify_db,
  transaction, ◌>>=◌, ◌>>◌, unauthorized,
}

pub record SessionSubject : Type 0 where
  pub id : ℕ
  pub role : Role
  pub is_driver : Bool

pub record SessionTokens : Type 0 where
  pub access_token : ℕ
  pub refresh_token : ℕ
  pub expires_in : ℕ

-- The table, SHA-256, the random source at a state, and the JWT signer.
pub record AuthEnv : Type 0 where
  pub table : TokenTable
  pub hash_token : ℕ → ℕ
  pub random_uuid : World → ℕ
  pub random_bytes : World → ℕ
  pub sign : SessionSubject → ℕ

-- Thirty days in milliseconds; one day.
abbrev pub refresh_token_ttl : ℕ
refresh_token_ttl = 30 * 86_400_000

abbrev pub is_live : RefreshToken → Bool
is_live t = not (is_some t.revoked_at)

abbrev pub in_family : ℕ → RefreshToken → Bool
in_family family t = t.family_id == family

abbrev pub is_rotated : Option RevokedReason → Bool
is_rotated (some rotated) = true
is_rotated _ = false

abbrev pub is_breach : Option RevokedReason → Bool
is_breach (some reuse_detected) = true
is_breach _ = false

abbrev pub revoke : ℕ → RevokedReason → RefreshToken → RefreshToken
revoke now reason t = record t { revoked_at = some now; revoked_reason = some reason }

abbrev pub restamp : RevokedReason → RefreshToken → RefreshToken
restamp reason t = record t { revoked_reason = some reason }

module _ (e : AuthEnv) where
  -- `update(where, set)`: the number of rows that it changed.
  abbrev pub update_where : (RefreshToken → Bool) → (RefreshToken → RefreshToken) → Action ℕ
  update_where p f w =
      let (rows, affected) = e.table.update p f w.db.refresh_tokens in
      (returned affected, record w { db = record w.db { refresh_tokens = rows } })

  unfoldable pub revoke_family : ℕ → RevokedReason → Action (Unit {0})
  revoke_family family reason = do
    now ← asks (λ w. w.now)
    update_where (λ t. in_family family t && is_live t) (revoke now reason)
    if is_breach (some reason)
        then (update_where (in_family family) (restamp reason) >> return tt)
        else return tt

  abbrev pub minted : SessionSubject → ℕ → World → RefreshToken
  minted subject family w = record {
    id = e.table.new_id w.db.refresh_tokens;
    token_hash = e.hash_token (e.random_bytes w);
    family_id = family;
    subject_id = subject.id;
    subject_type = subject.role;
    expires_at = w.now + refresh_token_ttl;
    revoked_at = none;
    revoked_reason = none;
  }

  unfoldable pub mint : SessionSubject → ℕ → Action SessionTokens
  mint subject family = do
    token ← asks e.random_bytes
    row ← asks (minted subject family)
    modify_db (λ db. record db { refresh_tokens = e.table.insert row db.refresh_tokens })
    return (record { access_token = e.sign subject; refresh_token = token; expires_in = 3600 })

  unfoldable pub issue_session : SessionSubject → Action SessionTokens
  unfolding mint
  issue_session subject = do family ← asks e.random_uuid; mint subject family

  -- The first half of `rotate`: the token is looked up and judged by what the read shows.
  abbrev judge_revoked : RefreshToken → Action (Unit {0})
  judge_revoked stored =
      if is_rotated stored.revoked_reason
      then (revoke_family stored.family_id reuse_detected >> throw unauthorized)
      else throw unauthorized

  unfoldable pub present : ℕ → Action RefreshToken
  present token = do
    found ←
        asks (λ w. e.table.find_one (λ t. t.token_hash == e.hash_token token) w.db.refresh_tokens)
    stored ← found_or unauthorized found
    if is_some stored.revoked_at then judge_revoked stored else return tt
    now ← asks (λ w. w.now)
    throw_if (leb stored.expires_at now) unauthorized
    return stored

  -- The claim: of all who present the token, the one whose UPDATE changes the row goes on.
  unfoldable pub claim : RefreshToken → Action (Unit {0})
  claim stored = do
    now ← asks (λ w. w.now)
    affected ← update_where (λ t. t.id == stored.id && is_live t) (revoke now rotated)
    if affected == 0
        then (revoke_family stored.family_id reuse_detected >> throw unauthorized)
        else return tt

  -- The transaction: the new token, unless the family bears the mark of a breach.
  unfoldable pub mint_unless_breached : SessionSubject → ℕ → Action SessionTokens
  unfolding mint
  mint_unless_breached subject family = do
    session ← mint subject family
    breached ← asks (λ w.
        e.table.find_one (λ t. in_family family t && is_breach t.revoked_reason)
          w.db.refresh_tokens)
    throw_if (is_some breached) unauthorized
    return session

  -- `.catch`: after the rollback the family is revoked. The transaction throws for nothing else.
  unfoldable pub renew : SessionSubject → ℕ → Action SessionTokens
  renew subject family w =
      let (r, v) = transaction (mint_unless_breached subject family) w in
      elim r [
        | returned session ↦ (returned session, v)
        | thrown x ↦ (revoke_family family reuse_detected >> throw x) v
      ]

  abbrev pub renew_for : RefreshToken → Option SessionSubject → Action SessionTokens
  renew_for stored none = revoke_family stored.family_id subject_unavailable >> throw unauthorized
  renew_for stored (some subject) = renew subject stored.family_id

  unfoldable pub rotate : ℕ → (Db → ℕ → Role → Option SessionSubject) → Action SessionTokens
  rotate token resolve_subject = do
    stored ← present token
    claim stored
    subject ← asks (λ w. resolve_subject w.db stored.subject_id stored.subject_type)
    renew_for stored subject

  abbrev log_out : Option RefreshToken → Action (Unit {0})
  log_out none = return tt
  log_out (some stored) =
      if is_some stored.revoked_at then return tt else revoke_family stored.family_id logout

  unfoldable pub revoke_by_token : ℕ → Action (Unit {0})
  unfolding revoke_family
  revoke_by_token token = do
    found ←
        asks (λ w. e.table.find_one (λ t. t.token_hash == e.hash_token token) w.db.refresh_tokens)
    log_out found

  unfoldable pub revoke_all_for_subject : ℕ → Role → Action (Unit {0})
  revoke_all_for_subject id role = do
    now ← asks (λ w. w.now)
    update_where (λ t. t.subject_id == id && (same_role t.subject_type role && is_live t))
        (revoke now subject_revoked)
    return tt

  -- `expiresAt < now - graceDays days`
  unfoldable pub prune_expired : ℕ → Action ℕ
  prune_expired grace_days w =
      let (rows, affected) =
        e.table.delete (λ t. ltb (t.expires_at + grace_days * 86_400_000) w.now)
          w.db.refresh_tokens in
      (returned affected, record w { db = record w.db { refresh_tokens = rows } })
