-- ===== src/Auth/Sessions/Standing.antt =====
-- What a token is worth is decided by the row it names, at the time it is used.
use arkride_backend.Common.{
  ℕ, ◌<◌, ◌≡◌, Bool, true, false, ◌&&◌, Option, some, none, Option-cases, inl, inr, refl, ◌==◌,
  if◌then◌else◌, arith, ◌≤◌,
}
use arkride_backend.Entities.Accounts.{Role, same_role, Driver, User}
use arkride_backend.Entities.Tokens.{RefreshToken, rotated, subject_unavailable}
use arkride_backend.Auth.Tokens.{
  AuthEnv, present, rotate, update_where, is_live, revoke, SessionSubject, SessionTokens,
}
use arkride_backend.Auth.Tokens.Families.{
  live_count, revoke_family-live, revoke_family-returned, breach_count,
}
use arkride_backend.Auth.Tokens.Renewal.{claim_wins, rotate-returned}
use arkride_backend.Drivers.{sanitize_driver}
use arkride_backend.Drivers.Profile.{find_for_auth}
use arkride_backend.Auth.Sessions.{
  TokenPayload, ResolvedPrincipal, subject_of, resolve_principal, refresh_session,
}
use arkride_backend.World.{Env, World, Db, returned, thrown, unauthorized}

-- A driver's row whose driver is active.
pub record IsActiveDriver (e : Env) (w : World) (id : ℕ) (x : ResolvedPrincipal) : Type 0 where
  pub row : Driver
  pub found : e.drivers.find_one id w.db.drivers ≡ some row
  pub active : row.is_active ≡ true
  pub same_id : x.id ≡ row.id
  pub same_role : x.role ≡ row.role

-- A rider's or an administrator's row that is not blocked.
pub record IsOpenUser (e : Env) (w : World) (id : ℕ) (x : ResolvedPrincipal) : Type 0 where
  pub row : User
  pub found : e.users.find_one id w.db.users ≡ some row
  pub unblocked : row.is_blocked ≡ false
  pub same_id : x.id ≡ row.id
  pub same_role : x.role ≡ row.role

-- The row that a token names is there, may act, and is where the id and the role come from.
pub IsStanding : Env → World → TokenPayload → ResolvedPrincipal → Type 0
IsStanding e w p x =
    (id : ℕ) × ((p.sub ≡ some id)
      × (if p.is_driver then IsActiveDriver e w id x else IsOpenUser e w id x))

module _ (e : Env) where
  driver_standing :
      (id : ℕ) (x : ResolvedPrincipal) (w : World)
      → (resolve_principal e (record { sub = some id; is_driver = true }) w).0 ≡ returned x
      → IsActiveDriver e w id x
  unfolding resolve_principal find_for_auth sanitize_driver
  driver_standing id x w h = elim (Option-cases (e.drivers.find_one id w.db.drivers)) [
    | inl missing ↦ ground arith
    | inr (d, found) ↦ record {
      row = d;
      found = found;
      active = ground arith;
      same_id = ground arith;
      same_role = ground arith;
    }
  ]

  user_standing :
      (id : ℕ) (x : ResolvedPrincipal) (w : World)
      → (resolve_principal e (record { sub = some id; is_driver = false }) w).0 ≡ returned x
      → IsOpenUser e w id x
  unfolding resolve_principal
  user_standing id x w h = elim (Option-cases (e.users.find_one id w.db.users)) [
    | inl missing ↦ ground arith
    | inr (u, found) ↦ record {
      row = u;
      found = found;
      unblocked = ground arith;
      same_id = ground arith;
      same_role = ground arith;
    }
  ]

  no_subject :
      (x : ResolvedPrincipal) (b : Bool) (w : World)
      → ¬ ((resolve_principal e (record { sub = none; is_driver = b }) w).0 ≡ returned x)
  unfolding resolve_principal
  no_subject x b w h = ground arith

  payload-IsStanding :
      (sub : Option ℕ) (b : Bool) (x : ResolvedPrincipal) (w : World)
      → (resolve_principal e (record { sub = sub; is_driver = b }) w).0 ≡ returned x
      → IsStanding e w (record { sub = sub; is_driver = b }) x
  unfolding IsStanding
  payload-IsStanding none b x w h = absurd (no_subject x b w h)
  payload-IsStanding (some id) true x w h = (id, (refl, driver_standing id x w h))
  payload-IsStanding (some id) false x w h = (id, (refl, user_standing id x w h))

  -- A verified token for which a principal is resolved names a row that is there: a driver's who is
  -- active if its type is 'driver', and else a user's who is not blocked; and the principal has the
  -- id and the role of that row, whatever the token says of a role.
  pub resolve_principal-IsStanding :
      (p : TokenPayload) (x : ResolvedPrincipal) (w : World)
      → (resolve_principal e p w).0 ≡ returned x
      → IsStanding e w p x
  resolve_principal-IsStanding p x w h = payload-IsStanding p.sub p.is_driver x w h

-- No row, or one that may not act, in the table of the role.
unfoldable pub IsBarred : Env → Db → ℕ → Role → Type 0
IsBarred e db id role =
    if same_role role Role.driver
    then ((d : Driver) → e.drivers.find_one id db.drivers ≡ some d → d.is_active ≡ false)
    else ((u : User) → e.users.find_one id db.users ≡ some u → u.is_blocked ≡ true)

module _ (e : Env) (a : AuthEnv) where
  subject_of-IsBarred :
      (db : Db) (id : ℕ) (role : Role) → IsBarred e db id role → subject_of e db id role ≡ none
  unfolding IsBarred subject_of sanitize_driver
  subject_of-IsBarred db id Role.driver barred =
      elim (Option-cases (e.drivers.find_one id db.drivers)) [
        | inl missing ↦ ground arith
        | inr (d, found) ↦ ground (arith, barred d found)
      ]
  subject_of-IsBarred db id Role.user barred = elim (Option-cases (e.users.find_one id db.users)) [
    | inl missing ↦ ground arith
    | inr (u, found) ↦ ground (arith, barred u found)
  ]
  subject_of-IsBarred db id Role.admin barred = elim (Option-cases (e.users.find_one id db.users)) [
    | inl missing ↦ ground arith
    | inr (u, found) ↦ ground (arith, barred u found)
  ]

  -- A stored token that is live and not expired, whose subject has no row in the table of the token's
  -- role, or a driver's row that is not active, or a user's that is blocked: `refreshSession` throws
  -- the refusal, and no token of the family can be exchanged any more.
  pub refresh_session_barred :
      (token : ℕ) (s : RefreshToken) (w : World)
      → a.table.find_one (λ t. t.token_hash == a.hash_token token) w.db.refresh_tokens ≡ some s
      → s.revoked_at ≡ none
      → w.now < s.expires_at
      → IsBarred e w.db s.subject_id s.subject_type
      → ((refresh_session e a token w).0 ≡ thrown unauthorized)
        × (live_count s.family_id (refresh_session e a token w).1 ≡ 0)
  unfolding refresh_session rotate present IsBarred
  refresh_session_barred token s w found live fresh barred =
      let claimed = (update_where a (λ t. t.id == s.id && is_live t) (revoke w.now rotated) w).1 in
      ground (
        arith,
        claim_wins a s (λ t. t.token_hash == a.hash_token token) w found live,
        subject_of-IsBarred claimed.db s.subject_id s.subject_type barred,
        revoke_family-live a s.family_id subject_unavailable claimed,
        revoke_family-returned a s.family_id subject_unavailable claimed,
      )

  -- A stored token that is live and not expired, of a family without the mark of a breach, whose
  -- subject the resolver of the service finds when the request arrives, neither suspended nor blocked:
  -- `refreshSession` returns a session of that subject, and the family then holds a token that can be
  -- exchanged.
  pub refresh_session-returned :
      (token : ℕ) (s : RefreshToken) (subject : SessionSubject) (w : World)
      → a.table.find_one (λ t. t.token_hash == a.hash_token token) w.db.refresh_tokens ≡ some s
      → s.revoked_at ≡ none
      → w.now < s.expires_at
      → breach_count s.family_id w ≡ 0
      → subject_of e w.db s.subject_id s.subject_type ≡ some subject
      → ((session : SessionTokens) × ((refresh_session e a token w).0 ≡ returned session)
          × (session.access_token ≡ a.sign subject))
        × (1 ≤ live_count s.family_id (refresh_session e a token w).1)
  unfolding refresh_session subject_of
  refresh_session-returned token s subject w found live fresh clean known =
      rotate-returned a token (subject_of e) s subject w found live fresh clean known
