-- ===== src/Auth/Sessions.antt =====
-- Who a token speaks for: `AuthService.refreshSession` (src/auth/auth.service.ts),
-- `AuthResolverService` (src/auth/services/auth-resolver.service.ts) and `RolesGuard`
-- (src/auth/guards/roles.guard.ts). A signed payload that was verified is given.
pub mod Standing
use arkride_backend.Common.{
  ℕ, Bool, true, false, not, ◌&&◌, ◌||◌, Option, none, some, List, any, if◌then◌else◌,
}
use arkride_backend.Common.Text.{Text}
use arkride_backend.Entities.Accounts.{Role, same_role, User}
use arkride_backend.Auth.Tokens.{AuthEnv, SessionSubject, SessionTokens, rotate}
use arkride_backend.Drivers.{SanitizedDriver}
use arkride_backend.Drivers.Profile.{find_for_auth, active_only}
use arkride_backend.World.{
  Env, World, Db, Action, return, throw, found_or, throw_if, asks, ◌>>=◌, ◌>>◌, unauthorized,
}

-- The payload's `sub`, and whether its `type` is 'driver'.
pub record TokenPayload : Type 0 where
  pub sub : Option ℕ
  pub is_driver : Bool

-- What every controller finds at `req.user`: the row less `password`, `otpCode` and `otpExpiry`.
pub record ResolvedPrincipal : Type 0 where
  pub id : ℕ
  pub role : Role
  pub name : Text
  pub email : Text

abbrev pub strip_driver : SanitizedDriver → ResolvedPrincipal
strip_driver d = record { id = d.id; role = d.role; name = d.name; email = d.email }

abbrev pub strip_user : User → ResolvedPrincipal
strip_user u = record { id = u.id; role = u.role; name = u.name; email = u.email }

-- `findForAuth` has looked at the flag already, and its answer bears it.
abbrev pub driver_subject : Option SanitizedDriver → Option SessionSubject
driver_subject none = none
driver_subject (some d) =
    if not d.is_active
    then none
    else some (record { id = d.id; role = Role.driver; is_driver = true })

abbrev pub user_subject : Option User → Option SessionSubject
user_subject none = none
user_subject (some u) =
    if u.is_blocked then none else some (record { id = u.id; role = u.role; is_driver = false })

module _ (e : Env) where
  -- The resolver that `refreshSession` hands to `rotate`.
  unfoldable pub subject_of : Db → ℕ → Role → Option SessionSubject
  subject_of db id role =
      if same_role role Role.driver
      then driver_subject (active_only e (e.drivers.find_one id db.drivers))
      else user_subject (e.users.find_one id db.users)

  unfoldable pub resolve_principal : TokenPayload → Action ResolvedPrincipal
  unfolding find_for_auth
  resolve_principal payload = do
    sub ← found_or unauthorized payload.sub
    if payload.is_driver
        then (do
          driver ← found_or unauthorized (← find_for_auth e sub)
          return (strip_driver driver))
        else (do
          user ← found_or unauthorized (← asks (λ w. e.users.find_one sub w.db.users))
          throw_if user.is_blocked unauthorized
          return (strip_user user))

module _ (e : Env) (a : AuthEnv) where
  unfoldable pub refresh_session : (refresh_token : ℕ) → Action SessionTokens
  refresh_session refresh_token = rotate a refresh_token (subject_of e)

-- `RolesGuard.canActivate`: the decorators are what the handler, else the class, carries.
unfoldable pub can_activate :
    (is_public : Bool) → (required : Option (List Role)) → (user : Option ResolvedPrincipal) → Bool
can_activate true required user = true
can_activate false none user = true
can_activate false (some roles) none = false
can_activate false (some roles) (some u) = any (same_role u.role) roles
