-- ===== src/Auth/Privy.antt =====
-- Signing in with Privy: `PrivyAuthService` (src/auth/privy/privy-auth.service.ts).
pub mod Claims
pub mod Linking
pub mod Takeover
pub mod Onboarding
use arkride_backend.Common.{
  ℕ, Bool, true, false, not, ◌&&◌, ◌||◌, Option, none, some, is_some, is_id, ◌==◌, get_or,
  if◌then◌else◌,
}
use arkride_backend.Common.Int.{pos}
use arkride_backend.Common.Text.{Text, is_blank}
use arkride_backend.Entities.Accounts.{Role, User, Driver}
use arkride_backend.Auth.Privy.Claims.{
  Privy, PrivyIdentity, is_configured, verify_access_token, identity_from,
}
use arkride_backend.Auth.Tokens.{AuthEnv, SessionTokens, issue_session}
use arkride_backend.Drivers.{find_driver, store_driver}
use arkride_backend.Drivers.Registration.{CreateDriverDto, email_or, create_from_privy}
use arkride_backend.Users.{clashes}
use arkride_backend.World.{
  Env, World, Action, return, throw, found_or, throw_if, asks, modify_db, ◌>>=◌, ◌>>◌, bad_request,
  forbidden, unauthorized, service_unavailable, query_failed, already_linked, driver_not_registered,
  account_blocked, driver_inactive,
}

pub data PrivyAudience : Type 0 where
  rider driver : PrivyAudience

pub record PrivySignInInput : Type 0 where
  pub access_token : Text
  pub identity_token : Option Text
  pub audience : PrivyAudience
  pub name : Option Text

pub record Profile : Type 0 where
  pub id : ℕ
  pub name : Text
  pub email : Text
  pub role : Role
  pub privy_did : Text
  pub wallet_address_evm : Option Text

pub record PrivySignInResult : Type 0 where
  pub session : SessionTokens
  pub is_new_account : Bool
  pub profile : Profile

-- `linked && linked !== did`
abbrev pub is_of_another : Option Text → Text → Bool
is_of_another none did = false
is_of_another (some linked) did = not (is_blank linked) && not (linked == did)

-- An address, if there is one that is not empty.
abbrev pub given : Option Text → Option Text
given none = none
given (some a) = if is_blank a then none else some a

module _ (e : Env) (a : AuthEnv) (privy : Privy) where
  -- `input.name?.trim() || 'Ark Rider'`
  abbrev pub name_or : Option Text → Text
  name_or none = privy.ark_rider
  name_or (some name) = if is_blank (privy.trim name) then privy.ark_rider else privy.trim name

  -- The stored address, where the attested one is the same in lower case.
  abbrev pub synced_wallet : Option Text → Option Text → Option Text
  synced_wallet none current = current
  synced_wallet (some wallet) none = if is_blank wallet then none else some wallet
  synced_wallet (some wallet) (some current) =
      if is_blank wallet || privy.lower current == wallet then some current else some wallet

  abbrev pub new_rider : Text → PrivyIdentity → Option Text → ℕ → User
  new_rider did identity name id = record {
    id = id;
    name = name_or name;
    email = email_or e identity.email (privy.placeholder did);
    phone = none;
    password = none;
    provider = none;
    provider_id = none;
    privy_did = some did;
    wallet_address_evm = none;
    wallet_address_solana = none;
    wallet_address_tron = none;
    otp_code = none;
    otp_expiry = none;
    is_verified = true;
    role = Role.user;
    rating_average = 0;
    total_rides = 0;
    cashback_balance = pos 0;
    is_blocked = false;
  }

  abbrev pub rider_by_did : Text → Action (Option User)
  rider_by_did did = asks (λ w. e.users.find_where (λ u. is_id u.privy_did did) w.db.users)

  abbrev pub rider_by_email : Option Text → Action (Option User)
  rider_by_email none = return none
  rider_by_email (some email) = asks (λ w. e.users.find_where (λ u. u.email == email) w.db.users)

  abbrev linked_rider : Text → PrivyIdentity → Option Text → Option User → Action (User × Bool)
  linked_rider did identity name none =
      asks (λ w. (new_rider did identity name (e.users.new_id w.db.users), true))
  linked_rider did identity name (some user) =
      throw_if (is_of_another user.privy_did did) (forbidden already_linked)
      >> return (record user { privy_did = some did }, false)

  abbrev found_rider : Text → PrivyIdentity → Option Text → Option User → Action (User × Bool)
  found_rider did identity name (some user) = return (user, false)
  found_rider did identity name none = do
    by_email ← rider_by_email (given identity.email)
    linked_rider did identity name by_email

  -- The account that is signed in to, and whether it is new; nothing is written yet.
  unfoldable pub choose_rider : Text → PrivyIdentity → Option Text → Action (User × Bool)
  choose_rider did identity name = do
    by_did ← rider_by_did did
    found_rider did identity name by_did

  -- `users.save(user)`, which the unique columns may refuse.
  abbrev pub store_user : User → Action (Unit {0})
  store_user u = do
    clash ← asks (λ w. e.users.find_where (clashes u) w.db.users)
    throw_if (is_some clash) query_failed
    modify_db (λ db. record db { users = e.users.save u db.users })

  abbrev pub rider_result : Text → User → Bool → SessionTokens → PrivySignInResult
  rider_result did u is_new session = record {
    session = session;
    is_new_account = is_new;
    profile = record {
      id = u.id;
      name = u.name;
      email = u.email;
      role = Role.user;
      privy_did = did;
      wallet_address_evm = u.wallet_address_evm;
    };
  }

  -- The part of `signInRider` from the check of the block on.
  unfoldable pub admit_rider : Text → PrivyIdentity → User × Bool → Action PrivySignInResult
  admit_rider did identity chosen = do
    throw_if chosen.0.is_blocked (forbidden account_blocked)
    let saved = record (chosen.0) {
      wallet_address_evm = synced_wallet identity.wallet chosen.0.wallet_address_evm;
    }
    store_user saved
    session ← issue_session a (record { id = saved.id; role = Role.user; is_driver = false })
    return (rider_result did saved chosen.1 session)

  unfoldable pub sign_in_rider : Text → PrivyIdentity → Option Text → Action PrivySignInResult
  sign_in_rider did identity name = choose_rider did identity name >>= admit_rider did identity

  abbrev linked_driver : Text → Option Driver → Action (Option Driver)
  linked_driver did none = return none
  linked_driver did (some d) =
      throw_if (is_of_another d.privy_did did) (forbidden already_linked)
      >> return (some (record d { privy_did = some did }))

  abbrev driver_by_email : Option Text → Action (Option Driver)
  driver_by_email none = return none
  driver_by_email (some email) = find_driver e (λ d. d.email == email)

  abbrev found_driver : Text → PrivyIdentity → Option Driver → Action (Option Driver)
  found_driver did identity (some d) = return (some d)
  found_driver did identity none = do
    by_email ← driver_by_email (given identity.email)
    linked_driver did by_email

  unfoldable pub find_linked_driver : Text → PrivyIdentity → Action (Option Driver)
  find_linked_driver did identity = do
    by_did ← find_driver e (λ d. is_id d.privy_did did)
    found_driver did identity by_did

  unfoldable pub issue_driver_session :
      Driver → Text → PrivyIdentity → Bool → Action PrivySignInResult
  issue_driver_session d did identity is_new = do
    throw_if (not d.is_active) (forbidden driver_inactive)
    let saved = record d { wallet_address_evm = synced_wallet identity.wallet d.wallet_address_evm }
    store_driver e saved
    session ← issue_session a (record { id = saved.id; role = Role.driver; is_driver = true })
    return (record {
      session = session;
      is_new_account = is_new;
      profile = record {
        id = saved.id;
        name = saved.name;
        email = saved.email;
        role = Role.driver;
        privy_did = did;
        wallet_address_evm = saved.wallet_address_evm;
      };
    })

  unfoldable pub sign_in_driver : Text → PrivyIdentity → Action PrivySignInResult
  sign_in_driver did identity = do
    found ← found_or (bad_request driver_not_registered) (← find_linked_driver did identity)
    issue_driver_session found did identity false

  -- What both entry points do first: the DID and the identity that Privy attests.
  unfoldable pub verified : PrivySignInInput → Action (Text × PrivyIdentity)
  unfolding verify_access_token identity_from
  verified input = do
    throw_if (not (is_configured privy)) service_unavailable
    did ← found_or unauthorized (verify_access_token privy input.access_token)
    return (did, identity_from privy input.identity_token)

  abbrev sign_in_as : PrivyAudience → Text → PrivyIdentity → Option Text → Action PrivySignInResult
  sign_in_as PrivyAudience.driver did identity name = sign_in_driver did identity
  sign_in_as PrivyAudience.rider did identity name = sign_in_rider did identity name

  unfoldable pub sign_in : PrivySignInInput → Action PrivySignInResult
  sign_in input = do
    (did, identity) ← verified input
    sign_in_as input.audience did identity input.name

  abbrev registered_driver :
      Text → PrivyIdentity → CreateDriverDto → Option Driver → Action PrivySignInResult
  registered_driver did identity details (some d) = issue_driver_session d did identity false
  registered_driver did identity details none = do
    created ← create_from_privy e did (privy.placeholder did) identity.email identity.wallet details
    issue_driver_session created did identity true

  unfoldable pub register_driver : PrivySignInInput → CreateDriverDto → Action PrivySignInResult
  register_driver input details = do
    (did, identity) ← verified input
    existing ← find_linked_driver did identity
    registered_driver did identity details existing
