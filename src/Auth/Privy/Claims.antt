-- ===== src/Auth/Privy/Claims.antt =====
-- What Privy attests: `PrivyService` (src/auth/privy/privy.service.ts). The verification of a token,
-- which throws where it is not good, is Privy's own library.
use arkride_backend.Common.{
  Bool, true, false, not, ◌&&◌, ◌||◌, Option, none, some, List, keep, first, get_or, if◌then◌else◌,
}
use arkride_backend.Common.Text.{Text, is_blank}

pub data AccountType : Type 0 where
  email wallet other_account : AccountType

-- One of the accounts that a person has linked; some clients spell two of the names otherwise.
pub record LinkedAccount : Type 0 where
  pub type : AccountType
  pub address : Option Text
  pub chain_type : Option Text
  pub chain_type_alt : Option Text
  pub wallet_client_type : Option Text
  pub wallet_client_type_alt : Option Text

-- The claim `linked_accounts`: a list, a text that may be one in JSON, or anything else.
pub data Claim : Type 0 where
  accounts : List LinkedAccount → Claim
  json : Text → Claim
  neither : Claim

pub record PrivyIdentity : Type 0 where
  pub wallet : Option Text
  pub email : Option Text

-- The settings, Privy's library (`none` is a call that throws), and what is asked of texts.
pub record Privy : Type 0 where
  pub app_id : Option Text
  pub verification_key : Option Text
  pub verify_access : (token app_id key : Text) → Option Text
  pub verify_identity : (token app_id key : Text) → Option Claim
  -- `JSON.parse`, where the result is a list.
  pub parse : Text → Option (List LinkedAccount)
  pub has_at : Text → Bool
  pub is_evm_address : Text → Bool
  pub is_ethereum : Text → Bool
  pub is_privy_client : Text → Bool
  pub lower : Text → Text
  pub trim : Text → Text
  -- `${did}@privy.arkrides.local`, and the texts 'Ark Rider'.
  pub placeholder : Text → Text
  pub ark_rider : Text

abbrev pub read_claim : Privy → Claim → Option (List LinkedAccount)
read_claim p (accounts list) = some list
read_claim p (json text) = p.parse text
read_claim p neither = none

-- `o && test(o)` of an optional text.
abbrev pub passes : Option Text → (Text → Bool) → Bool
passes none test = false
passes (some t) test = test t

-- `a ?? b`
abbrev pub else_try : Option Text → Option Text → Option Text
else_try none other = other
else_try (some t) other = some t

abbrev is_type_email : AccountType → Bool
is_type_email email = true
is_type_email _ = false

abbrev is_type_wallet : AccountType → Bool
is_type_wallet wallet = true
is_type_wallet _ = false

-- A text that is there, changed.
abbrev pub mapped : (Text → Text) → Option Text → Option Text
mapped f none = none
mapped f (some t) = some (f t)

module _ (p : Privy) where
  abbrev pub is_email : LinkedAccount → Bool
  is_email a = is_type_email a.type && passes a.address p.has_at

  abbrev pub is_wallet : LinkedAccount → Bool
  is_wallet a =
      is_type_wallet a.type
      && (passes (else_try a.chain_type a.chain_type_alt) p.is_ethereum
          && passes a.address p.is_evm_address)

  abbrev pub is_embedded : LinkedAccount → Bool
  is_embedded a = passes (else_try a.wallet_client_type a.wallet_client_type_alt) p.is_privy_client

  -- The address of an account that was found, changed by a function of texts.
  abbrev pub address_of : (Text → Text) → Option LinkedAccount → Option Text
  address_of f none = none
  address_of f (some a) =
      if passes a.address (λ t. not (is_blank t)) then mapped f a.address else none

  unfoldable pub email_from_linked_accounts : Claim → Option Text
  email_from_linked_accounts claim = elim (read_claim p claim) [
    | none ↦ none
    | some list ↦ address_of (λ t. p.lower (p.trim t)) (first is_email list)
  ]

  abbrev pub preferred_wallet : List LinkedAccount → Option LinkedAccount
  preferred_wallet wallets = elim (first is_embedded wallets) [
    | some a ↦ some a
    | none ↦ first (λ a. true) wallets
  ]

  unfoldable pub wallet_from_linked_accounts : Claim → Option Text
  wallet_from_linked_accounts claim = elim (read_claim p claim) [
    | none ↦ none
    | some list ↦ address_of p.lower (preferred_wallet (keep is_wallet list))
  ]

  abbrev pub is_set : Option Text → Bool
  is_set o = passes o (λ t. not (is_blank t))

  unfoldable pub is_configured : Bool
  is_configured = is_set p.app_id && is_set p.verification_key

  abbrev pub not_blank : Option Text → Option Text
  not_blank none = none
  not_blank (some t) = if is_blank t then none else some t

  unfoldable pub verify_access_token : Text → Option Text
  unfolding is_configured
  verify_access_token token =
      if not is_configured || is_blank token
      then none
      else not_blank (p.verify_access token (get_or p.app_id 0) (get_or p.verification_key 0))

  abbrev pub nobody : PrivyIdentity
  nobody = record { wallet = none; email = none }

  abbrev pub attested : Option Claim → PrivyIdentity
  attested none = nobody
  attested (some claim) = record {
    wallet = wallet_from_linked_accounts claim;
    email = email_from_linked_accounts claim;
  }

  unfoldable pub identity_from : Option Text → PrivyIdentity
  unfolding is_configured wallet_from_linked_accounts email_from_linked_accounts
  identity_from none = nobody
  identity_from (some token) =
      if not is_configured || is_blank token
      then nobody
      else attested (p.verify_identity token (get_or p.app_id 0) (get_or p.verification_key 0))
