-- ===== src/Tests/Privy.antt =====
-- Signing in with Privy, and administrators by configuration, at concrete inputs.
use arkride_backend.Common.{◌≡◌, refl, some, none, true, false}
use arkride_backend.Auth.Accounts.{SignedIn, SanitizedUser, register, login, check_register}
use arkride_backend.Auth.Privy.{PrivySignInResult, sign_in_rider, choose_rider, admit_rider}
use arkride_backend.Auth.Privy.Linking.{IsTheirs, SignedInRow, sign_in_rider-IsTheirs}
use arkride_backend.Auth.Privy.Takeover.{sign_in_rider_taken}
use arkride_backend.Auth.Privy.Onboarding.{create_from_privy_unapproved}
use arkride_backend.Auth.Tokens.{SessionTokens, issue_session, mint}
use arkride_backend.Drivers.{sanitize_driver}
use arkride_backend.Drivers.Registration.{
  Registered, create, create_from_privy, check_free, write_driver, new_driver,
}
use arkride_backend.Drivers.Standing.{update_online_status}
use arkride_backend.Entities.Accounts.{Role, Driver, approved, pending}
use arkride_backend.Sample.Accounts.{newcomer}
use arkride_backend.Sample.Data.{idle}
use arkride_backend.Sample.Privy.{privy, attested, attested_newcomer, new_keke_driver, texts}
use arkride_backend.Sample.Secrets.{secrets}
use arkride_backend.Sample.Services.{sample}
use arkride_backend.Sample.Tokens.{tokens}
use arkride_backend.Users.{create_user, check_if_email_exists, check_if_phone_exists}
use arkride_backend.Users.Bootstrap.{on_module_init, parse_admin_emails}
use arkride_backend.Users.Bootstrap.Elevation.{register_elevated}
use arkride_backend.World.{World, returned, thrown, bad_request, not_approved}

abbrev session_of : SanitizedUser → SessionTokens
session_of u = record {
  access_token = tokens.sign (record { id = u.id; role = Role.user; is_driver = false });
  refresh_token = 51;
  expires_in = 3600;
}

-- The stored rider signs in with Privy for the first time.
abbrev rider_result : PrivySignInResult
rider_result = record {
  session = record { access_token = 1; refresh_token = 51; expires_in = 3600 };
  is_new_account = false;
  profile = record {
    id = 1;
    name = 11;
    email = 101;
    role = Role.user;
    privy_did = 77;
    wallet_address_evm = none;
  };
}

sign_in_rider-IsTheirs_example :
    IsTheirs sample 77 attested idle 1
    × SignedInRow sample tokens privy 77 attested none rider_result
        (sign_in_rider sample tokens privy 77 attested none idle).1
unfolding sign_in_rider choose_rider admit_rider issue_session mint
sign_in_rider-IsTheirs_example =
    sign_in_rider-IsTheirs sample tokens privy 77 attested none rider_result idle
      (sign_in_rider sample tokens privy 77 attested none idle).1 refl

abbrev new_account : SanitizedUser
new_account = record {
  id = 2;
  name = 13;
  email = 103;
  phone = some 203;
  role = Role.user;
  is_verified = true;
  is_blocked = false;
}

abbrev new_signed_in : SignedIn
new_signed_in = record { user = new_account; session = session_of new_account }

abbrev squatted : World
squatted = (register sample tokens secrets newcomer idle).1

abbrev owner_result : PrivySignInResult
owner_result = record {
  session = session_of new_account;
  is_new_account = false;
  profile = record {
    id = 2;
    name = 13;
    email = 103;
    role = Role.user;
    privy_did = 78;
    wallet_address_evm = none;
  };
}

sign_in_rider_taken_example :
    (owner_result.profile.id ≡ new_account.id)
    × ((y : SignedIn) × (((login sample tokens secrets 103 303
              (sign_in_rider sample tokens privy 78 attested_newcomer none squatted).1).0
            ≡ returned y)
          × (y.user.id ≡ owner_result.profile.id)))
unfolding sign_in_rider choose_rider admit_rider register check_register check_if_email_exists
    check_if_phone_exists create_user issue_session mint
sign_in_rider_taken_example =
    sign_in_rider_taken sample tokens secrets privy newcomer new_signed_in 78 attested_newcomer none
      owner_result idle (sign_in_rider sample tokens privy 78 attested_newcomer none squatted).1
      refl refl refl refl

register_elevated_example :
    (y : SignedIn) × (((login sample tokens secrets 103 303
          (on_module_init sample texts (some 103) squatted).1).0
        ≡ returned y)
      × ((y.user.id ≡ 2) × (y.user.role ≡ Role.admin)))
unfolding parse_admin_emails register check_register check_if_email_exists check_if_phone_exists
    create_user issue_session mint
register_elevated_example =
    register_elevated sample tokens secrets texts (some 103) newcomer new_signed_in idle refl refl

abbrev with_password : Driver
with_password = new_driver 3 new_keke_driver 104 (some 305) pending none none

abbrev with_privy : Driver
with_privy = new_driver 3 new_keke_driver 79 none approved (some 79) none

abbrev registered_driver : Registered
registered_driver = record {
  driver = sanitize_driver with_password;
  session = record { access_token = 3; refresh_token = 51; expires_in = 3600 };
}

create_from_privy_unapproved_example :
    (update_online_status sample 3 true (create sample tokens secrets new_keke_driver idle).1
      ≡ (thrown (bad_request not_approved), (create sample tokens secrets new_keke_driver idle).1))
    × ((update_online_status sample 3 true
          (create_from_privy sample 79 79 none none new_keke_driver idle).1).0
        ≡ returned (sanitize_driver (record with_privy { is_online = true })))
unfolding create create_from_privy check_free write_driver sanitize_driver issue_session mint
create_from_privy_unapproved_example =
    create_from_privy_unapproved sample tokens secrets 79 79 none none new_keke_driver
      registered_driver with_privy idle (create sample tokens secrets new_keke_driver idle).1
      (create_from_privy sample 79 79 none none new_keke_driver idle).1 refl refl
