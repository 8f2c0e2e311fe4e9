-- ===== src/Tests/Accounts.antt =====
-- Accounts and sessions at concrete inputs.
use arkride_backend.Common.{◌≡◌, refl, some, true, false, arith, ◌≤◌}
use arkride_backend.Entities.Accounts.{Role}
use arkride_backend.Auth.Accounts.{
  SignedIn, register, login, check_register, SanitizedUser, registration,
}
use arkride_backend.Auth.Accounts.Codes.{register_then_login}
use arkride_backend.Auth.Sessions.{
  TokenPayload, ResolvedPrincipal, resolve_principal, refresh_session, subject_of,
}
use arkride_backend.Auth.Sessions.Standing.{
  IsStanding, IsBarred, resolve_principal-IsStanding, refresh_session_barred,
  refresh_session-returned,
}
use arkride_backend.Auth.Tokens.{issue_session, SessionTokens, mint}
use arkride_backend.Auth.Tokens.Families.{live_count}
use arkride_backend.Drivers.Profile.{find_for_auth}
use arkride_backend.Sample.Accounts.{blocked_in, newcomer}
use arkride_backend.Sample.Data.{idle, new_token, signed_in, subject}
use arkride_backend.Sample.Secrets.{secrets}
use arkride_backend.Sample.Services.{sample}
use arkride_backend.Sample.Tokens.{tokens}
use arkride_backend.Users.{create_user, check_if_email_exists, check_if_phone_exists}
use arkride_backend.World.{returned, thrown, unauthorized}

abbrev driver_token : TokenPayload
driver_token = record { sub = some 2; is_driver = true }

abbrev chauffeur_principal : ResolvedPrincipal
chauffeur_principal = record { id = 2; role = Role.driver; name = 12; email = 102 }

resolve_principal-IsStanding_example : IsStanding sample idle driver_token chauffeur_principal
unfolding resolve_principal find_for_auth
resolve_principal-IsStanding_example =
    resolve_principal-IsStanding sample driver_token chauffeur_principal idle refl

rider-IsBarred : IsBarred sample blocked_in.db 1 Role.user
unfolding IsBarred
rider-IsBarred u found = ground arith

refresh_session_barred_example :
    ((refresh_session sample tokens 2 blocked_in).0 ≡ thrown unauthorized)
    × (live_count 9 (refresh_session sample tokens 2 blocked_in).1 ≡ 0)
refresh_session_barred_example =
    refresh_session_barred sample tokens 2 new_token blocked_in refl refl (omega arith)
      rider-IsBarred

abbrev new_account : SanitizedUser
new_account = record {
  id = 2;
  name = 13;
  email = 103;
  phone = some 203;
  role = Role.user;
  is_verified = true;
  is_blocked = false;
}

abbrev new_session : SessionTokens
new_session = record {
  access_token = tokens.sign (record { id = 2; role = Role.user; is_driver = false });
  refresh_token = tokens.random_bytes (create_user sample (registration newcomer 304) idle).1;
  expires_in = 3600;
}

register_then_login_example :
    (Role.user ≡ Role.user)
    × ((y : SignedIn) × (((login sample tokens secrets 103 303
              (register sample tokens secrets newcomer idle).1).0
            ≡ returned y)
          × (y.user ≡ new_account)))
unfolding register check_register check_if_email_exists check_if_phone_exists create_user
    issue_session mint
register_then_login_example =
    register_then_login sample tokens secrets newcomer
      (record { user = new_account; session = new_session }) idle refl

-- The rider renews the session.
refresh_session-returned_example :
    ((session : SessionTokens) × ((refresh_session sample tokens 2 signed_in).0 ≡ returned session)
      × (session.access_token ≡ tokens.sign subject))
    × (1 ≤ live_count 9 (refresh_session sample tokens 2 signed_in).1)
unfolding subject_of
refresh_session-returned_example =
    refresh_session-returned sample tokens 2 new_token subject signed_in refl refl (omega arith)
      refl refl
