-- ===== src/Auth/Accounts/Codes.antt =====
-- What a new account can do, and its one-time code cannot.
use arkride_backend.Common.{
  ◌≡◌, true, false, some, none, Option-cases, inl, inr, refl, List, ◌==◌, arith,
}
use arkride_backend.Common.Text.{Text, is_blank}
use arkride_backend.Entities.Accounts.{Role, User, Code}
use arkride_backend.Auth.Tokens.{AuthEnv, SessionTokens, issue_session, mint}
use arkride_backend.Auth.Secrets.{Secrets}
use arkride_backend.Auth.Accounts.{
  RegisterDto, SignedIn, sanitize_user, registration, register, verify_otp, login, check_register,
  subject_of_user,
}
use arkride_backend.Users.{new_user, create_user, check_if_email_exists, check_if_phone_exists}
use arkride_backend.World.{
  Env, World, returned, thrown, bad_request, already_verified, Outcome-cases, Action, return, asks,
  ◌>>=◌, Error,
}

module _ (e : Env) where
  find_new :
      (email : Text) (x : User) (rows : List User)
      → e.users.find_where (λ u. u.email == email) rows ≡ none
      → x.email ≡ email
      → e.users.find_where (λ u. u.email == email) (e.users.save x rows) ≡ some x
  find_new email x rows free same =
      elim (Option-cases (e.users.find_where (λ u. u.email == email) (e.users.save x rows))) [
        | inl missing ↦ ground (
          arith,
          e.users.find_where_none (λ u. u.email == email) (e.users.save x rows) x.id x missing,
          e.users.find_one_save x.id x rows,
        )
        | inr (y, found) ↦
            let (is_his, stored) =
              e.users.find_where_some (λ u. u.email == email) (e.users.save x rows) y found in
            ground (
              arith,
              is_his,
              stored,
              e.users.find_one_save y.id x rows,
              e.users.find_where_none (λ u. u.email == email) rows y.id y free,
            )
      ]

  module _ (a : AuthEnv) (s : Secrets) where
    -- The row of a new account.
    abbrev pub account : RegisterDto → World → User
    account dto w = new_user (registration dto (s.hash w dto.password)) (e.users.new_id w.db.users)

    check_register-same : (dto : RegisterDto) (w : World) → (check_register e a s dto w).1 ≡ w
    unfolding check_register check_if_email_exists check_if_phone_exists
    check_register-same dto w = ground arith

    check_register_free :
        (dto : RegisterDto) (w v : World)
        → check_register e a s dto w ≡ (returned tt, v)
        → e.users.find_where (λ u. u.email == dto.email) w.db.users ≡ none
    unfolding check_register check_if_email_exists check_if_phone_exists
    check_register_free dto w v h =
        elim (Option-cases (e.users.find_where (λ u. u.email == dto.email) w.db.users)) [
          | inl free ↦ free
          | inr (u, taken) ↦ absurd (ground arith)
        ]

    -- What follows the refusals.
    open_account : RegisterDto → Action SignedIn
    open_account dto = do
      hashed ← asks (λ w. s.hash w dto.password)
      user ← create_user e (registration dto hashed)
      session ← issue_session a (subject_of_user user)
      return (record { user = sanitize_user user; session = session })

    opened :
        (dto : RegisterDto) (x : SignedIn) (w : World)
        → (open_account dto w).0 ≡ returned x
        → (x.user ≡ sanitize_user (account dto w))
          × ((open_account dto w).1.db.users ≡ e.users.save (account dto w) w.db.users)
    unfolding open_account create_user issue_session mint
    opened dto x w h = (ground arith, ground arith)

    register_opens :
        (dto : RegisterDto) (w : World)
        → check_register e a s dto w ≡ (returned tt, w)
        → register e a s dto w ≡ open_account dto w
    unfolding register open_account
    register_opens dto w checked = ground (arith, checked)

    register_refuses :
        (dto : RegisterDto) (x : SignedIn) (y : Error) (w v : World)
        → check_register e a s dto w ≡ (thrown y, v)
        → ¬ ((register e a s dto w).0 ≡ returned x)
    unfolding register
    register_refuses dto x y w v refused h = ground (arith, refused, h)

    pub registered :
        (dto : RegisterDto) (x : SignedIn) (w : World)
        → (register e a s dto w).0 ≡ returned x
        → (x.user ≡ sanitize_user (account dto w))
          × ((e.users.find_where (λ u. u.email == dto.email) w.db.users ≡ none)
              × ((register e a s dto w).1.db.users ≡ e.users.save (account dto w) w.db.users))
    registered dto x w h = elim (Outcome-cases (check_register e a s dto w)) [
      | inl (done, v, ends) ↦
          let same = register_opens dto w (ground (arith, ends, check_register-same dto w)) in
          let (who, rows) = opened dto x w (rw (← same) h) in
          (who, (check_register_free dto w v ends, rw same rows))
      | inr (y, v, ends) ↦ absurd (register_refuses dto x y w v ends h)
    ]

    pub registered_found :
        (dto : RegisterDto) (x : SignedIn) (w : World)
        → (register e a s dto w).0 ≡ returned x
        → e.users.find_where (λ u. u.email == dto.email) (register e a s dto w).1.db.users
          ≡ some (account dto w)
    registered_found dto x w h =
        let (same, (free, rows)) = registered dto x w h in
        ground (arith, rows, find_new dto.email (account dto w) w.db.users free refl)

    -- The one-time code that registration mails opens nothing: after a registration that returned,
    -- verifying any code for its e-mail is refused, as the account counts as verified, and changes
    -- nothing.
    pub register_code_unused :
        (dto : RegisterDto) (x : SignedIn) (otp : Code) (w : World)
        → (register e a s dto w).0 ≡ returned x
        → verify_otp e a s dto.email otp (register e a s dto w).1
          ≡ (thrown (bad_request already_verified), (register e a s dto w).1)
    unfolding verify_otp
    register_code_unused dto x otp w h = ground (arith, registered_found dto x w h)

    pub logs_in :
        (email password : Text) (u : User) (hashed : Text) (w : World)
        → e.users.find_where (λ y. y.email == email) w.db.users ≡ some u
        → u.password ≡ some hashed
        → is_blank hashed ≡ false
        → s.compare password hashed ≡ true
        → u.is_verified ≡ true
        → (y : SignedIn) × (((login e a s email password w).0 ≡ returned y)
            × (y.user ≡ sanitize_user u))
    unfolding login issue_session mint
    logs_in email password u hashed w found set given right verified =
        let session : SessionTokens = record {
          access_token = a.sign (record { id = u.id; role = u.role; is_driver = false });
          refresh_token = a.random_bytes w;
          expires_in = 3600;
        } in
        (record { user = sanitize_user u; session = session }, (ground arith, refl))

    -- An account that was registered, which has the role of a rider, signs in with the e-mail and the
    -- password of its registration, and is answered as the same account.
    pub register_then_login :
        (dto : RegisterDto) (x : SignedIn) (w : World)
        → (register e a s dto w).0 ≡ returned x
        → (x.user.role ≡ Role.user)
          × ((y : SignedIn) × (((login e a s dto.email dto.password (register e a s dto w).1).0
                  ≡ returned y)
                × (y.user ≡ x.user)))
    register_then_login dto x w h =
        let (same, (free, rows)) = registered dto x w h in
        let (y, (signed_in, who)) =
          logs_in dto.email dto.password (account dto w) (s.hash w dto.password)
            (register e a s dto w).1 (registered_found dto x w h) refl (s.hash_given w dto.password)
            (s.compare_hash w dto.password) refl in
        (ground (arith, same), (y, (signed_in, ground (arith, who, same))))
