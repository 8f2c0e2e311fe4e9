-- ===== src/Drivers/Password/Reset.antt =====
-- A one-time code works once, and the new password works after it.
use arkride_backend.Common.{
  ℕ, ◌≡◌, ◌↔◌, ◌≤◌, ◌<◌, true, false, some, none, List, [], ◌∷◌, length, Option-cases, inl, inr,
  refl, ◌==◌, arith,
}
use arkride_backend.Common.Text.{Text, is_blank}
use arkride_backend.Entities.Accounts.{Driver, Code}
use arkride_backend.Auth.Tokens.{AuthEnv, SessionTokens, issue_session, mint}
use arkride_backend.Auth.Secrets.{Secrets}
use arkride_backend.Drivers.{sanitize_driver}
use arkride_backend.Drivers.Password.{login, reset_password}
use arkride_backend.Drivers.Registration.{Registered}
use arkride_backend.Otp.{matches}
use arkride_backend.Otp.Codes.{matches_iff}
use arkride_backend.World.{Env, World, returned, thrown, bad_request, invalid_otp}

-- The unique column `email`.
unfoldable pub HasUniqueEmails : Env → List Driver → Type 0
HasUniqueEmails e rows =
    (i j : ℕ) (c d : Driver)
    → e.drivers.find_one i rows ≡ some c
    → e.drivers.find_one j rows ≡ some d
    → c.email ≡ d.email
    → i ≡ j

module _ (e : Env) where
  -- The row that a query by e-mail answers after it was saved.
  find_saved :
      (email : Text) (d x : Driver) (rows : List Driver)
      → HasUniqueEmails e rows
      → e.drivers.find_where (λ y. y.email == email) rows ≡ some d
      → x.id ≡ d.id
      → x.email ≡ d.email
      → e.drivers.find_where (λ y. y.email == email) (e.drivers.save x rows) ≡ some x
  unfolding HasUniqueEmails
  find_saved email d x rows unique found key same =
      let (is_his, stored) = e.drivers.find_where_some (λ y. y.email == email) rows d found in
      elim (Option-cases (e.drivers.find_where (λ y. y.email == email) (e.drivers.save x rows))) [
        | inl missing ↦ ground (
          arith,
          is_his,
          e.drivers.find_where_none (λ y. y.email == email) (e.drivers.save x rows) x.id x missing,
          e.drivers.find_one_save x.id x rows,
        )
        | inr (y, found_y) ↦
            let (is_hers, stored_y) =
              e.drivers.find_where_some (λ z. z.email == email) (e.drivers.save x rows) y found_y in
            ground (
              arith,
              is_his,
              is_hers,
              stored,
              stored_y,
              e.drivers.find_one_save y.id x rows,
              unique y.id d.id y d,
            )
      ]

  module _ (s : Secrets) where
    -- The row after a reset.
    abbrev reset_row : Text → World → Driver → Driver
    reset_row new_password w d = record d {
      password = some (s.hash w new_password);
      otp_code = none;
      otp_expiry = none;
    }

    reset_saves :
        (email : Text) (otp : Code) (new_password : Text) (d : Driver) (w : World)
        → e.drivers.find_where (λ y. y.email == email) w.db.drivers ≡ some d
        → (reset_password e s email otp new_password w).0 ≡ returned tt
        → (reset_password e s email otp new_password w).1 ≡ record w {
          db = record w.db { drivers = e.drivers.save (reset_row new_password w d) w.db.drivers };
        }
    unfolding reset_password
    reset_saves email otp new_password d w found done =
        ground (arith, (e.drivers.find_where_some (λ y. y.email == email) w.db.drivers d found).1)

    reset_missing :
        (email : Text) (otp : Code) (new_password : Text) (w : World)
        → e.drivers.find_where (λ y. y.email == email) w.db.drivers ≡ none
        → ¬ ((reset_password e s email otp new_password w).0 ≡ returned tt)
    unfolding reset_password
    reset_missing email otp new_password w missing h = ground arith

    reset_finds :
        (email : Text) (otp : Code) (new_password : Text) (w : World)
        → HasUniqueEmails e w.db.drivers
        → (reset_password e s email otp new_password w).0 ≡ returned tt
        → (d : Driver) × ((e.drivers.find_where (λ y. y.email == email) w.db.drivers ≡ some d)
            × (e.drivers.find_where
                  (λ y. y.email == email)
                  (reset_password e s email otp new_password w).1.db.drivers
                ≡ some (reset_row new_password w d)))
    reset_finds email otp new_password w unique done =
        elim (Option-cases (e.drivers.find_where (λ y. y.email == email) w.db.drivers)) [
          | inl missing ↦ absurd (reset_missing email otp new_password w missing done)
          | inr (d, found) ↦ (
            d,
            (
              found,
              ground (
                arith,
                reset_saves email otp new_password d w found done,
                find_saved email d (reset_row new_password w d) w.db.drivers unique found refl refl,
              ),
            ),
          )
        ]

    no_code :
        (email : Text) (otp : Code) (new_password : Text) (d : Driver) (w : World)
        → e.drivers.find_where (λ y. y.email == email) w.db.drivers ≡ some d
        → d.otp_code ≡ none
        → reset_password e s email otp new_password w ≡ (thrown (bad_request invalid_otp), w)
    unfolding reset_password matches
    no_code email [] new_password d w found spent = ground arith
    no_code email (x ∷ xs) new_password d w found spent = ground arith

    -- Where no two drivers have one e-mail: after a reset that returned, a second one for that e-mail
    -- is refused as a wrong code, whatever code and password it brings, and changes nothing.
    pub reset_password_once :
        (email : Text) (otp again : Code) (first second : Text) (w : World)
        → HasUniqueEmails e w.db.drivers
        → (reset_password e s email otp first w).0 ≡ returned tt
        → reset_password e s email again second (reset_password e s email otp first w).1
          ≡ (thrown (bad_request invalid_otp), (reset_password e s email otp first w).1)
    reset_password_once email otp again first second w unique done =
        let (d, (found, saved)) = reset_finds email otp first w unique done in
        no_code email again second (reset_row first w d) (reset_password e s email otp first w).1
          saved refl

    logs_in :
        (a : AuthEnv) (email password : Text) (d : Driver) (h : Text) (w : World)
        → e.drivers.find_where (λ y. y.email == email) w.db.drivers ≡ some d
        → d.password ≡ some h
        → is_blank h ≡ false
        → s.compare password h ≡ true
        → d.is_active ≡ true
        → (x : Registered) × (((login e a s email password w).0 ≡ returned x)
            × (x.driver.id ≡ d.id))
    unfolding login issue_session mint sanitize_driver
    logs_in a email password d h w found set given right active =
        let session : SessionTokens = record {
          access_token = a.sign (record { id = d.id; role = d.role; is_driver = true });
          refresh_token = a.random_bytes w;
          expires_in = 3600;
        } in
        (record { driver = sanitize_driver d; session = session }, (ground arith, refl))

    -- Where no two drivers have one e-mail: after a reset that returned, the driver of that e-mail, if
    -- not suspended, signs in with the new password and gets a session.
    pub reset_then_login :
        (a : AuthEnv) (email : Text) (otp : Code) (new_password : Text) (d : Driver) (w : World)
        → HasUniqueEmails e w.db.drivers
        → e.drivers.find_where (λ y. y.email == email) w.db.drivers ≡ some d
        → d.is_active ≡ true
        → (reset_password e s email otp new_password w).0 ≡ returned tt
        → (x : Registered) × (((login e a s email new_password
                (reset_password e s email otp new_password w).1).0
              ≡ returned x)
            × (x.driver.id ≡ d.id))
    reset_then_login a email otp new_password d w unique found active done =
        logs_in a email new_password (reset_row new_password w d) (s.hash w new_password)
          (reset_password e s email otp new_password w).1
          (ground (
            arith,
            reset_saves email otp new_password d w found done,
            find_saved email d (reset_row new_password w d) w.db.drivers unique found refl refl,
          ))
          refl (s.hash_given w new_password) (s.compare_hash w new_password) active

    -- For a driver who has a stored code and its expiry, and a submitted code of at most 64 bytes: the
    -- reset returns exactly when the submitted code is the stored one, that is not empty, and its
    -- time is not over.
    pub reset_password_iff :
        (email : Text) (otp stored : Code) (expiry : ℕ) (new_password : Text) (d : Driver)
        (w : World)
        → e.drivers.find_where (λ y. y.email == email) w.db.drivers ≡ some d
        → d.otp_code ≡ some stored
        → d.otp_expiry ≡ some expiry
        → length otp ≤ 64
        → ((reset_password e s email otp new_password w).0 ≡ returned tt)
          ↔ ((otp ≡ stored) × ((0 < length stored) × (w.now ≤ expiry)))
    unfolding reset_password
    reset_password_iff email otp stored expiry new_password d w found code until short =
        let (accepts, accepted) = matches_iff otp stored short in
        ground (
          arith,
          accepts,
          accepted,
          (e.drivers.find_where_some (λ y. y.email == email) w.db.drivers d found).1,
        )
