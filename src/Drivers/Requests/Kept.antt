-- ===== src/Drivers/Requests/Kept.antt =====
-- Every other operation that writes a driver's row keeps who may be on dispatch.
use arkride_backend.Common.{
  ℕ, ◌≡◌, false, Option, some, none, Option-cases, inl, inr, refl, List, ◌==◌, arith,
}
use arkride_backend.Common.Text.{Text}
use arkride_backend.Money.{split_fare_kobo, fare_to_naira}
use arkride_backend.Entities.Accounts.{Driver, pending, approved, Code}
use arkride_backend.Entities.Rides.{Ride}
use arkride_backend.Auth.Tokens.{AuthEnv, issue_session}
use arkride_backend.Otp.{generate, get_expiry_time}
use arkride_backend.Auth.Secrets.{Secrets}
use arkride_backend.Drivers.Registration.{
  CreateDriverDto, new_driver, email_or, check_free, write_driver, create, create_from_privy,
}
use arkride_backend.Drivers.Profile.{UpdateDriverDto, check_update, with_profile, update}
use arkride_backend.Drivers.Password.{login, forgot_password, reset_password}
use arkride_backend.Drivers.Standing.Dispatch.{
  AreDispatchable, AreDispatchable-save, AreDispatchable-found,
}
use arkride_backend.Ledger.Frame.{write_entries-OnlyLedger}
use arkride_backend.Rides.Settlement.{
  settle, complete, complete_ride, credited_driver, final_fare_of,
}
use arkride_backend.World.{Env, World, with_lock}

module _ (e : Env) where
  -- A changed row of a driver that is found.
  pub change-AreDispatchable :
      (i : ℕ) (d x : Driver) (rows : List Driver)
      → e.drivers.find_one i rows ≡ some d
      → x.is_online ≡ d.is_online
      → x.is_active ≡ d.is_active
      → x.verification_status ≡ d.verification_status
      → AreDispatchable e rows
      → AreDispatchable e (e.drivers.save x rows)
  change-AreDispatchable i d x rows found p q r all =
      AreDispatchable-save e x rows (rw (p, q, r) (AreDispatchable-found e i d rows all found)) all

  write_driver-AreDispatchable :
      (dto : CreateDriverDto) (make : ℕ → Driver) (w : World)
      → ((id : ℕ) → (make id).is_online ≡ false)
      → AreDispatchable e w.db.drivers
      → AreDispatchable e (write_driver e dto make w).1.db.drivers
  unfolding write_driver
  write_driver-AreDispatchable dto make w off all = ground (
    arith,
    off (e.drivers.new_id w.db.drivers),
    AreDispatchable-save e (make (e.drivers.new_id w.db.drivers)) w.db.drivers,
  )

  check_free-db :
      (dto : CreateDriverDto) (email : Text) (w : World) → (check_free e dto email w).1 ≡ w
  unfolding check_free
  check_free-db dto email w = ground arith

  pub create_from_privy-AreDispatchable :
      (did placeholder : Text) (email wallet : Option Text) (dto : CreateDriverDto) (w : World)
      → AreDispatchable e w.db.drivers
      → AreDispatchable e (create_from_privy e did placeholder email wallet dto w).1.db.drivers
  unfolding create_from_privy
  create_from_privy-AreDispatchable did placeholder email wallet dto w all =
      let address = email_or e email placeholder in
      ground (
        arith,
        check_free-db dto address w,
        write_driver-AreDispatchable dto
            (λ id. new_driver id dto address none approved (some did) wallet) w (λ id. refl) all,
      )

  pub create-AreDispatchable :
      (a : AuthEnv) (s : Secrets) (dto : CreateDriverDto) (w : World)
      → AreDispatchable e w.db.drivers
      → AreDispatchable e (create e a s dto w).1.db.drivers
  unfolding create issue_session
  create-AreDispatchable a s dto w all = ground (
    arith,
    check_free-db dto dto.email w,
    write_driver-AreDispatchable dto
        (λ id. new_driver id dto dto.email (some (s.hash w dto.password)) pending none none) w
        (λ id. refl) all,
  )

  check_update-db :
      (d : Driver) (dto : UpdateDriverDto) (w : World) → (check_update e d dto w).1 ≡ w
  unfolding check_update
  check_update-db d dto w = ground arith

  pub update-AreDispatchable :
      (id : ℕ) (dto : UpdateDriverDto) (w : World)
      → AreDispatchable e w.db.drivers
      → AreDispatchable e (update e id dto w).1.db.drivers
  unfolding update
  update-AreDispatchable id dto w all = elim (Option-cases (e.drivers.find_one id w.db.drivers)) [
    | inl missing ↦ ground arith
    | inr (d, found) ↦ ground (
      arith,
      check_update-db d dto w,
      AreDispatchable-found e id d w.db.drivers all found,
      AreDispatchable-save e (with_profile e dto d) w.db.drivers,
    )
  ]

  pub login-AreDispatchable :
      (a : AuthEnv) (s : Secrets) (email password : Text) (w : World)
      → AreDispatchable e w.db.drivers
      → AreDispatchable e (login e a s email password w).1.db.drivers
  unfolding login issue_session
  login-AreDispatchable a s email password w all = ground arith

  pub forgot_password-AreDispatchable :
      (s : Secrets) (email : Text) (w : World)
      → AreDispatchable e w.db.drivers
      → AreDispatchable e (forgot_password e s email w).1.db.drivers
  unfolding forgot_password
  forgot_password-AreDispatchable s email w all =
      elim (Option-cases (e.drivers.find_where (λ d. d.email == email) w.db.drivers)) [
        | inl missing ↦ ground arith
        | inr (d, found) ↦ ground (
          arith,
          (e.drivers.find_where_some (λ d. d.email == email) w.db.drivers d found).1,
          change-AreDispatchable d.id d
              (record d {
                otp_code = some (generate (s.random_int w));
                otp_expiry = some (get_expiry_time w.now 10);
              })
              w.db.drivers,
        )
      ]

  pub reset_password-AreDispatchable :
      (s : Secrets) (email : Text) (otp : Code) (new_password : Text) (w : World)
      → AreDispatchable e w.db.drivers
      → AreDispatchable e (reset_password e s email otp new_password w).1.db.drivers
  unfolding reset_password
  reset_password-AreDispatchable s email otp new_password w all =
      elim (Option-cases (e.drivers.find_where (λ d. d.email == email) w.db.drivers)) [
        | inl missing ↦ ground arith
        | inr (d, found) ↦ ground (
          arith,
          (e.drivers.find_where_some (λ d. d.email == email) w.db.drivers d found).1,
          change-AreDispatchable d.id d
              (record d {
                password = some (s.hash w new_password);
                otp_code = none;
                otp_expiry = none;
              })
              w.db.drivers,
        )
      ]

  settle-AreDispatchable :
      (driver_id : ℕ) (r : Ride) (w : World)
      → AreDispatchable e w.db.drivers
      → AreDispatchable e (settle e driver_id r w).1.db.drivers
  unfolding settle
  settle-AreDispatchable driver_id r w all =
      elim (Option-cases (e.drivers.find_one driver_id w.db.drivers)) [
        | inl missing ↦ ground arith
        | inr (d, found) ↦
            let k = (split_fare_kobo (fare_to_naira (final_fare_of r))).driver_kobo in
            grind (
              arith,
              write_entries-OnlyLedger,
              change-AreDispatchable driver_id d (credited_driver e d k) w.db.drivers found,
            )
      ]

  complete-AreDispatchable :
      (i driver_id : ℕ) (w : World)
      → AreDispatchable e w.db.drivers
      → AreDispatchable e (complete e i driver_id w).1.db.drivers
  unfolding complete
  complete-AreDispatchable i driver_id w all = elim (Option-cases (e.rides.find_one i w.db.rides)) [
    | inl missing ↦ ground arith
    | inr (r, found) ↦ ground (arith, settle-AreDispatchable driver_id r w all)
  ]

  pub complete_ride-AreDispatchable :
      (i driver_id : ℕ) (w : World)
      → AreDispatchable e w.db.drivers
      → AreDispatchable e (complete_ride e i driver_id w).1.db.drivers
  unfolding complete_ride with_lock
  complete_ride-AreDispatchable i driver_id w all = grind (arith, complete-AreDispatchable)
