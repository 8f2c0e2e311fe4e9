-- ===== src/Auth/Privy/Onboarding.antt =====
-- Which new drivers need the approval of an administrator: `DriversService.create` and
-- `DriversService.createFromPrivy`, then `updateOnlineStatus`.
use arkride_backend.Common.{
  ℕ, ◌≡◌, true, false, Option, some, none, Option-cases, inl, inr, refl, List, arith,
}
use arkride_backend.Common.Text.{Text}
use arkride_backend.Entities.Accounts.{Driver, is_approved, pending, approved}
use arkride_backend.Auth.Secrets.{Secrets}
use arkride_backend.Auth.Tokens.{AuthEnv, issue_session, mint}
use arkride_backend.Drivers.{sanitize_driver, clashes}
use arkride_backend.Drivers.Registration.{
  CreateDriverDto, Registered, new_driver, check_free, write_driver, create, create_from_privy,
  email_or,
}
use arkride_backend.Drivers.Standing.{update_online_status}
use arkride_backend.World.{Env, World, returned, thrown, bad_request, not_approved, Outcome-cases}

module _ (e : Env) where
  clashes-save :
      (d : Driver) (rows : List Driver)
      → e.drivers.find_where (clashes d) rows ≡ none
      → e.drivers.find_where (clashes d) (e.drivers.save d rows) ≡ none
  clashes-save d rows free =
      elim (Option-cases (e.drivers.find_where (clashes d) (e.drivers.save d rows))) [
        | inl missing ↦ missing
        | inr (z, found) ↦
            let (clash, stored) =
              e.drivers.find_where_some (clashes d) (e.drivers.save d rows) z found in
            absurd (
              ground (
                arith,
                clash,
                stored,
                e.drivers.find_one_save z.id d rows,
                e.drivers.find_where_none (clashes d) rows z.id z free,
              ))
      ]

  -- A driver that was stored can go online if it is approved and not suspended.
  goes_online :
      (d : Driver) (w : World)
      → e.drivers.find_one d.id w.db.drivers ≡ some d
      → e.drivers.find_where (clashes d) w.db.drivers ≡ none
      → is_approved d.verification_status ≡ true
      → d.is_active ≡ true
      → (update_online_status e d.id true w).0
        ≡ returned (sanitize_driver (record d { is_online = true }))
  unfolding update_online_status sanitize_driver
  goes_online d w found free approved_ active = ground arith

  stays_offline :
      (id : ℕ) (d : Driver) (w : World)
      → e.drivers.find_one id w.db.drivers ≡ some d
      → is_approved d.verification_status ≡ false
      → update_online_status e id true w ≡ (thrown (bad_request not_approved), w)
  unfolding update_online_status
  stays_offline id d w found open_ = ground arith

  written :
      (dto : CreateDriverDto) (make : ℕ → Driver) (d : Driver) (w v : World)
      → (make (e.drivers.new_id w.db.drivers)).id ≡ e.drivers.new_id w.db.drivers
      → write_driver e dto make w ≡ (returned d, v)
      → (d ≡ make (e.drivers.new_id w.db.drivers))
        × ((e.drivers.find_one d.id v.db.drivers ≡ some d)
            × (e.drivers.find_where (clashes d) v.db.drivers ≡ none))
  unfolding write_driver
  written dto make d w v same h =
      elim (Option-cases
        (e.drivers.find_where (clashes (make (e.drivers.new_id w.db.drivers))) w.db.drivers)) [
          | inr (z, clash) ↦ absurd (ground arith)
          | inl free ↦ (
            ground arith,
            (
              ground (arith, e.drivers.find_one_save d.id d w.db.drivers),
              ground (arith, clashes-save (make (e.drivers.new_id w.db.drivers)) w.db.drivers free),
            ),
          )
        ]

  check_free-same :
      (dto : CreateDriverDto) (email : Text) (w : World) → (check_free e dto email w).1 ≡ w
  unfolding check_free
  check_free-same dto email w = ground arith

  create_from_privy_online :
      (did placeholder : Text) (email wallet : Option Text) (dto : CreateDriverDto) (d : Driver)
      (w v : World)
      → create_from_privy e did placeholder email wallet dto w ≡ (returned d, v)
      → (update_online_status e d.id true v).0
        ≡ returned (sanitize_driver (record d { is_online = true }))
  unfolding create_from_privy
  create_from_privy_online did placeholder email wallet dto d w v h =
      elim (Outcome-cases (check_free e dto (email_or e email placeholder) w)) [
        | inr (y, u, ends) ↦ absurd (ground (arith, ends))
        | inl (done, u, ends) ↦
            let (same, (stored, free)) =
              written dto
                (λ id.
                  new_driver id dto (email_or e email placeholder) none approved (some did) wallet)
                d u v refl (ground (arith, ends)) in
            goes_online d v stored free (ground (arith, same)) (ground (arith, same))
      ]

  create_waits :
      (a : AuthEnv) (s : Secrets) (dto : CreateDriverDto) (x : Registered) (w v : World)
      → create e a s dto w ≡ (returned x, v)
      → update_online_status e x.driver.id true v ≡ (thrown (bad_request not_approved), v)
  unfolding create sanitize_driver issue_session mint
  create_waits a s dto x w v h = elim (Outcome-cases (check_free e dto dto.email w)) [
    | inr (y, u, ends) ↦ absurd (ground (arith, ends))
    | inl (done, u, ends) ↦
        elim (Outcome-cases (
          write_driver e dto
            (λ id. new_driver id dto dto.email (some (s.hash u dto.password)) pending none none)
            u)) [
              | inr (y, t, wrote) ↦ absurd (ground (arith, ends, wrote))
              | inl (d, t, wrote) ↦
                  let (same, (stored, free)) =
                    written dto
                      (λ id.
                        new_driver id dto dto.email (some (s.hash u dto.password)) pending none
                          none)
                      d u t refl wrote in
                  let found : e.drivers.find_one x.driver.id v.db.drivers ≡ some d =
                    ground (arith, ends, wrote, stored, same) in
                  stays_offline x.driver.id d v found (ground (arith, same))
            ]
  ]

  -- The same details need an administrator's approval when they come with a password, and nobody's
  -- when they come from Privy: if `create` returned, the new driver is refused to go online as not
  -- approved; if `createFromPrivy` returned, the new driver goes online.
  pub create_from_privy_unapproved :
      (a : AuthEnv) (s : Secrets) (did placeholder : Text) (email wallet : Option Text)
      (dto : CreateDriverDto) (x : Registered) (d : Driver) (w v u : World)
      → create e a s dto w ≡ (returned x, v)
      → create_from_privy e did placeholder email wallet dto w ≡ (returned d, u)
      → (update_online_status e x.driver.id true v ≡ (thrown (bad_request not_approved), v))
        × ((update_online_status e d.id true u).0
            ≡ returned (sanitize_driver (record d { is_online = true })))
  create_from_privy_unapproved a s did placeholder email wallet dto x d w v u created onboarded = (
    create_waits a s dto x w v created,
    create_from_privy_online did placeholder email wallet dto d w u onboarded,
  )
