-- ===== src/Drivers/Standing/Dispatch.antt =====
-- Nobody is on dispatch who may not be: an online driver is approved and not suspended.
use arkride_backend.Common.{
  ℕ, ◌≡◌, Bool, true, ◌&&◌, some, Option-cases, inl, inr, List, if◌then◌else◌, arith,
}
use arkride_backend.Entities.Accounts.{Driver, VerificationStatus, is_approved}
use arkride_backend.Auth.Tokens.{AuthEnv, revoke_all_for_subject}
use arkride_backend.Drivers.{store_driver}
use arkride_backend.Drivers.Standing.{
  update_online_status, update_verification_status, update_active_status, remove,
}
use arkride_backend.World.{Env, World}

abbrev pub is_dispatchable : Driver → Bool
is_dispatchable d = is_approved d.verification_status && d.is_active

-- Every stored driver who is online is approved and active.
unfoldable pub AreDispatchable : Env → List Driver → Type 0
AreDispatchable e rows =
    (i : ℕ) (d : Driver)
    → e.drivers.find_one i rows ≡ some d
    → d.is_online ≡ true
    → is_dispatchable d ≡ true

module _ (e : Env) where
  pub AreDispatchable-save :
      (d : Driver) (rows : List Driver)
      → (if d.is_online then is_dispatchable d else true) ≡ true
      → AreDispatchable e rows
      → AreDispatchable e (e.drivers.save d rows)
  unfolding AreDispatchable
  AreDispatchable-save d rows good all i x found online =
      ground (arith, e.drivers.find_one_save i d rows, all i x)

  AreDispatchable-remove :
      (d : Driver) (rows : List Driver)
      → AreDispatchable e rows
      → AreDispatchable e (e.drivers.remove d rows)
  unfolding AreDispatchable
  AreDispatchable-remove d rows all i x found online =
      ground (arith, e.drivers.find_one_remove i d rows, all i x)

  -- A row that is found is as the invariant says.
  pub AreDispatchable-found :
      (i : ℕ) (d : Driver) (rows : List Driver)
      → AreDispatchable e rows
      → e.drivers.find_one i rows ≡ some d
      → (if d.is_online then is_dispatchable d else true) ≡ true
  unfolding AreDispatchable
  AreDispatchable-found i d rows all found = ground (arith, all i d found)

  store_driver-AreDispatchable :
      (d : Driver) (w : World)
      → (if d.is_online then is_dispatchable d else true) ≡ true
      → AreDispatchable e w.db.drivers
      → AreDispatchable e (store_driver e d w).1.db.drivers
  store_driver-AreDispatchable d w good all =
      ground (arith, AreDispatchable-save d w.db.drivers good all)

  pub online-AreDispatchable :
      (id : ℕ) (b : Bool) (w : World)
      → AreDispatchable e w.db.drivers
      → AreDispatchable e (update_online_status e id b w).1.db.drivers
  unfolding update_online_status
  online-AreDispatchable id b w all = elim (Option-cases (e.drivers.find_one id w.db.drivers)) [
    | inl missing ↦ ground arith
    | inr (d, found) ↦ ground (
      arith,
      AreDispatchable-found id d w.db.drivers all found,
      AreDispatchable-save (record d { is_online = b }) w.db.drivers,
    )
  ]

  module _ (a : AuthEnv) where
    pub verification-AreDispatchable :
        (id : ℕ) (status : VerificationStatus) (w : World)
        → AreDispatchable e w.db.drivers
        → AreDispatchable e (update_verification_status e a id status w).1.db.drivers
    unfolding update_verification_status revoke_all_for_subject
    verification-AreDispatchable id status w all =
        elim (Option-cases (e.drivers.find_one id w.db.drivers)) [
          | inl missing ↦ ground arith
          | inr (d, found) ↦ ground (
            arith,
            AreDispatchable-found id d w.db.drivers all found,
            AreDispatchable-save
                (record d {
                  verification_status = status;
                  is_online = d.is_online && is_approved status;
                })
                w.db.drivers,
          )
        ]

    pub active-AreDispatchable :
        (id : ℕ) (b : Bool) (w : World)
        → AreDispatchable e w.db.drivers
        → AreDispatchable e (update_active_status e a id b w).1.db.drivers
    unfolding update_active_status revoke_all_for_subject
    active-AreDispatchable id b w all = elim (Option-cases (e.drivers.find_one id w.db.drivers)) [
      | inl missing ↦ ground arith
      | inr (d, found) ↦ ground (
        arith,
        AreDispatchable-found id d w.db.drivers all found,
        AreDispatchable-save (record d { is_active = b; is_online = d.is_online && b })
            w.db.drivers,
      )
    ]

    pub remove-AreDispatchable :
        (id : ℕ) (w : World)
        → AreDispatchable e w.db.drivers
        → AreDispatchable e (remove e a id w).1.db.drivers
    unfolding remove revoke_all_for_subject
    remove-AreDispatchable id w all = elim (Option-cases (e.drivers.find_one id w.db.drivers)) [
      | inl missing ↦ ground arith
      | inr (d, found) ↦ ground (arith, AreDispatchable-remove d w.db.drivers all)
    ]
