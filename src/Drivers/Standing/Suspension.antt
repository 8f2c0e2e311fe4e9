-- ===== src/Drivers/Standing/Suspension.antt =====
-- What suspending a driver, or taking the approval away, ends.
use arkride_backend.Common.{
  ℕ, ◌≡◌, ◌∙◌, false, ◌&&◌, some, List, Option-cases, inl, inr, refl, bit, sum_by-zero, ◌==◌, arith,
}
use arkride_backend.Entities.Accounts.{Role, same_role, Driver, VerificationStatus, is_approved}
use arkride_backend.Entities.Rides.{Ride}
use arkride_backend.Entities.Tokens.{RefreshToken, subject_revoked}
use arkride_backend.Auth.Tokens.{AuthEnv, is_live, revoke, revoke_all_for_subject}
use arkride_backend.Auth.Tokens.Queries.{count}
use arkride_backend.Rides.Trip.{check_accept, accept_ride}
use arkride_backend.Drivers.{SanitizedDriver}
use arkride_backend.Drivers.Standing.{
  with_status, with_active, update_verification_status, update_active_status,
}
use arkride_backend.Platform.{ride_lock, holder}
use arkride_backend.World.{Env, World, Outcome-cases, returned, with_lock}

-- The driver's tokens that can still be exchanged.
abbrev pub driver_tokens : ℕ → World → ℕ
driver_tokens id w =
    count (λ t. t.subject_id == id && (same_role t.subject_type Role.driver && is_live t))
      w.db.refresh_tokens

-- No session to renew, and not on dispatch.
pub record IsOffDuty (e : Env) (id : ℕ) (w : World) : Type 0 where
  pub offline : (d : Driver) → e.drivers.find_one id w.db.drivers ≡ some d → d.is_online ≡ false
  pub no_token : driver_tokens id w ≡ 0

-- The driver accepts no ride.
pub IsRefused : Env → ℕ → World → Type 0
IsRefused e id w =
    (ride_id vehicle_id : ℕ) (r : Ride) → ¬ ((accept_ride e ride_id id vehicle_id w).0 ≡ returned r)

module _ (a : AuthEnv) where
  revoked_tokens :
      (id now : ℕ) (rows : List RefreshToken)
      → count
          (λ t. t.subject_id == id && (same_role t.subject_type Role.driver && is_live t))
          (a.table.update
            (λ t. t.subject_id == id && (same_role t.subject_type Role.driver && is_live t))
            (revoke now subject_revoked)
            rows).0
        ≡ 0
  revoked_tokens id now rows =
      a.table.update_rows
        (λ t. bit (t.subject_id == id && (same_role t.subject_type Role.driver && is_live t)))
        (λ t. t.subject_id == id && (same_role t.subject_type Role.driver && is_live t))
        (revoke now subject_revoked) rows
      ∙ sum_by-zero _ rows (λ t. ground arith)

  revoke_all_for_subject-driver_tokens :
      (id : ℕ) (w : World) → driver_tokens id (revoke_all_for_subject a id Role.driver w).1 ≡ 0
  unfolding revoke_all_for_subject
  revoke_all_for_subject-driver_tokens id w = revoked_tokens id w.now w.db.refresh_tokens

  revoke_all_for_subject-drivers :
      (id : ℕ) (w : World) → (revoke_all_for_subject a id Role.driver w).1.db.drivers ≡ w.db.drivers
  unfolding revoke_all_for_subject
  revoke_all_for_subject-drivers id w = refl

  revoke_all_for_subject-returned :
      (id : ℕ) (w : World) → (revoke_all_for_subject a id Role.driver w).0 ≡ returned tt
  unfolding revoke_all_for_subject
  revoke_all_for_subject-returned id w = refl

module _ (e : Env) where
  check_accept_offline :
      (ride_id id vehicle_id : ℕ) (w v : World) (r : Ride)
      → ((d : Driver) → e.drivers.find_one id w.db.drivers ≡ some d → d.is_online ≡ false)
      → ¬ (check_accept e ride_id id vehicle_id w ≡ (returned r, v))
  unfolding check_accept
  check_accept_offline ride_id id vehicle_id w v r offline h =
      elim (Option-cases (e.drivers.find_one id w.db.drivers)) [
        | inl missing ↦ ground arith
        | inr (d, found) ↦ ground (arith, offline d found)
      ]

  accept_ride_offline :
      (ride_id id vehicle_id : ℕ) (w : World) (r : Ride)
      → ((d : Driver) → e.drivers.find_one id w.db.drivers ≡ some d → d.is_online ≡ false)
      → ¬ ((accept_ride e ride_id id vehicle_id w).0 ≡ returned r)
  unfolding accept_ride with_lock
  accept_ride_offline ride_id id vehicle_id w r offline h =
      let locked : World = record w {
        redis = (e.redis.set_nx (ride_lock ride_id) (holder id) 10 w.redis).0;
      } in
      elim (Outcome-cases (check_accept e ride_id id vehicle_id locked)) [
        | inl (x, v, ends) ↦
            absurd (check_accept_offline ride_id id vehicle_id locked v x offline ends)
        | inr (x, v, ends) ↦ ground arith
      ]

  saved_offline :
      (id : ℕ) (x d : Driver) (rows : List Driver)
      → x.is_online ≡ false
      → x.id ≡ id
      → e.drivers.find_one id (e.drivers.save x rows) ≡ some d
      → d.is_online ≡ false
  saved_offline id x d rows off key found = ground (arith, e.drivers.find_one_save id x rows)

  refused : (id : ℕ) (w : World) → IsOffDuty e id w → IsOffDuty e id w × IsRefused e id w
  unfolding IsRefused
  refused id w o =
      (o, λ ride_id vehicle_id r. accept_ride_offline ride_id id vehicle_id w r o.offline)

  module _ (a : AuthEnv) where
    -- A row is saved with the driver offline, and then the sessions end.
    saved_and_ended :
        (id : ℕ) (x : Driver) (w : World)
        → x.is_online ≡ false
        → x.id ≡ id
        → IsOffDuty e id
            (revoke_all_for_subject a id Role.driver
              (record w { db = record w.db { drivers = e.drivers.save x w.db.drivers } })).1
    saved_and_ended id x w off key = record {
      offline = λ d found. ground (
        arith,
        revoke_all_for_subject-drivers a id
            (record w { db = record w.db { drivers = e.drivers.save x w.db.drivers } }),
        saved_offline id x d w.db.drivers off key,
      );
      no_token = revoke_all_for_subject-driver_tokens a id _;
    }

    suspend_ends :
        (id : ℕ) (x : SanitizedDriver) (w v : World)
        → update_active_status e a id false w ≡ (returned x, v)
        → (d : Driver) × ((d.id ≡ id)
            × (v
                ≡ (revoke_all_for_subject a id Role.driver (record w {
                  db = record w.db {
                    drivers = e.drivers.save (with_active e a false d) w.db.drivers;
                  };
                })).1))
    unfolding update_active_status
    suspend_ends id x w v h = elim (Option-cases (e.drivers.find_one id w.db.drivers)) [
      | inl missing ↦ ground arith
      | inr (d, found) ↦ (
        d,
        (
          e.drivers.find_one_key id w.db.drivers d found,
          ground (
            arith,
            e.drivers.find_one_key id w.db.drivers d found,
            revoke_all_for_subject-returned a id (record w {
              db = record w.db { drivers = e.drivers.save (with_active e a false d) w.db.drivers };
            }),
          ),
        ),
      )
    ]

    reject_ends :
        (id : ℕ) (status : VerificationStatus) (x : SanitizedDriver) (w v : World)
        → is_approved status ≡ false
        → update_verification_status e a id status w ≡ (returned x, v)
        → (d : Driver) × ((d.id ≡ id)
            × (v
                ≡ (revoke_all_for_subject a id Role.driver (record w {
                  db = record w.db {
                    drivers = e.drivers.save (with_status e a status d) w.db.drivers;
                  };
                })).1))
    unfolding update_verification_status
    reject_ends id status x w v bad h = elim (Option-cases (e.drivers.find_one id w.db.drivers)) [
      | inl missing ↦ ground arith
      | inr (d, found) ↦ (
        d,
        (
          e.drivers.find_one_key id w.db.drivers d found,
          ground (
            arith,
            e.drivers.find_one_key id w.db.drivers d found,
            revoke_all_for_subject-returned a id (record w {
              db = record w.db { drivers = e.drivers.save (with_status e a status d) w.db.drivers };
            }),
          ),
        ),
      )
    ]

    -- When `updateActiveStatus` has suspended a driver, the row, if there is one, is offline, no token
    -- of that driver can be exchanged any more, and no call of `acceptRide` by that driver returns,
    -- whatever ride and vehicle it names.
    pub suspended-IsOffDuty :
        (id : ℕ) (x : SanitizedDriver) (w v : World)
        → update_active_status e a id false w ≡ (returned x, v)
        → IsOffDuty e id v × IsRefused e id v
    suspended-IsOffDuty id x w v h =
        let (d, (key, same)) = suspend_ends id x w v h in
        refused id v (rw same (saved_and_ended id (with_active e a false d) w (ground arith) key))

    -- When `updateVerificationStatus` has set a status other than approved, the row, if there is one,
    -- is offline, no token of that driver can be exchanged any more, and no call of `acceptRide` by
    -- that driver returns, whatever ride and vehicle it names.
    pub unapproved-IsOffDuty :
        (id : ℕ) (status : VerificationStatus) (x : SanitizedDriver) (w v : World)
        → is_approved status ≡ false
        → update_verification_status e a id status w ≡ (returned x, v)
        → IsOffDuty e id v × IsRefused e id v
    unapproved-IsOffDuty id status x w v bad h =
        let (d, (key, same)) = reject_ends id status x w v bad h in
        refused id v (rw same (saved_and_ended id (with_status e a status d) w (ground arith) key))
