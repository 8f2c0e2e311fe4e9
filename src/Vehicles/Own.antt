-- ===== src/Vehicles/Own.antt =====
-- Whose vehicles a driver's calls change.
use arkride_backend.Common.{
  ℕ, ◌≡◌, ◌⊎◌, Bool, true, false, Option, some, none, Option-cases, Bool-cases, inl, inr, refl,
  List, ◌==◌, arith, ap, [], ◌∷◌,
}
use arkride_backend.Entities.Accounts.{Role, same_role, Vehicle}
use arkride_backend.Auth.Sessions.{ResolvedPrincipal, can_activate}
use arkride_backend.Ownership.{is_admin, can_act_on_behalf_of, assert_ownership}
use arkride_backend.Vehicles.{
  find_one, find_all, find_by_driver_id, create, update, remove, deactivate, activate, assign,
  with_active, new_vehicle, UpdateVehicleDto, CreateVehicleDto,
}
use arkride_backend.Vehicles.Endpoints.{
  VehicleCall, register, list_all, list_of, show, switch_off, switch_on, change, delete,
  assert_owns_vehicle, handle, call, required_roles, is_sent,
}
use arkride_backend.World.{World, Env, ◌>>=◌, Action, ◌>>◌, Outcome-cases, return}

-- No row, or one of the driver's.
abbrev pub is_own : ℕ → Option Vehicle → Bool
is_own driver none = true
is_own driver (some v) = v.driver_id == driver

-- Between two tables a row stays, or it was the driver's, or there was none, and so it is after.
pub StaysOrOwn : Env → ℕ → List Vehicle → List Vehicle → Type 0
StaysOrOwn e driver before after =
    (i : ℕ)
    → (e.vehicles.find_one i after ≡ e.vehicles.find_one i before)
      ⊎ ((is_own driver (e.vehicles.find_one i before) ≡ true)
          × (is_own driver (e.vehicles.find_one i after) ≡ true))

module _ (e : Env) (driver : ℕ) where
  same-StaysOrOwn :
      (before after : List Vehicle) → after ≡ before → StaysOrOwn e driver before after
  unfolding StaysOrOwn
  same-StaysOrOwn before after same i = inl (ap (λ rows. e.vehicles.find_one i rows) same)

  save-StaysOrOwn :
      (x : Vehicle) (rows : List Vehicle)
      → x.driver_id ≡ driver
      → is_own driver (e.vehicles.find_one x.id rows) ≡ true
      → StaysOrOwn e driver rows (e.vehicles.save x rows)
  unfolding StaysOrOwn
  save-StaysOrOwn x rows his was i = elim (Bool-cases (x.id == i)) [
    | inl same ↦ inr (ground (arith, was, same), ground (arith, e.vehicles.find_one_save i x rows))
    | inr other ↦ inl (ground (arith, e.vehicles.find_one_save i x rows))
  ]

  remove-StaysOrOwn :
      (x : Vehicle) (rows : List Vehicle)
      → is_own driver (e.vehicles.find_one x.id rows) ≡ true
      → StaysOrOwn e driver rows (e.vehicles.remove x rows)
  unfolding StaysOrOwn
  remove-StaysOrOwn x rows was i = elim (Bool-cases (x.id == i)) [
    | inl same ↦
        inr (ground (arith, was, same), ground (arith, e.vehicles.find_one_remove i x rows))
    | inr other ↦ inl (ground (arith, e.vehicles.find_one_remove i x rows))
  ]

  -- A row is saved, or nothing is.
  saved-StaysOrOwn :
      (x : Vehicle) (before after : List Vehicle)
      → x.driver_id ≡ driver
      → is_own driver (e.vehicles.find_one x.id before) ≡ true
      → (after ≡ before) ⊎ (after ≡ e.vehicles.save x before)
      → StaysOrOwn e driver before after
  saved-StaysOrOwn x before after his was (inl same) = same-StaysOrOwn before after same
  saved-StaysOrOwn x before after his was (inr saved) = rw saved (save-StaysOrOwn x before his was)

  module _ (id : ℕ) (v : Vehicle) (w : World) where
    found_own :
        e.vehicles.find_one id w.db.vehicles ≡ some v
        → v.driver_id ≡ driver
        → is_own driver (e.vehicles.find_one v.id w.db.vehicles) ≡ true
    found_own found his = ground (arith, e.vehicles.find_one_key id w.db.vehicles v found)

    update_saves :
        (dto : UpdateVehicleDto)
        → e.vehicles.find_one id w.db.vehicles ≡ some v
        → ((update e id dto w).1.db.vehicles ≡ w.db.vehicles)
          ⊎ ((update e id dto w).1.db.vehicles ≡ e.vehicles.save (assign dto v) w.db.vehicles)
    unfolding update
    update_saves dto found = ground arith

    deactivate_saves :
        e.vehicles.find_one id w.db.vehicles ≡ some v
        → ((deactivate e id w).1.db.vehicles ≡ w.db.vehicles)
          ⊎ ((deactivate e id w).1.db.vehicles
              ≡ e.vehicles.save (with_active e false v) w.db.vehicles)
    unfolding deactivate
    deactivate_saves found = ground arith

    activate_saves :
        e.vehicles.find_one id w.db.vehicles ≡ some v
        → ((activate e id w).1.db.vehicles ≡ w.db.vehicles)
          ⊎ ((activate e id w).1.db.vehicles ≡ e.vehicles.save (with_active e true v) w.db.vehicles)
    unfolding activate
    activate_saves found = ground arith

    remove_removes :
        e.vehicles.find_one id w.db.vehicles ≡ some v
        → (remove e id w).1.db.vehicles ≡ e.vehicles.remove v w.db.vehicles
    unfolding remove
    remove_removes found = ground arith

  create_saves :
      (dto : CreateVehicleDto) (w : World)
      → ((create e driver dto w).1.db.vehicles ≡ w.db.vehicles)
        ⊎ ((create e driver dto w).1.db.vehicles
            ≡ e.vehicles.save
                (new_vehicle driver dto (e.vehicles.new_id w.db.vehicles))
                w.db.vehicles)
  unfolding create find_one
  create_saves dto w = ground arith

module _ (e : Env) (p : ResolvedPrincipal) (no_admin : same_role p.role Role.admin ≡ false) where
  passes_guard :
      {B : Type 0} (id : ℕ) (k : Action B) (v : Vehicle) (w : World)
      → e.vehicles.find_one id w.db.vehicles ≡ some v
      → (p.id == v.driver_id) ≡ true
      → (assert_owns_vehicle e p id >> k) w ≡ k w
  unfolding find_one is_admin can_act_on_behalf_of assert_ownership
  passes_guard id k v w found own = ground arith

  guarded :
      {B : Type 0} (id : ℕ) (k : Action B) (w : World)
      → ((v : Vehicle)
          → e.vehicles.find_one id w.db.vehicles ≡ some v
          → v.driver_id ≡ p.id
          → StaysOrOwn e p.id w.db.vehicles (k w).1.db.vehicles)
      → StaysOrOwn e p.id w.db.vehicles ((assert_owns_vehicle e p id >> k) w).1.db.vehicles
  unfolding find_one is_admin can_act_on_behalf_of assert_ownership
  guarded id k w his = elim (Option-cases (e.vehicles.find_one id w.db.vehicles)) [
    | inl missing ↦ same-StaysOrOwn e p.id w.db.vehicles _ (ground arith)
    | inr (v, found) ↦ elim (Bool-cases (p.id == v.driver_id)) [
      | inl own ↦ rw (passes_guard id k v w found own) (his v found (ground arith))
      | inr other ↦ same-StaysOrOwn e p.id w.db.vehicles _ (ground arith)
    ]
  ]

  answered :
      {A B : Type 0} (m : Action A) (f : A → B) (w : World)
      → ((m >>= λ a. return (f a)) w).1 ≡ (m w).1
  answered m f w = elim (Outcome-cases (m w)) [
    | inl (a, v, ends) ↦ ground (arith, ends)
    | inr (y, v, ends) ↦ ground (arith, ends)
  ]

  list_of-same :
      (driver_id : ℕ) (w : World) → (handle e p (list_of driver_id) w).1.db.vehicles ≡ w.db.vehicles
  unfolding handle find_by_driver_id assert_ownership
  list_of-same driver_id w = ground arith

  show-same : (id : ℕ) (w : World) → (handle e p (show id) w).1.db.vehicles ≡ w.db.vehicles
  unfolding handle find_one assert_ownership
  show-same id w = ground arith

  register-StaysOrOwn :
      (dto : CreateVehicleDto) (w : World)
      → StaysOrOwn e p.id w.db.vehicles (handle e p (register dto) w).1.db.vehicles
  unfolding handle is_admin
  register-StaysOrOwn dto w = elim (Bool-cases (is_sent dto.driver_id)) [
    | inl named ↦ same-StaysOrOwn e p.id w.db.vehicles _ (ground arith)
    | inr unnamed ↦
        let made : (handle e p (register dto) w).1 ≡ (create e p.id dto w).1 =
          ground (arith, answered (create e p.id dto) (λ x. x ∷ []) w) in
        rw made (
          saved-StaysOrOwn e p.id (new_vehicle p.id dto (e.vehicles.new_id w.db.vehicles))
            w.db.vehicles _ refl (ground (arith, e.vehicles.new_id_fresh w.db.vehicles))
            (create_saves e p.id dto w))
  ]

  -- What a handler does after the guard is one of the service's writes.
  handle-StaysOrOwn :
      (c : VehicleCall) (w : World) → StaysOrOwn e p.id w.db.vehicles (handle e p c w).1.db.vehicles
  unfolding handle find_all
  handle-StaysOrOwn (register dto) w = register-StaysOrOwn dto w
  handle-StaysOrOwn list_all w = same-StaysOrOwn e p.id w.db.vehicles _ refl
  handle-StaysOrOwn (list_of driver_id) w =
      same-StaysOrOwn e p.id w.db.vehicles _ (list_of-same driver_id w)
  handle-StaysOrOwn (show id) w = same-StaysOrOwn e p.id w.db.vehicles _ (show-same id w)
  handle-StaysOrOwn (switch_off id) w =
      guarded id (deactivate e id >>= λ v. return (v ∷ [])) w (λ v found his.
        rw (answered (deactivate e id) (λ x. x ∷ []) w) (
          saved-StaysOrOwn e p.id (with_active e false v) w.db.vehicles _ his
            (found_own e p.id id v w found his) (deactivate_saves e p.id id v w found)))
  handle-StaysOrOwn (switch_on id) w =
      guarded id (activate e id >>= λ v. return (v ∷ [])) w (λ v found his.
        rw (answered (activate e id) (λ x. x ∷ []) w) (
          saved-StaysOrOwn e p.id (with_active e true v) w.db.vehicles _ his
            (found_own e p.id id v w found his) (activate_saves e p.id id v w found)))
  handle-StaysOrOwn (change id dto) w =
      guarded id (update e id dto >>= λ v. return (v ∷ [])) w (λ v found his.
        rw (answered (update e id dto) (λ x. x ∷ []) w) (
          saved-StaysOrOwn e p.id (assign dto v) w.db.vehicles _ his
            (found_own e p.id id v w found his) (update_saves e p.id id v w dto found)))
  handle-StaysOrOwn (delete id) w = guarded id (remove e id >>= λ x. return []) w (λ v found his.
      rw (answered (remove e id) (λ x. []) w) (
        rw (remove_removes e p.id id v w found)
          (remove-StaysOrOwn e p.id v w.db.vehicles (found_own e p.id id v w found his))))

  -- A principal who is not an administrator touches only vehicles of its own: after any call, whether
  -- it returned or not, every row stands as before, or there was none or one that was the caller's,
  -- and so it is after.
  pub call-StaysOrOwn :
      (c : VehicleCall) (w : World) → StaysOrOwn e p.id w.db.vehicles (call e p c w).1.db.vehicles
  unfolding call
  call-StaysOrOwn c w = elim (Bool-cases (can_activate false (some (required_roles c)) (some p))) [
    | inl admitted ↦ rw admitted (handle-StaysOrOwn c w)
    | inr refused ↦ same-StaysOrOwn e p.id w.db.vehicles _ (ground arith)
  ]
