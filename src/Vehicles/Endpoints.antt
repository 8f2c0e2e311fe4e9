-- ===== src/Vehicles/Endpoints.antt =====
-- The endpoints of vehicles (src/vehicles/vehicles.controller.ts), for a principal whose token was
-- verified. An id in the path has the form of an id.
use arkride_backend.Common.{
  ℕ, false, not, ◌&&◌, some, is_some, get_or, List, [], ◌∷◌, if◌then◌else◌, Bool, true,
}
use arkride_backend.Entities.Accounts.{Role, same_role}
use arkride_backend.Auth.Sessions.{ResolvedPrincipal, can_activate}
use arkride_backend.Ownership.{Principal, is_admin, can_act_on_behalf_of, assert_ownership}
use arkride_backend.Vehicles.{
  CreateVehicleDto, UpdateVehicleDto, ShownVehicle, create, find_all, find_by_driver_id, find_one,
  update, remove, deactivate, activate, Sent, value_of, unsent,
}
use arkride_backend.World.{
  Env, Action, return, throw_if, ◌>>=◌, ◌>>◌, forbidden, bad_request, access_denied,
  names_other_owner, owner_not_named,
}

pub data VehicleCall : Type 0 where
  register : CreateVehicleDto → VehicleCall
  list_all : VehicleCall
  list_of : (driver_id : ℕ) → VehicleCall
  show : (id : ℕ) → VehicleCall
  switch_off switch_on : (id : ℕ) → VehicleCall
  change : (id : ℕ) → UpdateVehicleDto → VehicleCall
  delete : (id : ℕ) → VehicleCall

-- `@Roles`
abbrev pub required_roles : VehicleCall → List Role
required_roles list_all = Role.admin ∷ []
required_roles _ = Role.driver ∷ Role.admin ∷ []

abbrev pub principal_of : ResolvedPrincipal → Principal
principal_of p = record { id = p.id; role = p.role }

-- `driverId !== undefined`
abbrev pub is_sent : {A : Type 0} → Sent A → Bool
is_sent unsent = false
is_sent _ = true

-- `isAdmin(principal) ? createVehicleDto.driverId : principal.id`
abbrev pub owner_id : ResolvedPrincipal → CreateVehicleDto → ℕ
owner_id p dto = if same_role p.role Role.admin then get_or (value_of dto.driver_id) 0 else p.id

abbrev one : ShownVehicle → List ShownVehicle
one v = v ∷ []

module _ (e : Env) where
  abbrev pub assert_owns_vehicle : ResolvedPrincipal → ℕ → Action (Unit {0})
  assert_owns_vehicle p id = do
    shown ← find_one e id
    assert_ownership (some (principal_of p)) (some shown.vehicle.driver_id) access_denied

  -- The vehicles that the answer holds.
  unfoldable pub handle : ResolvedPrincipal → VehicleCall → Action (List ShownVehicle)
  unfolding find_one is_admin can_act_on_behalf_of assert_ownership
  handle p (register dto) = do
    throw_if (not (is_admin (some (principal_of p))) && is_sent dto.driver_id)
        (forbidden names_other_owner)
    throw_if (is_admin (some (principal_of p)) && not (is_some (value_of dto.driver_id)))
        (bad_request owner_not_named)
    vehicle ← create e (owner_id p dto) dto
    return (one vehicle)
  handle p list_all = find_all e
  handle p (list_of driver_id) = do
    assert_ownership (some (principal_of p)) (some driver_id) access_denied
    find_by_driver_id e driver_id
  handle p (show id) = do
    shown ← find_one e id
    assert_ownership (some (principal_of p)) (some shown.vehicle.driver_id) access_denied
    return (one shown)
  handle p (switch_off id) = do
    assert_owns_vehicle p id
    vehicle ← deactivate e id
    return (one vehicle)
  handle p (switch_on id) = do
    assert_owns_vehicle p id
    vehicle ← activate e id
    return (one vehicle)
  handle p (change id dto) = do
    assert_owns_vehicle p id
    vehicle ← update e id dto
    return (one vehicle)
  handle p (delete id) = do assert_owns_vehicle p id; remove e id; return []

  unfoldable pub call : ResolvedPrincipal → VehicleCall → Action (List ShownVehicle)
  unfolding handle can_activate
  call p c =
      throw_if (not (can_activate false (some (required_roles c)) (some p)))
        (forbidden access_denied)
      >> handle p c
