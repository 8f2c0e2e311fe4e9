-- ===== src/Vehicles/Plates.antt =====
-- Plate numbers: each stands for one vehicle, and the service says so before the database does.
pub mod Kept
use arkride_backend.Common.{
  ℕ, ◌≡◌, Bool, true, not, Option, some, none, Option-cases, Bool-cases, inl, inr, List, ◌==◌,
  arith, is_id, ◌&&◌,
}
use arkride_backend.Common.Text.{Text, is_blank}
use arkride_backend.Entities.Accounts.{Vehicle}
use arkride_backend.Vehicles.{clashes, value_of, has_null, unsent}
use arkride_backend.Vehicles.Endpoints.{VehicleCall, change}
use arkride_backend.World.{World, Env, Outcome, thrown, query_failed}

-- No two rows have the same plate number.
unfoldable pub HasUniquePlates : Env → List Vehicle → Type 0
HasUniquePlates e rows =
    (i j : ℕ) (u v : Vehicle)
    → e.vehicles.find_one i rows ≡ some u
    → e.vehicles.find_one j rows ≡ some v
    → u.plate_number ≡ v.plate_number
    → i ≡ j

-- The plate numbers are still unique, and the database refused nothing.
pub record IsFine (e : Env) {A : Type 0} (m : Outcome A × World) : Type 0 where
  pub unique : HasUniquePlates e m.1.db.vehicles
  pub accepted : ¬ (m.0 ≡ thrown query_failed)

-- A request that sends no null, and no empty plate number, which validation demands.
abbrev plate_given : Option Text → Bool
plate_given none = true
plate_given (some plate) = not (is_blank plate)

abbrev pub is_validated : VehicleCall → Bool
is_validated (change id dto) = plate_given (value_of dto.plate_number) && not (has_null dto)
is_validated _ = true

module _ (e : Env) where
  pub clashes-kept :
      (id : ℕ) (x v : Vehicle) (rows : List Vehicle)
      → HasUniquePlates e rows
      → e.vehicles.find_one id rows ≡ some v
      → x.id ≡ v.id
      → x.plate_number ≡ v.plate_number
      → e.vehicles.find_where (clashes x) rows ≡ none
  unfolding HasUniquePlates
  clashes-kept id x v rows unique found same plate =
      elim (Option-cases (e.vehicles.find_where (clashes x) rows)) [
        | inl free ↦ free
        | inr (z, clash) ↦
            let (clashing, stored) = e.vehicles.find_where_some (clashes x) rows z clash in
            let same_plate : v.plate_number ≡ z.plate_number = ground (arith, clashing) in
            absurd (
              ground (
                arith,
                clashing,
                unique id z.id v z found stored same_plate,
                e.vehicles.find_one_key id rows v found,
              ))
      ]

  pub clashes-free :
      (x : Vehicle) (rows : List Vehicle)
      → e.vehicles.find_where (λ v. v.plate_number == x.plate_number) rows ≡ none
      → e.vehicles.find_where (clashes x) rows ≡ none
  clashes-free x rows free = elim (Option-cases (e.vehicles.find_where (clashes x) rows)) [
    | inl missing ↦ missing
    | inr (z, clash) ↦
        let (clashing, stored) = e.vehicles.find_where_some (clashes x) rows z clash in
        absurd (
          ground (
            arith,
            clashing,
            e.vehicles.find_where_none (λ v. v.plate_number == x.plate_number) rows z.id z free
                stored,
          ))
  ]

  pub clashes-free_sent :
      (x : Vehicle) (sent : Option Text) (rows : List Vehicle)
      → e.vehicles.find_where (λ v. is_id sent v.plate_number) rows ≡ none
      → sent ≡ some x.plate_number
      → e.vehicles.find_where (clashes x) rows ≡ none
  clashes-free_sent x sent rows free same =
      elim (Option-cases (e.vehicles.find_where (clashes x) rows)) [
        | inl missing ↦ missing
        | inr (z, clash) ↦
            let (clashing, stored) = e.vehicles.find_where_some (clashes x) rows z clash in
            absurd (
              ground (
                arith,
                same,
                clashing,
                e.vehicles.find_where_none (λ v. is_id sent v.plate_number) rows z.id z free stored,
              ))
      ]

  clashes_lem :
      (x z : Vehicle) (i : ℕ) (rows : List Vehicle)
      → e.vehicles.find_where (clashes x) rows ≡ none
      → e.vehicles.find_one i rows ≡ some z
      → z.plate_number ≡ x.plate_number
      → i ≡ x.id
  clashes_lem x z i rows free found plate = ground (
    arith,
    e.vehicles.find_where_none (clashes x) rows i z free found,
    e.vehicles.find_one_key i rows z found,
  )

  pub save-HasUniquePlates :
      (x : Vehicle) (rows : List Vehicle)
      → HasUniquePlates e rows
      → e.vehicles.find_where (clashes x) rows ≡ none
      → HasUniquePlates e (e.vehicles.save x rows)
  unfolding HasUniquePlates
  save-HasUniquePlates x rows unique free i j u v found_i found_j same =
      elim (Bool-cases (x.id == i)) [
        | inl is_i ↦ elim (Bool-cases (x.id == j)) [
          | inl is_j ↦ ground arith
          | inr not_j ↦
              let stored : e.vehicles.find_one j rows ≡ some v =
                ground (arith, e.vehicles.find_one_save j x rows) in
              ground (
                arith,
                clashes_lem x v j rows free stored
                    (ground (arith, e.vehicles.find_one_save i x rows)),
              )
        ]
        | inr not_i ↦
            let stored_i : e.vehicles.find_one i rows ≡ some u =
              ground (arith, e.vehicles.find_one_save i x rows) in
            elim (Bool-cases (x.id == j)) [
              | inl is_j ↦ ground (
                arith,
                clashes_lem x u i rows free stored_i
                    (ground (arith, e.vehicles.find_one_save j x rows)),
              )
              | inr not_j ↦
                  unique i j u v stored_i (ground (arith, e.vehicles.find_one_save j x rows)) same
            ]
      ]

  pub remove-HasUniquePlates :
      (x : Vehicle) (rows : List Vehicle)
      → HasUniquePlates e rows
      → HasUniquePlates e (e.vehicles.remove x rows)
  unfolding HasUniquePlates
  remove-HasUniquePlates x rows unique i j u v found_i found_j same =
      unique i j u v (ground (arith, e.vehicles.find_one_remove i x rows))
        (ground (arith, e.vehicles.find_one_remove j x rows)) same
