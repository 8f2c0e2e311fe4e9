-- ===== src/Rides/Matching/Allowed.antt =====
-- The list of categories that a driver may take, and the test that is made of one ride.
use arkride_backend.Common.{◌≡◌, any, List, arith}
use arkride_backend.Entities.Rides.{RideCategory, private, shared, okada, car}
use arkride_backend.Entities.Accounts.{VehicleType}
use arkride_backend.Rides.Matching.{
  same_category, ride_category_vehicle_type, vehicle_type_matches_category,
  get_allowed_categories_for_vehicle_types,
}

-- A category is in the list for some vehicles exactly when one of them matches it.
pub allowed_categories_lem :
    (owned : List VehicleType) (c : RideCategory)
    → any (same_category c) (get_allowed_categories_for_vehicle_types owned)
      ≡ any (λ v. vehicle_type_matches_category v c) owned
unfolding get_allowed_categories_for_vehicle_types vehicle_type_matches_category
    ride_category_vehicle_type
allowed_categories_lem owned private = ground arith
allowed_categories_lem owned shared = ground arith
allowed_categories_lem owned okada = ground arith
allowed_categories_lem owned car = ground arith
