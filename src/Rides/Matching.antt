-- ===== src/Rides/Matching.antt =====
-- Which vehicle serves which category (src/rides/utils/category-matching.util.ts).
pub mod Allowed
use arkride_backend.Common.{ℕ, Bool, true, false, List, [], ◌∷◌, any, keep}
use arkride_backend.Entities.Rides.{RideCategory, private, shared, okada, car}
use arkride_backend.Entities.Accounts.{VehicleType}

unfoldable pub ride_category_vehicle_type : RideCategory → VehicleType
ride_category_vehicle_type private = VehicleType.keke
ride_category_vehicle_type shared = VehicleType.keke
ride_category_vehicle_type okada = VehicleType.bike
ride_category_vehicle_type car = VehicleType.car

abbrev pub same_category : RideCategory → RideCategory → Bool
same_category private private = true
same_category shared shared = true
same_category okada okada = true
same_category car car = true
same_category _ _ = false

abbrev pub same_vehicle_type : VehicleType → VehicleType → Bool
same_vehicle_type VehicleType.keke VehicleType.keke = true
same_vehicle_type VehicleType.bike VehicleType.bike = true
same_vehicle_type VehicleType.car VehicleType.car = true
same_vehicle_type VehicleType.courier VehicleType.courier = true
same_vehicle_type _ _ = false

abbrev pub exclusive_categories : List RideCategory
exclusive_categories = private ∷ okada ∷ car ∷ []

abbrev pub max_active_shared_rides : ℕ
max_active_shared_rides = 4

unfoldable pub vehicle_type_matches_category : VehicleType → RideCategory → Bool
unfolding ride_category_vehicle_type
vehicle_type_matches_category vehicle category =
    same_vehicle_type (ride_category_vehicle_type category) vehicle

unfoldable pub is_exclusive_category : RideCategory → Bool
is_exclusive_category category = any (same_category category) exclusive_categories

abbrev pub ride_categories : List RideCategory
ride_categories = private ∷ shared ∷ okada ∷ car ∷ []

unfoldable pub get_allowed_categories_for_vehicle_types : List VehicleType → List RideCategory
unfolding ride_category_vehicle_type
get_allowed_categories_for_vehicle_types owned =
    keep (λ c. any (same_vehicle_type (ride_category_vehicle_type c)) owned) ride_categories
