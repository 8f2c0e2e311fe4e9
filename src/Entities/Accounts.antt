-- ===== src/Entities/Accounts.antt =====
-- src/users/entities/user.entity.ts, src/drivers/entities/driver.entity.ts and
-- src/vehicles/entities/vehicle.entity.ts, less the relations and the dates of creation and update.
use arkride_backend.Common.{ℕ, Bool, true, false, Option, List}
use arkride_backend.Common.Int.{ℤ}
use arkride_backend.Common.Text.{Text}

-- src/common/enums/role.enum.ts
pub data Role : Type 0 where
  user driver admin : Role

abbrev pub same_role : Role → Role → Bool
same_role user user = true
same_role driver driver = true
same_role admin admin = true
same_role _ _ = false

-- The bytes of a one-time code.
abbrev pub Code : Type 0
Code = List ℕ

pub record User : Type 0 where
  pub id : ℕ
  pub name : Text
  pub email : Text
  pub phone : Option Text
  pub password : Option Text
  pub provider : Option Text
  pub provider_id : Option Text
  pub privy_did : Option Text
  pub wallet_address_evm : Option Text
  pub wallet_address_solana : Option Text
  pub wallet_address_tron : Option Text
  pub otp_code : Option Code
  pub otp_expiry : Option ℕ
  pub is_verified : Bool
  pub role : Role
  -- In hundredths, as `decimal(3,2)`.
  pub rating_average : ℕ
  pub total_rides : ℕ
  pub cashback_balance : ℤ
  pub is_blocked : Bool

pub data VerificationStatus : Type 0 where
  pending approved rejected : VerificationStatus

abbrev pub is_approved : VerificationStatus → Bool
is_approved approved = true
is_approved _ = false

pub record Driver : Type 0 where
  pub id : ℕ
  pub name : Text
  pub phone : Text
  pub email : Text
  pub password : Option Text
  pub license_number : Text
  pub license_expiry : ℕ
  pub role : Role
  pub verification_status : VerificationStatus
  pub is_online : Bool
  pub is_active : Bool
  pub rating_average : ℕ
  pub total_completed_rides : ℕ
  pub wallet_balance : ℤ
  pub privy_did : Option Text
  pub wallet_address_evm : Option Text
  pub otp_code : Option Code
  pub otp_expiry : Option ℕ

pub data VehicleType : Type 0 where
  keke bike car courier : VehicleType

pub record Vehicle : Type 0 where
  pub id : ℕ
  pub driver_id : ℕ
  pub type : VehicleType
  pub plate_number : Text
  pub color : Text
  pub model : Text
  pub year : ℕ
  pub is_active : Bool
