-- ===== src/Sample/Privy.antt =====
-- A Privy whose texts are already trimmed and in lower case, and what it attests of the rider.
use arkride_backend.Common.{true, some, none}
use arkride_backend.Auth.Privy.Claims.{Privy, PrivyIdentity}
use arkride_backend.Drivers.Registration.{CreateDriverDto}
use arkride_backend.Entities.Accounts.{keke}
use arkride_backend.Vehicles.{UpdateVehicleDto, sent, unsent}
use arkride_backend.Users.Bootstrap.{TextFunctions}
use arkride_backend.Common.{[], ◌∷◌}

abbrev pub privy : Privy
privy = record {
  app_id = some 601;
  verification_key = some 602;
  verify_access = λ token app_id key. some token;
  verify_identity = λ token app_id key. none;
  parse = λ t. none;
  has_at = λ t. true;
  is_evm_address = λ t. true;
  is_ethereum = λ t. true;
  is_privy_client = λ t. true;
  lower = λ t. t;
  trim = λ t. t;
  placeholder = λ did. did;
  ark_rider = 603;
}

abbrev pub attested : PrivyIdentity
attested = record { wallet = none; email = some 101 }

abbrev pub attested_newcomer : PrivyIdentity
attested_newcomer = record { wallet = none; email = some 103 }

abbrev pub new_keke_driver : CreateDriverDto
new_keke_driver = record {
  name = 14;
  phone = 204;
  email = 104;
  password = 304;
  license_number = 404;
  license_expiry = 900;
  vehicle_type = keke;
  plate_number = 504;
  vehicle_color = 1;
  vehicle_model = 1;
  vehicle_year = 2020;
}

-- A change of the plate number.
abbrev pub replated : UpdateVehicleDto
replated = record {
  type = unsent;
  plate_number = sent 509;
  color = unsent;
  model = unsent;
  year = unsent;
  is_active = unsent;
}

-- A variable that holds one address.
abbrev pub texts : TextFunctions
texts = record { split_commas = λ t. t ∷ []; trim = λ t. t; lower = λ t. t; has_at = λ t. true }
