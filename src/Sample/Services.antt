-- ===== src/Sample/Services.antt =====
-- Redis as a function, and an environment with a bank that declines and a gateway that pays.
use arkride_backend.Common.{
  refl, Bool, true, false, not, Option, some, none, is_some, if◌then◌else◌, ◌&&◌,
}
use arkride_backend.Common.Int.{pos}
use arkride_backend.Money.{to_kobo}
use arkride_backend.Money.Rounding.{to_kobo-to_naira}
use arkride_backend.Platform.{RedisKey, RedisValue, Contents, same_key, Redis}
use arkride_backend.Entities.Rides.{Ride}
use arkride_backend.Entities.Accounts.{User, Driver, Vehicle}
use arkride_backend.Entities.LedgerEntries.{LedgerEntry}
use arkride_backend.Common.{◌==◌}
use arkride_backend.Entities.Safety.{Rating, EmergencyIncident}
use arkride_backend.World.{Env, FuelSupportResult, PayoutResult, PayoutStatus}
use arkride_backend.Sample.Table.{list_repository}

abbrev pub put : RedisKey → Option RedisValue → Contents → Contents
put k v c j = if same_key j k then v else c j

abbrev pub put_nx : RedisKey → RedisValue → Contents → Contents × Bool
put_nx k v c =
    ((λ j. if same_key j k && not (is_some (c k)) then some v else c j), not (is_some (c k)))

abbrev pub function_redis : Redis
function_redis = record {
  set_nx = λ k v s c. put_nx k v c;
  set = λ k v s c. put k (some v) c;
  del = λ k c. put k none c;
  set_nx_won = λ k v s c. refl;
  set_nx_get = λ k v s c j. refl;
  set_get = λ k v s c j. refl;
  del_get = λ k c j. refl;
  geoadd = λ d p c j. if j == d then some p else c j;
  zrem = λ d c j. if j == d then none else c j;
  geoadd_get = λ d p c j. refl;
  zrem_get = λ d c j. refl;
}

abbrev pub declined : FuelSupportResult
declined = record { success = false; provider_reference = none }

abbrev pub paid_out : PayoutResult
paid_out = record {
  success = true;
  provider_reference = some "LP-1";
  status = PayoutStatus.completed;
}

-- Three kilometres between any two places, a daily limit of 5000 naira, and one endless day.
abbrev pub sample : Env
sample = record {
  users = list_repository User.id;
  drivers = list_repository Driver.id;
  vehicles = list_repository Vehicle.id;
  rides = list_repository Ride.id;
  ledger = list_repository LedgerEntry.id;
  ratings = list_repository Rating.id;
  incidents = list_repository EmergencyIncident.id;
  redis = function_redis;
  queue_accepts = λ job w. false;
  distance = λ a b. 300;
  daily_fuel_limit = pos 5000000;
  random_uuid = λ t. 7;
  disburse = λ q. some declined;
  initiate_payout = λ q. some paid_out;
  column = to_kobo;
  column_exact = to_kobo-to_naira;
  day_start = λ t. 0;
  day_end = λ t. t;
}
