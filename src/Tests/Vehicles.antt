-- ===== src/Tests/Vehicles.antt =====
-- Vehicles at concrete inputs.
use arkride_backend.Common.{refl}
use arkride_backend.Auth.Sessions.{ResolvedPrincipal}
use arkride_backend.Entities.Accounts.{Role}
use arkride_backend.Sample.Data.{idle}
use arkride_backend.Sample.Privy.{replated}
use arkride_backend.Sample.Services.{sample}
use arkride_backend.Vehicles.Endpoints.{change, call}
use arkride_backend.Vehicles.Own.{StaysOrOwn, call-StaysOrOwn}

abbrev keke_driver : ResolvedPrincipal
keke_driver = record { id = 2; role = Role.driver; name = 12; email = 102 }

call-StaysOrOwn_example :
    StaysOrOwn sample 2 idle.db.vehicles
      (call sample keke_driver (change 3 replated) idle).1.db.vehicles
call-StaysOrOwn_example = call-StaysOrOwn sample keke_driver refl (change 3 replated) idle
