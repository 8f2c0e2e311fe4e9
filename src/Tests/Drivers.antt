-- ===== src/Tests/Drivers.antt =====
-- Driver accounts at concrete inputs.
use arkride_backend.Common.{◌≡◌, ◌≤◌, ◌<◌, ◌↔◌, refl, some, true, false, [], length, arith}
use arkride_backend.Drivers.Password.{reset_password}
use arkride_backend.Drivers.Password.Reset.{HasUniqueEmails, reset_password_iff}
use arkride_backend.Drivers.Requests.{here, next, request, serve, go, activate}
use arkride_backend.Drivers.Requests.History.{Reach-AreDispatchable}
use arkride_backend.Drivers.Standing.{update_active_status, remove}
use arkride_backend.Drivers.Standing.Deletion.{deleted_driver_strands, without_driver}
use arkride_backend.Drivers.Standing.Dispatch.{AreDispatchable, AreDispatchable-save}
use arkride_backend.Drivers.Standing.Suspension.{IsOffDuty, IsRefused, suspended-IsOffDuty}
use arkride_backend.Rides.Requests as Rides
use arkride_backend.Sample.Accounts.{code, forgetful, resetting}
use arkride_backend.Sample.Data.{chauffeur, idle, driving, running}
use arkride_backend.Sample.Secrets.{secrets}
use arkride_backend.Sample.Services.{sample}
use arkride_backend.Sample.Tokens.{tokens}
use arkride_backend.Auth.Tokens.{revoke_all_for_subject}
use arkride_backend.World.{World, returned}

none-AreDispatchable : AreDispatchable sample []
unfolding AreDispatchable
none-AreDispatchable i d found online = absurd (ground arith)

chauffeur-AreDispatchable : AreDispatchable sample idle.db.drivers
chauffeur-AreDispatchable = AreDispatchable-save sample chauffeur [] refl none-AreDispatchable

abbrev suspended : World
suspended = serve sample tokens secrets (λ rows. 500) (activate 2 false) idle

abbrev went_online : World
went_online = serve sample tokens secrets (λ rows. 500) (go 2 true) suspended

Reach-AreDispatchable_example : AreDispatchable sample went_online.db.drivers
Reach-AreDispatchable_example =
    Reach-AreDispatchable sample tokens secrets (λ rows. 500)
      (next (next here (request (activate 2 false))) (request (go 2 true)))
      chauffeur-AreDispatchable

suspended-IsOffDuty_example :
    IsOffDuty sample 2 (update_active_status sample tokens 2 false idle).1
    × IsRefused sample 2 (update_active_status sample tokens 2 false idle).1
unfolding update_active_status revoke_all_for_subject
suspended-IsOffDuty_example =
    suspended-IsOffDuty sample tokens 2 _ idle (update_active_status sample tokens 2 false idle).1
      refl

deleted_driver_strands_example :
    sample.rides.find_one 7
      (Rides.serve sample (Rides.complete 7 2) (remove sample tokens 2 driving).1).db.rides
    ≡ some (without_driver sample tokens 2 driving running)
unfolding remove revoke_all_for_subject
deleted_driver_strands_example =
    deleted_driver_strands sample tokens 2 7 running driving _ refl refl refl refl
      (Rides.next Rides.here (Rides.request (Rides.complete 7 2)))

forgetful-HasUniqueEmails : HasUniqueEmails sample resetting.db.drivers
unfolding HasUniqueEmails
forgetful-HasUniqueEmails i j c d found_i found_j same = ground (
  arith,
  sample.drivers.find_one_key i resetting.db.drivers c found_i,
  sample.drivers.find_one_key j resetting.db.drivers d found_j,
)

reset_password_iff_example :
    ((reset_password sample secrets 102 code 400 resetting).0 ≡ returned tt)
    ↔ ((code ≡ code) × ((0 < length code) × (50 ≤ 60)))
reset_password_iff_example =
    reset_password_iff sample secrets 102 code code 60 400 forgetful resetting refl refl refl
      (omega arith)
