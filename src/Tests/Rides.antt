-- ===== src/Tests/Rides.antt =====
-- Histories of requests, and two accepts at once.
use arkride_backend.Rides.Endpoints as Endpoints
use arkride_backend.Common.{refl, arith, ◌≤◌}
use arkride_backend.Rides.Workload.{IsFair}
use arkride_backend.Rides.Trip.{check_accept, check_limits}
use arkride_backend.Rides.Requests.{accept, arrive, serve, request, Reach, here, next}
use arkride_backend.Rides.Requests.History.{Reach-IsFair, EndsAs, Reach-EndsAs}
use arkride_backend.Rides.Requests.Race.{accept_race, accept_race-unfair}
use arkride_backend.Auth.Sessions.{ResolvedPrincipal}
use arkride_backend.Rides.Endpoints.{call}
use arkride_backend.Rides.Endpoints.Contract.{Moves}
use arkride_backend.Rides.Endpoints.Refinement.{call-Moves}
use arkride_backend.Rides.Requests.Ending.{changes, Reach-changes}
use arkride_backend.World.{World}
use arkride_backend.Entities.Accounts.{Role}
use arkride_backend.Sample.Data.{private_request, shared_request, idle}
use arkride_backend.Sample.Services.{sample}

abbrev taken : World
taken = serve sample (accept 5 2 3) idle

abbrev there : World
there = serve sample (arrive 5 2) taken

abbrev history : Reach sample idle there
history = next (next here (request (accept 5 2 3))) (request (arrive 5 2))

Reach-IsFair_example : IsFair sample 2 there.db.rides
Reach-IsFair_example =
    Reach-IsFair {e = sample} {w = idle} {v = there} 2
      (record { within = omega arith; alone = λ h. omega arith }) history

Reach-EndsAs_example : EndsAs private_request (sample.rides.find_one 5 there.db.rides)
Reach-EndsAs_example =
    Reach-EndsAs {e = sample} {w = idle} {v = there} 5 private_request refl history

accept_race-unfair_example : ¬ IsFair sample 2 (accept_race sample 2 5 6 3 3 idle).1.db.rides
unfolding check_accept check_limits
accept_race-unfair_example =
    accept_race-unfair sample 2 5 6 3 3 private_request shared_request idle refl refl refl refl
      (omega arith) refl

-- The driver of the sample asks for the private ride.
abbrev chauffeur_principal : ResolvedPrincipal
chauffeur_principal = record { id = 2; role = Role.driver; name = 12; email = 102 }

call-Moves_example : Moves chauffeur_principal private_request (
    sample.rides.find_one 5
      (call sample chauffeur_principal (Endpoints.accept 5 3) idle).1.db.rides)
call-Moves_example =
    call-Moves sample chauffeur_principal 5 private_request (Endpoints.accept 5 3) idle refl

Reach-changes_example : changes sample 5 history ≤ 4
Reach-changes_example = Reach-changes sample 5 {w = idle} {v = there} private_request refl history
