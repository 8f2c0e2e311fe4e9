-- ===== src/Tests/Settlement.antt =====
-- A completed ride, a completion that fails, and one that is repeated.
use arkride_backend.Common.{◌≡◌, refl, ◌⊎◌, true, false}
use arkride_backend.Rides.Settlement.{complete_ride, completed_ride, complete, settle}
use arkride_backend.Rides.Settlement.Payment.{IsPaid, complete_ride-IsPaid}
use arkride_backend.Rides.Settlement.Refusals.{complete_ride_again}
use arkride_backend.Rides.Settlement.Outage.{
  Outage, complete_ride_over, IsCommitted, complete_ride_over_atomic,
}
use arkride_backend.Ledger.{write_entries, write_entry}
use arkride_backend.World.{returned, redis_failed}
use arkride_backend.Common.{false}
use arkride_backend.Rides.Breakdown.{get_fare_breakdown, projected_breakdown}
use arkride_backend.Rides.Breakdown.Agreement.{as_settled, complete_ride-breakdown}
use arkride_backend.Sample.Data.{running, finished, chauffeur, rider, driving, idle}
use arkride_backend.Sample.Services.{sample}

complete_ride-IsPaid_example :
    ((complete_ride sample 7 2 driving).0 ≡ returned (completed_ride running driving))
    × IsPaid sample 7 2 running
        (completed_ride running driving)
        chauffeur
        rider
        driving.db
        (complete_ride sample 7 2 driving).1.db
complete_ride-IsPaid_example =
    complete_ride-IsPaid sample 7 2 running chauffeur rider driving refl refl refl refl refl refl
      refl refl refl

-- Redis rejects the deletion of the pointer after the commit.
abbrev unreachable : Outage
unreachable = record { lock = false; pointer = true; unlock = false }

complete_ride_over_atomic_example :
    (((complete_ride_over sample unreachable 7 2 driving).1.db ≡ driving.db)
      × ((complete_ride_over sample unreachable 7 2 driving).1.events ≡ driving.events))
    ⊎ IsCommitted sample unreachable 7 2 driving
        (complete_ride_over sample unreachable 7 2 driving).1
unfolding complete_ride_over complete settle write_entries write_entry
complete_ride_over_atomic_example =
    complete_ride_over_atomic sample unreachable 7 2 driving {x = redis_failed} refl

complete_ride_again_example :
    ((complete_ride sample 8 2 idle).0 ≡ returned finished)
    × ((complete_ride sample 8 2 idle).1.db ≡ idle.db)
    × ((complete_ride sample 8 2 idle).1.events ≡ idle.events)
complete_ride_again_example = complete_ride_again sample 8 2 finished idle refl refl refl refl

-- The rider looks at the fare before and after.
complete_ride-breakdown_example :
    ((get_fare_breakdown sample 7 1 false driving).0 ≡ returned (projected_breakdown running))
    × ((get_fare_breakdown sample 7 1 false (complete_ride sample 7 2 driving).1).0
        ≡ returned (as_settled (projected_breakdown running)))
complete_ride-breakdown_example =
    complete_ride-breakdown sample 7 2 1 false running chauffeur rider driving refl refl refl refl
      refl refl refl refl refl refl refl
