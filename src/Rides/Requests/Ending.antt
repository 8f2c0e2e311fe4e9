-- ===== src/Rides/Requests/Ending.antt =====
-- A ride comes to an end: its status changes a bounded number of times.
use arkride_backend.Common.{
  ℕ, ◌+◌, ◌≤◌, ◌≡◌, Bool, true, false, not, Option, some, none, bit, arith,
}
use arkride_backend.Entities.Rides.{
  Ride, RideStatus, requested, accepted, arrived, in_progress, completed, cancelled, same_status,
}
use arkride_backend.Rides.Lifecycle.{may_follow, Follows}
use arkride_backend.Rides.Requests.{Reach, here, next, Step, request, elsewhere}
use arkride_backend.Rides.Requests.History.{serve-Follows, Reach-EndsAs, EndsAs-inv}
use arkride_backend.World.{World, Env}

-- How far a status is from the start; the two last ones are the end.
abbrev pub rank : RideStatus → ℕ
rank requested = 0
rank accepted = 1
rank arrived = 2
rank in_progress = 3
rank completed = 4
rank cancelled = 4

abbrev pub rank_of : Option Ride → ℕ
rank_of none = 0
rank_of (some r) = rank r.status

abbrev pub has_changed : Option Ride → Option Ride → Bool
has_changed (some a) (some b) = not (same_status a.status b.status)
has_changed _ _ = false

may_follow-rank :
    (s t : RideStatus) → may_follow s t ≡ true → bit (not (same_status s t)) + rank s ≤ rank t
may_follow-rank s t h = ground arith

rank_bound : (o : Option Ride) → rank_of o ≤ 4
rank_bound none = omega arith
rank_bound (some r) = ground arith

module _ (e : Env) (i : ℕ) where
  -- The steps of a history after which the ride has another status than before.
  unfoldable pub changes : {w v : World} → Reach e w v → ℕ
  changes here = 0
  changes (next {u = u} {v = v} before step) =
      changes before
      + bit (has_changed (e.rides.find_one i u.db.rides) (e.rides.find_one i v.db.rides))

  Follows-rank :
      (mid : Ride) (o : Option Ride)
      → Follows mid o
      → bit (has_changed (some mid) o) + rank mid.status ≤ rank_of o
  Follows-rank mid none h = absurd h
  Follows-rank mid (some new) h = may_follow-rank mid.status new.status h.status

  unchanged : (r : Ride) → bit (has_changed (some r) (some r)) + rank r.status ≤ rank r.status
  unchanged r = ground arith

  Step-rank :
      {w v : World} (mid : Ride)
      → Step e w v
      → e.rides.find_one i w.db.rides ≡ some mid
      → bit (has_changed (e.rides.find_one i w.db.rides) (e.rides.find_one i v.db.rides))
          + rank_of (e.rides.find_one i w.db.rides)
        ≤ rank_of (e.rides.find_one i v.db.rides)
  Step-rank {w} mid (request q) found =
      rw found (Follows-rank mid _ (serve-Follows e q w i mid found))
  Step-rank mid (elsewhere same) found = rw (same, found) (unchanged mid)

  Reach-rank :
      {w v : World} (old : Ride)
      → e.rides.find_one i w.db.rides ≡ some old
      → (before : Reach e w v)
      → changes before + rank old.status ≤ rank_of (e.rides.find_one i v.db.rides)
  unfolding changes
  Reach-rank old found here = rw found (omega arith)
  Reach-rank old found (next {u = u} before step) =
      let (mid, found_mid, h) =
        EndsAs-inv old (e.rides.find_one i u.db.rides) (Reach-EndsAs i old found before) in
      omega (arith, Step-rank mid step found_mid, Reach-rank old found before)

  -- However long a history of ride requests and of steps that leave the rides alone, whatever is asked
  -- and however it ends: the status of one stored ride changes at most four times in it.
  pub Reach-changes :
      {w v : World} (old : Ride)
      → e.rides.find_one i w.db.rides ≡ some old
      → (before : Reach e w v) → changes before ≤ 4
  Reach-changes {w} {v} old found before =
      omega (arith, Reach-rank old found before, rank_bound (e.rides.find_one i v.db.rides))
