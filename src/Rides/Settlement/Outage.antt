-- ===== src/Rides/Settlement/Outage.antt =====
-- Completing a ride while Redis may reject a command: `completeRide` (src/rides/rides.service.ts).
use arkride_backend.Common.{
  ℕ, ◌≡◌, Bool, false, not, if◌then◌else◌, arith, ◌++◌, [], ◌∷◌, ◌⊎◌, Bool-cases, true, ◌||◌, inl,
  inr,
}
use arkride_backend.Platform.{ride_lock, active_ride, holder}
use arkride_backend.Entities.Rides.{Ride}
use arkride_backend.Rides.Settlement.{Settled, complete, complete_ride}
use arkride_backend.Rides.Settlement.Refusals.{complete-OnlyDb}
use arkride_backend.World.{
  Env, World, Action, return, thrown, throw_if, set_nx, del, release, emit, transaction,
  ride_completed, bad_request, ride_locked, redis_failed, ◌>>=◌, ◌>>◌, with_lock, Outcome-cases,
  returned, Error,
}

-- Which of the three commands are rejected: the one that takes the lock, the one that clears the
-- pointer after the commit, and the one in the `finally`.
pub record Outage : Type 0 where
  pub lock : Bool
  pub pointer : Bool
  pub unlock : Bool

abbrev pub no_outage : Outage
no_outage = record { lock = false; pointer = false; unlock = false }

module _ (e : Env) (o : Outage) where
  abbrev pub announce_over : ℕ → Settled → Action Ride
  announce_over driver_id s =
      if s.already_completed
      then return s.ride
      else (throw_if o.pointer redis_failed
          >> del e (active_ride driver_id)
          >> emit (ride_completed s.ride s.split)
          >> return s.ride)

  -- `finally { await redis.del(lockKey) }`: a rejection takes the place of what was thrown or returned.
  abbrev pub finally_unlock : {A : Type 0} → ℕ → Action A → Action A
  finally_unlock ride_id m w =
      let (r, v) = m w in
      if o.unlock then (thrown redis_failed, v) else (r, release e (ride_lock ride_id) v)

  unfoldable pub complete_ride_over : ℕ → ℕ → Action Ride
  complete_ride_over ride_id driver_id = do
    throw_if o.lock redis_failed
    won ← set_nx e (ride_lock ride_id) (holder driver_id) 10
    throw_if (not won) (bad_request ride_locked)
    finally_unlock ride_id (transaction (complete e ride_id driver_id) >>= announce_over driver_id)

module _ (e : Env) where
  -- Without an outage it is `complete_ride`.
  complete_ride_over-complete_ride :
      (i driver_id : ℕ) (w : World)
      → complete_ride_over e no_outage i driver_id w ≡ complete_ride e i driver_id w
  unfolding complete_ride_over complete_ride with_lock
  complete_ride_over-complete_ride i driver_id w = ground arith

  -- The state in which the transaction begins.
  abbrev pub locked_world : (ride_id driver_id : ℕ) → World → World
  locked_world ride_id driver_id w = record w {
    redis = (e.redis.set_nx (ride_lock ride_id) (holder driver_id) 10 w.redis).0;
  }

  -- The transaction has committed, one of the two deletions after it was rejected, and what was
  -- announced is what was reached.
  pub record IsCommitted (o : Outage) (i driver_id : ℕ) (w v : World) : Type 0 where
    pub settled : Settled
    pub commits :
        (transaction (complete e i driver_id) (locked_world i driver_id w)).0 ≡ returned settled
    pub tables : v.db ≡ (transaction (complete e i driver_id) (locked_world i driver_id w)).1.db
    pub rejected : (o.pointer || o.unlock) ≡ true
    pub told : v.events ≡ (
        if settled.already_completed || o.pointer
        then w.events
        else w.events ++ ride_completed settled.ride settled.split ∷ [])

  -- A completion that throws, wherever it throws and whichever commands Redis rejects, either has
  -- changed no table and announced nothing; or its transaction has committed whole, and Redis rejected
  -- one of the two deletions that follow. If that was the pointer's, the completion is not announced.
  pub complete_ride_over_atomic :
      (o : Outage) (i driver_id : ℕ) (w : World) {x : Error}
      → (complete_ride_over e o i driver_id w).0 ≡ thrown x
      → (((complete_ride_over e o i driver_id w).1.db ≡ w.db)
          × ((complete_ride_over e o i driver_id w).1.events ≡ w.events))
        ⊎ IsCommitted o i driver_id w (complete_ride_over e o i driver_id w).1
  unfolding complete_ride_over
  complete_ride_over_atomic o i driver_id w h =
      let only = complete-OnlyDb e i driver_id (locked_world i driver_id w) in
      elim (Outcome-cases (transaction (complete e i driver_id) (locked_world i driver_id w))) [
        | inr (y, v, ends) ↦ inl (ground (arith, ends), ground (arith, ends, only.events))
        | inl (s, v, ends) ↦
            elim (Bool-cases
              (o.lock || not (e.redis.set_nx (ride_lock i) (holder driver_id) 10 w.redis).1)) [
                | inl outside ↦ inl (ground arith, ground arith)
                | inr inside ↦ inr (record {
                  settled = s;
                  commits = ground (arith, ends);
                  tables = ground (arith, ends);
                  rejected = ground (arith, ends);
                  told = ground (arith, ends, only.events);
                })
              ]
      ]
