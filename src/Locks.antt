-- ===== src/Locks.antt =====
-- The four handlers that hold a Redis lock while they work.
use arkride_backend.Common.{ℕ, ◌≡◌, some, none}
use arkride_backend.Money.{Naira}
use arkride_backend.Platform.{RedisKey, RedisValue, ride_lock, fuel_lock, payout_lock, one, holder}
use arkride_backend.Rides.Trip.{accept_ride}
use arkride_backend.Rides.Settlement.{complete_ride}
use arkride_backend.Wallet.{request_fuel_support, request_payout}
use arkride_backend.World.Locking.{with_lock_taken, with_lock_kept, with_lock_released}
use arkride_backend.World.{Env, World, thrown, bad_request, ride_locked, wallet_locked}

pub data Handler : Type 0 where
  accept : (ride_id driver_id vehicle_id : ℕ) → Handler
  complete : (ride_id driver_id : ℕ) → Handler
  fuel payout : (driver_id : ℕ) → Naira → Handler

abbrev pub lock_of : Handler → RedisKey
lock_of (accept r d v) = ride_lock r
lock_of (complete r d) = ride_lock r
lock_of (fuel d x) = fuel_lock d
lock_of (payout d x) = payout_lock d

-- The state after a handler, and its refusal.
unfoldable pub after : Env → Handler → World → World
after e (accept r d v) w = (accept_ride e r d v w).1
after e (complete r d) w = (complete_ride e r d w).1
after e (fuel d x) w = (request_fuel_support e d x w).1
after e (payout d x) w = (request_payout e d x w).1

abbrev pub Refuses : Env → Handler → World → Type 0
Refuses e (accept r d v) w = (accept_ride e r d v w).0 ≡ thrown (bad_request ride_locked)
Refuses e (complete r d) w = (complete_ride e r d w).0 ≡ thrown (bad_request ride_locked)
Refuses e (fuel d x) w = (request_fuel_support e d x w).0 ≡ thrown (bad_request wallet_locked)
Refuses e (payout d x) w = (request_payout e d x w).0 ≡ thrown (bad_request wallet_locked)

-- A handler whose lock is taken refuses; it changes no table, sends no event and leaves every key of
-- Redis, so the lock's owner keeps it.
pub locked_out :
    (e : Env) (h : Handler) (w : World) (j : RedisKey) {u : RedisValue}
    → w.redis (lock_of h) ≡ some u
    → Refuses e h w
      × ((after e h w).db ≡ w.db)
      × ((after e h w).events ≡ w.events)
      × ((after e h w).redis j ≡ w.redis j)
unfolding after accept_ride complete_ride request_fuel_support request_payout
locked_out e (accept r d v) w j h =
    let t = with_lock_taken e (ride_lock r) (holder d) 10 ride_locked _ w h in
    (t.0, t.1, t.2, with_lock_kept e (ride_lock r) (holder d) 10 ride_locked _ w j h)
locked_out e (complete r d) w j h =
    let t = with_lock_taken e (ride_lock r) (holder d) 10 ride_locked _ w h in
    (t.0, t.1, t.2, with_lock_kept e (ride_lock r) (holder d) 10 ride_locked _ w j h)
locked_out e (fuel d x) w j h =
    let t = with_lock_taken e (fuel_lock d) one 15 wallet_locked _ w h in
    (t.0, t.1, t.2, with_lock_kept e (fuel_lock d) one 15 wallet_locked _ w j h)
locked_out e (payout d x) w j h =
    let t = with_lock_taken e (payout_lock d) one 15 wallet_locked _ w h in
    (t.0, t.1, t.2, with_lock_kept e (payout_lock d) one 15 wallet_locked _ w j h)

-- A handler that takes the lock gives it back, whether it returns or throws.
pub lock_released :
    (e : Env) (h : Handler) (w : World)
    → w.redis (lock_of h) ≡ none
    → (after e h w).redis (lock_of h) ≡ none
unfolding after accept_ride complete_ride request_fuel_support request_payout
lock_released e (accept r d v) w h =
    with_lock_released e (ride_lock r) (holder d) 10 ride_locked _ w h
lock_released e (complete r d) w h =
    with_lock_released e (ride_lock r) (holder d) 10 ride_locked _ w h
lock_released e (fuel d x) w h = with_lock_released e (fuel_lock d) one 15 wallet_locked _ w h
lock_released e (payout d x) w h = with_lock_released e (payout_lock d) one 15 wallet_locked _ w h
