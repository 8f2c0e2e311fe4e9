-- ===== src/Platform/Cache.antt =====
-- The keys of src/redis/redis.constants.ts that the services lock and mark, and the Redis commands.
use arkride_backend.Common.{
  ℕ, ◌≡◌, Bool, true, false, ◌&&◌, not, Option, none, some, is_some, if◌then◌else◌, ◌==◌, arith,
}

-- The source builds a key as a text from its prefix and its parts; the parts hold no colon.
-- Coordinates are only compared.
pub data RedisKey : Type 0 where
  ride_lock : ℕ → RedisKey
  ride_idempotency : ℕ → ℕ → ℕ → RedisKey
  active_ride : ℕ → RedisKey
  fuel_lock : ℕ → RedisKey
  payout_lock : ℕ → RedisKey
  driver_active : ℕ → RedisKey

pub data RedisValue : Type 0 where
  locked one active : RedisValue
  holder : ℕ → RedisValue

abbrev pub Contents : Type 0
Contents = RedisKey → Option RedisValue

abbrev pub same_key : RedisKey → RedisKey → Bool
same_key (ride_lock a) (ride_lock b) = a == b
same_key (ride_idempotency u a b) (ride_idempotency v c d) = u == v && (a == c && b == d)
same_key (active_ride a) (active_ride b) = a == b
same_key (fuel_lock a) (fuel_lock b) = a == b
same_key (payout_lock a) (payout_lock b) = a == b
same_key (driver_active a) (driver_active b) = a == b
same_key _ _ = false

pub same_key_refl : (k : RedisKey) → same_key k k ≡ true
same_key_refl (ride_lock a) = ground arith
same_key_refl (ride_idempotency u a b) = ground arith
same_key_refl (active_ride a) = ground arith
same_key_refl (fuel_lock a) = ground arith
same_key_refl (payout_lock a) = ground arith
same_key_refl (driver_active a) = ground arith

-- The geospatial set `driver:locations:geo`: where each driver was last seen.
pub record Position : Type 0 where
  pub latitude : ℕ
  pub longitude : ℕ

abbrev pub Positions : Type 0
Positions = ℕ → Option Position

-- Commands that Redis runs one at a time. A key whose time is over is one that Redis does not hold.
pub record Redis : Type 0 where
  -- `SET key value EX seconds NX`: the new contents, and whether the key was set.
  pub set_nx : RedisKey → RedisValue → ℕ → Contents → Contents × Bool
  -- `SET key value EX seconds`
  pub set : RedisKey → RedisValue → ℕ → Contents → Contents
  pub del : RedisKey → Contents → Contents
  -- `GEOADD`, `ZREM`
  pub geoadd : ℕ → Position → Positions → Positions
  pub zrem : ℕ → Positions → Positions
  pub geoadd_get :
      (d : ℕ) (p : Position) (c : Positions) (j : ℕ)
      → geoadd d p c j ≡ (if j == d then some p else c j)
  pub zrem_get : (d : ℕ) (c : Positions) (j : ℕ) → zrem d c j ≡ (if j == d then none else c j)
  pub set_nx_won :
      (k : RedisKey) (v : RedisValue) (s : ℕ) (c : Contents)
      → (set_nx k v s c).1 ≡ not (is_some (c k))
  pub set_nx_get :
      (k : RedisKey) (v : RedisValue) (s : ℕ) (c : Contents) (j : RedisKey)
      → (set_nx k v s c).0 j ≡ (if same_key j k && not (is_some (c k)) then some v else c j)
  pub set_get :
      (k : RedisKey) (v : RedisValue) (s : ℕ) (c : Contents) (j : RedisKey)
      → set k v s c j ≡ (if same_key j k then some v else c j)
  pub del_get :
      (k : RedisKey) (c : Contents) (j : RedisKey)
      → del k c j ≡ (if same_key j k then none else c j)
