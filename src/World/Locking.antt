-- ===== src/World/Locking.antt =====
-- What the Redis lock around a handler does.
use arkride_backend.Common.{ap, refl, ◌∙◌, ℕ, ◌≡◌, some, none, arith}
use arkride_backend.Platform.{RedisKey, RedisValue, same_key_refl}
use arkride_backend.World.State.{World, Env}
use arkride_backend.World.Monad.{
  Action, Outcome, thrown, Reason, bad_request, finally, release, with_lock,
}

module _ (e : Env) {A : Type 0} (k : RedisKey) (v : RedisValue) (s : ℕ) (x : Reason) (m : Action A)
    (w : World) where
  pub with_lock_taken :
      {u : RedisValue}
      → w.redis k ≡ some u
      → ((with_lock e k v s x m w).0 ≡ thrown (bad_request x))
        × ((with_lock e k v s x m w).1.db ≡ w.db)
        × ((with_lock e k v s x m w).1.events ≡ w.events)
  unfolding with_lock
  with_lock_taken h = ground (arith, e.redis.set_nx_won k v s w.redis)

  pub with_lock_kept :
      {u : RedisValue} (j : RedisKey)
      → w.redis k ≡ some u
      → (with_lock e k v s x m w).1.redis j ≡ w.redis j
  unfolding with_lock
  with_lock_kept j h =
      ground (arith, e.redis.set_nx_won k v s w.redis, e.redis.set_nx_get k v s w.redis j)

  pub with_lock_open :
      w.redis k ≡ none
      → with_lock e k v s x m w
        ≡ finally m (release e k) (record w { redis = (e.redis.set_nx k v s w.redis).0 })
  unfolding with_lock
  with_lock_open h = ground (arith, e.redis.set_nx_won k v s w.redis)

  pub finally_released : (u : World) → (finally m (release e k) u).1.redis k ≡ none
  finally_released u = rw (e.redis.del_get k (m u).1.redis k, same_key_refl k) refl

  pub with_lock_released : w.redis k ≡ none → (with_lock e k v s x m w).1.redis k ≡ none
  with_lock_released h =
      ap (λ (r : Outcome A × World). r.1.redis k) (with_lock_open h) ∙ finally_released _
