-- ===== src/World/Monad.antt =====
-- An async method: it reads and writes the state, and returns or throws. What was written before a
-- throw stays written, unless a database transaction is rolled back.
use arkride_backend.Common.{
  not, ◌≡◌, refl, ◌⊎◌, inl, inr, ℕ, Bool, true, false, Option, none, some, ◌++◌, [], ◌∷◌,
}
use arkride_backend.Platform.{RedisKey, RedisValue}
use arkride_backend.World.State.{World, Db, Event, Env}

-- Why a service refused.
pub data Reason : Type 0 where
  similar_request_in_progress user_not_found account_blocked : Reason
  ride_locked ride_not_found ride_already_taken driver_invalid_or_offline vehicle_invalid : Reason
  wrong_vehicle_type on_exclusive_ride no_other_rides_allowed shared_limit_reached : Reason
  access_denied invalid_state already_completed cancel_denied not_a_party driver_not_found : Reason
  email_taken phone_taken license_taken plate_taken license_expired vehicle_not_found : Reason
  not_approved suspended driver_inactive mail_failed invalid_otp otp_expired no_otp : Reason
  terms_not_accepted passwords_differ already_verified social_account : Reason
  driver_offline location_not_found incident_not_found : Reason
  not_completed no_counterparty wrong_ratee already_rated : Reason
  already_linked driver_not_registered names_other_owner owner_not_named caller_unknown : Reason
  wallet_locked fuel_limit_exceeded fuel_declined insufficient_balance payout_failed : Reason

-- The exceptions that the services throw, each with its reason.
pub data Error : Type 0 where
  bad_request not_found forbidden conflict : Reason → Error
  -- A database error, such as a violated unique index.
  query_failed : Error
  unauthorized : Error
  -- The deployment lacks what the call needs.
  service_unavailable : Error
  -- A queue that takes no job.
  queue_failed : Error
  -- A command that Redis rejects.
  redis_failed : Error
  -- A gateway call that rejects.
  gateway_failed : Error

pub data Outcome (A : Type 0) : Type 0 where
  returned : A → Outcome A
  thrown : Error → Outcome A

abbrev pub Action : Type 0 → Type 0
Action A = World → Outcome A × World

infixl 5 ◌>>=◌ ◌>>◌
abbrev pub ◌>>=◌ : {A B : Type 0} → Action A → (A → Action B) → Action B
◌>>=◌ m k w = let (r, w') = m w in elim r [ returned a ↦ k a w' | thrown e ↦ (thrown e, w') ]

abbrev pub ◌>>◌ : {A B : Type 0} → Action A → Action B → Action B
m >> k = m >>= λ _. k

module _ {A : Type 0} where
  abbrev pub return : A → Action A
  return a w = (returned a, w)

  abbrev pub throw : Error → Action A
  throw e w = (thrown e, w)

  -- `if (!found) throw e`
  abbrev pub found_or : Error → Option A → Action A
  found_or e none = throw e
  found_or e (some a) = return a

  abbrev pub asks : (World → A) → Action A
  asks f w = (returned (f w), w)

  -- `try { m } finally { cleanup }`
  abbrev pub finally : Action A → (World → World) → Action A
  finally m cleanup w = let (r, w') = m w in (r, cleanup w')

  -- `try { m } catch (e) { cleanup; throw e }`
  abbrev pub on_throw : Action A → (World → World) → Action A
  on_throw m cleanup w =
      let (r, w') = m w in
      elim r [ returned a ↦ (returned a, w') | thrown e ↦ (thrown e, cleanup w') ]

  -- `manager.transaction(m)`: a throw rolls the database back, and nothing else.
  abbrev pub transaction : Action A → Action A
  transaction m w =
      let (r, w') = m w in
      elim r [ returned a ↦ (returned a, w') | thrown e ↦ (thrown e, record w' { db = w.db }) ]

-- `if (test) throw e`
abbrev pub throw_if : Bool → Error → Action (Unit {0})
throw_if true e = throw e
throw_if false e = return tt

abbrev pub modify : (World → World) → Action (Unit {0})
modify f w = (returned tt, f w)

abbrev pub modify_db : (Db → Db) → Action (Unit {0})
modify_db f = modify (λ w. record w { db = f w.db })

abbrev pub emit : Event → Action (Unit {0})
emit e = modify (λ w. record w { events = w.events ++ e ∷ [] })

-- To split on how a call ends, keeping the equation.
pub Outcome-cases :
    {A : Type 0} (m : Outcome A × World)
    → ((a : A) × (v : World) × (m ≡ (returned a, v)))
      ⊎ ((x : Error) × (v : World) × (m ≡ (thrown x, v)))
Outcome-cases (returned a, v) = inl (a, v, refl)
Outcome-cases (thrown x, v) = inr (x, v, refl)

-- The Redis commands as actions.
module _ (e : Env) where
  abbrev pub set_nx : RedisKey → RedisValue → ℕ → Action Bool
  set_nx k v seconds w =
      let (c, won) = e.redis.set_nx k v seconds w.redis in (returned won, record w { redis = c })

  abbrev pub set : RedisKey → RedisValue → ℕ → Action (Unit {0})
  set k v seconds = modify (λ w. record w { redis = e.redis.set k v seconds w.redis })

  -- `DEL key`, as the last act of a handler.
  abbrev pub release : RedisKey → World → World
  release k w = record w { redis = e.redis.del k w.redis }

  abbrev pub del : RedisKey → Action (Unit {0})
  del k = modify (release k)

  -- `redis.set(key, value, 'EX', seconds, 'NX')`, a refusal if the key was taken, and the work in a
  -- `try` whose `finally` deletes the key.
  unfoldable pub with_lock : {A : Type 0} → RedisKey → RedisValue → ℕ → Reason → Action A → Action A
  with_lock key value seconds reason work = do
    won ← set_nx key value seconds
    throw_if (not won) (bad_request reason)
    finally work (release key)
