-- ===== src/World/Keeps.antt =====
-- A property of the state that each part of an action keeps is kept by the whole.
use arkride_backend.World.State.{World}
use arkride_backend.World.Monad.{Action, Outcome, returned, thrown, ◌>>=◌, transaction}

module _ {A B : Type 0} (P : World → Type 0) where
  outcome_keeps :
      (k : A → Action B) (w : World) (o : Outcome A × World)
      → P o.1
      → ((x : A) (v : World) → P v → P (k x v).1)
      → P (((λ (_ : World). o) >>= k) w).1
  outcome_keeps k w (returned x, v) h rest = rest x v h
  outcome_keeps k w (thrown x, v) h rest = h

  pub bind_keeps :
      (m : Action A) (k : A → Action B) (w : World)
      → P (m w).1
      → ((x : A) (v : World) → P v → P (k x v).1)
      → P ((m >>= k) w).1
  bind_keeps m k w h rest = outcome_keeps k w (m w) h rest

module _ {A : Type 0} (P : World → Type 0) where
  rolled_back_keeps :
      (w : World) (o : Outcome A × World)
      → P o.1
      → ((v : World) → P (record v { db = w.db }))
      → P (transaction (λ (_ : World). o) w).1
  rolled_back_keeps w (returned x, v) done undone = done
  rolled_back_keeps w (thrown x, v) done undone = undone v

  -- A rollback puts the database back, so what is said of the database alone is kept.
  pub transaction_keeps :
      (m : Action A) (w : World)
      → P (m w).1
      → ((v : World) → P (record v { db = w.db }))
      → P (transaction m w).1
  transaction_keeps m w done undone = rolled_back_keeps w (m w) done undone
