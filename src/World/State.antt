-- ===== src/World/State.antt =====
-- The state, and the services and settings that the program is given.
use arkride_backend.Common.{ℕ, ◌≡◌, Bool, Option, List, String}
use arkride_backend.Platform.{Repository, Contents, Redis, Positions, Position}
use arkride_backend.Entities.Rides.{Ride, Location}
use arkride_backend.Entities.Accounts.{User, Driver, Vehicle}
use arkride_backend.Entities.LedgerEntries.{LedgerEntry}
use arkride_backend.Entities.Tokens.{RefreshToken}
use arkride_backend.Entities.Safety.{Rating, EmergencyIncident}
use arkride_backend.Money.{Naira, Kobo, to_naira, FareSplitNaira}

pub record Db : Type 0 where
  pub users : List User
  pub drivers : List Driver
  pub vehicles : List Vehicle
  pub rides : List Ride
  pub ledger : List LedgerEntry
  pub refresh_tokens : List RefreshToken
  pub ratings : List Rating
  pub incidents : List EmergencyIncident

-- src/websocket/events/ride-events.constants.ts, `RIDE_EVENTS` with their payloads.
pub data Event : Type 0 where
  ride_requested ride_accepted ride_arrived ride_started ride_cancelled : Ride → Event
  ride_completed : Ride → FareSplitNaira → Event
  driver_location_updated : (driver_id ride_id : ℕ) → Position → Event
  emergency_triggered : EmergencyIncident → (user_id : ℕ) → (driver_id : Option ℕ) → Event

-- `EMERGENCY_WEBHOOKS`, and a job with its payload.
pub data EmergencyWebhook : Type 0 where
  trigger_emergency_protocol broadcast_location : EmergencyWebhook

pub record WebhookJob : Type 0 where
  pub name : EmergencyWebhook
  pub incident : EmergencyIncident

-- `now` is what `Date.now()` reads during the handler.
pub record World : Type 0 where
  pub db : Db
  pub redis : Contents
  pub positions : Positions
  pub events : List Event
  -- The jobs in the queue `emergency-webhooks`.
  pub webhooks : List WebhookJob
  pub now : ℕ

-- src/wallet/providers/gateway.interfaces.ts; `raw` and `message` are only shown.
pub record GatewayRequest : Type 0 where
  pub driver_id : ℕ
  pub amount : Naira
  pub reference : ℕ

pub record FuelSupportResult : Type 0 where
  pub success : Bool
  pub provider_reference : Option String

pub data PayoutStatus : Type 0 where
  completed processing failed : PayoutStatus

pub record PayoutResult : Type 0 where
  pub success : Bool
  pub provider_reference : Option String
  pub status : PayoutStatus

-- The repositories, Redis, the two gateways (`none` is a call that rejects), the great-circle distance in hundredths of a
-- kilometre, the configured fuel limit, `randomUUID`, and the rounding of a number that is stored
-- in a money column, which keeps a number with at most two decimals.
pub record Env : Type 0 where
  pub users : Repository User.id
  pub drivers : Repository Driver.id
  pub vehicles : Repository Vehicle.id
  pub rides : Repository Ride.id
  pub ledger : Repository LedgerEntry.id
  pub ratings : Repository Rating.id
  pub incidents : Repository EmergencyIncident.id
  pub redis : Redis
  -- Whether the webhook queue takes a job.
  pub queue_accepts : EmergencyWebhook → World → Bool
  pub distance : Location → Location → ℕ
  pub daily_fuel_limit : Naira
  pub random_uuid : ℕ → ℕ
  pub disburse : GatewayRequest → Option FuelSupportResult
  pub initiate_payout : GatewayRequest → Option PayoutResult
  pub column : Naira → Kobo
  pub column_exact : (k : Kobo) → column (to_naira k) ≡ k
  -- Midnight and the last millisecond of the day of a time.
  pub day_start : ℕ → ℕ
  pub day_end : ℕ → ℕ
