-- ===== src/Entities/Safety.antt =====
-- src/rides/entities/rating.entity.ts and src/emergency/entities/emergency-incident.entity.ts.
use arkride_backend.Common.{ℕ, Bool, true, false, Option, String}
use arkride_backend.Common.Text.{Text}

-- `rateeType: 'user' | 'driver'`
pub data RateeType : Type 0 where
  user driver : RateeType

abbrev pub same_ratee_type : RateeType → RateeType → Bool
same_ratee_type user user = true
same_ratee_type driver driver = true
same_ratee_type _ _ = false

pub record Rating : Type 0 where
  pub id : ℕ
  pub ride_id : ℕ
  pub rater_id : ℕ
  pub ratee_id : ℕ
  pub ratee_type : RateeType
  pub rating : ℕ
  pub comment : Option Text

pub data EmergencyTriggeredBy : Type 0 where
  rider driver : EmergencyTriggeredBy

pub data EmergencyStatus : Type 0 where
  active resolved false_alarm : EmergencyStatus

-- A position, with the address where the pickup stands in for it.
pub record Place : Type 0 where
  pub lat : ℕ
  pub lng : ℕ
  pub address : Option String

pub record EmergencyIncident : Type 0 where
  pub id : ℕ
  pub ride_id : ℕ
  pub triggered_by : EmergencyTriggeredBy
  pub triggered_by_id : ℕ
  pub location : Option Place
  pub note : Option Text
  pub status : EmergencyStatus
  pub resolution_note : Option Text
  pub resolved_at : Option ℕ
  pub created_at : ℕ
