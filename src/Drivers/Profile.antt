-- ===== src/Drivers/Profile.antt =====
-- Reading and changing a profile: `findOne`, `findForAuth`, `update`.
use arkride_backend.Common.{
  ℕ, Bool, true, false, not, ◌&&◌, Option, none, some, is_some, is_id, if◌then◌else◌, get_or, ◌==◌,
  leb,
}
use arkride_backend.Common.Text.{Text, is_blank}
use arkride_backend.Entities.Accounts.{Driver}
use arkride_backend.Drivers.{
  SanitizedDriver, sanitize_driver, get_driver, find_driver, store_driver,
}
use arkride_backend.World.{
  Env, Action, return, throw_if, asks, ◌>>=◌, ◌>>◌, bad_request, conflict, query_failed,
  phone_taken, license_taken, license_expired,
}

-- A text that stands for a date, as `new Date` reads it: the empty text, one that is no date, a time.
pub data DateText : Type 0 where
  empty_text no_date : DateText
  date : ℕ → DateText

-- src/drivers/dto/update-driver.dto.ts
pub record UpdateDriverDto : Type 0 where
  pub name : Option Text
  pub phone : Option Text
  pub license_number : Option Text
  pub license_expiry : Option DateText

-- `given && given !== current`
abbrev pub is_changed : Option Text → Text → Bool
is_changed none current = false
is_changed (some given) current = not (is_blank given) && not (given == current)

-- `expiry && new Date(expiry) <= new Date()`: a comparison with an invalid date is false.
abbrev pub has_expired : Option DateText → ℕ → Bool
has_expired (some (date t)) now = leb t now
has_expired _ now = false

-- The date column refuses a text that is no date.
abbrev pub is_storable : Option DateText → Bool
is_storable none = true
is_storable (some (date t)) = true
is_storable (some _) = false

abbrev pub stored_date : Option DateText → ℕ → ℕ
stored_date (some (date t)) current = t
stored_date _ current = current

module _ (e : Env) where
  unfoldable pub find_one : ℕ → Action SanitizedDriver
  unfolding sanitize_driver
  find_one id = do driver ← get_driver e id; return (sanitize_driver driver)

  -- `where: { id, isActive: true }`
  abbrev pub active_only : Option Driver → Option SanitizedDriver
  active_only none = none
  active_only (some d) = if d.is_active then some (sanitize_driver d) else none

  unfoldable pub find_for_auth : ℕ → Action (Option SanitizedDriver)
  unfolding sanitize_driver
  find_for_auth id = asks (λ w. active_only (e.drivers.find_one id w.db.drivers))

  -- The refusals of `update`.
  unfoldable pub check_update : Driver → UpdateDriverDto → Action (Unit {0})
  check_update driver dto = do
    by_phone ← find_driver e (λ d. is_id dto.phone d.phone)
    throw_if (is_changed dto.phone driver.phone && is_some by_phone) (conflict phone_taken)
    by_license ← find_driver e (λ d. is_id dto.license_number d.license_number)
    throw_if (is_changed dto.license_number driver.license_number && is_some by_license)
        (conflict license_taken)
    now ← asks (λ w. w.now)
    throw_if (has_expired dto.license_expiry now) (bad_request license_expired)
    throw_if (not (is_storable dto.license_expiry)) query_failed

  abbrev pub with_profile : UpdateDriverDto → Driver → Driver
  with_profile dto d = record d {
    name = get_or dto.name d.name;
    phone = get_or dto.phone d.phone;
    license_number = get_or dto.license_number d.license_number;
    license_expiry = stored_date dto.license_expiry d.license_expiry;
  }

  unfoldable pub update : ℕ → UpdateDriverDto → Action SanitizedDriver
  unfolding sanitize_driver
  update id dto = do
    driver ← get_driver e id
    check_update driver dto
    store_driver e (with_profile dto driver)
    return (sanitize_driver (with_profile dto driver))
