-- ===== src/DriverLocations/Privacy.antt =====
-- Who sees where a driver is.
use arkride_backend.Common.{
  ℕ, ◌↔◌, ◌≡◌, ◌≤◌, ◌<◌, ◌⊎◌, true, some, none, Option-cases, inl, inr, refl, arith,
}
use arkride_backend.Common.Text.{Text}
use arkride_backend.Platform.{Position}
use arkride_backend.Entities.Accounts.{Role, Driver}
use arkride_backend.Entities.Rides.{Ride}
use arkride_backend.Ownership.{Principal}
use arkride_backend.DriverLocations.{
  ShownLocation, QueryNumber, absent, not_finite, negative, finite, clamp_radius,
  get_driver_location, is_watched,
}
use arkride_backend.Rides.Trip.{is_active_for}
use arkride_backend.World.{Env, World, returned}

-- The rider's own ride that is under way with that driver.
pub record IsWatching (e : Env) (user_id driver_id : ℕ) (w : World) : Type 0 where
  pub ride : Ride
  pub stored : e.rides.find_one ride.id w.db.rides ≡ some ride
  pub rider : ride.user_id ≡ user_id
  pub under_way : is_active_for driver_id ride ≡ true

-- The three reasons to be shown a driver's position.
unfoldable pub MayWatch : Env → Principal → ℕ → World → Type 0
MayWatch e p driver_id w =
    (p.role ≡ Role.admin)
    ⊎ (((p.role ≡ Role.driver) × (p.id ≡ driver_id))
        ⊎ ((p.role ≡ Role.user) × IsWatching e p.id driver_id w))

module _ (e : Env) where
  rider_watches :
      (user_id driver_id : ℕ) (r : Ride) (w : World)
      → e.rides.find_where (is_watched user_id driver_id) w.db.rides ≡ some r
      → IsWatching e user_id driver_id w
  rider_watches user_id driver_id r w found =
      let (is_his, stored) =
        e.rides.find_where_some (is_watched user_id driver_id) w.db.rides r found in
      record {
        ride = r;
        stored = stored;
        rider = ground (arith, is_his);
        under_way = ground (arith, is_his);
      }

  shown :
      (first_name_of : Text → Text) (id : ℕ) (role : Role) (driver_id : ℕ) (x : ShownLocation)
      (w : World)
      → (get_driver_location e first_name_of (some (record { id = id; role = role })) driver_id w).0
        ≡ returned x
      → MayWatch e (record { id = id; role = role }) driver_id w
  unfolding get_driver_location MayWatch
  shown first_name_of id Role.admin driver_id x w h = inl refl
  shown first_name_of id Role.driver driver_id x w h = inr (inl (refl, ground arith))
  shown first_name_of id Role.user driver_id x w h =
      elim (Option-cases (e.rides.find_where (is_watched id driver_id) w.db.rides)) [
        | inl missing ↦ ground arith
        | inr (r, found) ↦ inr (inr (refl, rider_watches id driver_id r w found))
      ]

  watched :
      (user_id driver_id : ℕ) (w : World)
      → IsWatching e user_id driver_id w
      → ¬ (e.rides.find_where (is_watched user_id driver_id) w.db.rides ≡ none)
  watched user_id driver_id w watching missing = ground (
    arith,
    watching.rider,
    watching.under_way,
    e.rides.find_where_none (is_watched user_id driver_id) w.db.rides watching.ride.id watching.ride
        missing watching.stored,
  )

  shows :
      (first_name_of : Text → Text) (id : ℕ) (role : Role) (driver_id : ℕ) (d : Driver)
      (at : Position) (w : World)
      → e.drivers.find_one driver_id w.db.drivers ≡ some d
      → w.positions driver_id ≡ some at
      → MayWatch e (record { id = id; role = role }) driver_id w
      → (get_driver_location e first_name_of (some (record { id = id; role = role })) driver_id w).0
        ≡ returned (record { id = d.id; name = first_name_of d.name; position = at })
  unfolding get_driver_location MayWatch
  shows first_name_of id Role.admin driver_id d at w stored located may = ground arith
  shows first_name_of id Role.driver driver_id d at w stored located (inl bad) =
      absurd (ground arith)
  shows first_name_of id Role.driver driver_id d at w stored located (inr (inl own)) =
      ground (arith, own.1)
  shows first_name_of id Role.driver driver_id d at w stored located (inr (inr (bad, watching))) =
      absurd (ground arith)
  shows first_name_of id Role.user driver_id d at w stored located (inl bad) = absurd (ground arith)
  shows first_name_of id Role.user driver_id d at w stored located (inr (inl bad)) =
      absurd (ground (arith, bad.0))
  shows first_name_of id Role.user driver_id d at w stored located (inr (inr (same, watching))) =
      elim (Option-cases (e.rides.find_where (is_watched id driver_id) w.db.rides)) [
        | inl missing ↦ absurd (watched id driver_id w watching missing)
        | inr (r, found) ↦ ground arith
      ]

  -- For a driver who is stored and was located: the driver's first name and position are shown
  -- exactly to an administrator, to that driver, and to the rider of a stored ride with that driver
  -- which is accepted, arrived or in progress.
  pub get_driver_location-MayWatch :
      (first_name_of : Text → Text) (p : Principal) (driver_id : ℕ) (d : Driver) (at : Position)
      (w : World)
      → e.drivers.find_one driver_id w.db.drivers ≡ some d
      → w.positions driver_id ≡ some at
      → ((get_driver_location e first_name_of (some p) driver_id w).0
          ≡ returned (record { id = d.id; name = first_name_of d.name; position = at }))
        ↔ MayWatch e p driver_id w
  get_driver_location-MayWatch first_name_of p driver_id d at w stored located = (
    shown first_name_of p.id p.role driver_id _ w,
    shows first_name_of p.id p.role driver_id d at w stored located,
  )

-- Whatever the query parameter, the radius searched is more than nothing and at most 50 km.
pub clamp_radius_bounds : (q : QueryNumber) → (0 < clamp_radius q) × (clamp_radius q ≤ 50_000)
unfolding clamp_radius
clamp_radius_bounds absent = ground arith
clamp_radius_bounds not_finite = ground arith
clamp_radius_bounds negative = ground arith
clamp_radius_bounds (finite r) = ground arith
