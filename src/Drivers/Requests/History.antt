-- ===== src/Drivers/Requests/History.antt =====
-- Whatever the endpoints have done, nobody is on dispatch who may not be.
use arkride_backend.Auth.Tokens.{AuthEnv}
use arkride_backend.Auth.Secrets.{Secrets}
use arkride_backend.Drivers.Standing.Dispatch.{
  AreDispatchable, online-AreDispatchable, verification-AreDispatchable, active-AreDispatchable,
  remove-AreDispatchable,
}
use arkride_backend.Drivers.Requests.{
  Request, register, register_privy, sign_in, edit, go, verify, activate, delete, forgot, reset,
  complete, fuel, payout, serve, Step, request, elsewhere, Reach, here, next, rate,
}
use arkride_backend.Drivers.Requests.Kept.{
  create-AreDispatchable, create_from_privy-AreDispatchable, update-AreDispatchable,
  login-AreDispatchable, forgot_password-AreDispatchable, reset_password-AreDispatchable,
  complete_ride-AreDispatchable,
}
use arkride_backend.Drivers.Requests.Purse.{
  request_fuel_support-AreDispatchable, request_payout-AreDispatchable,
  create_rating-AreDispatchable,
}
use arkride_backend.Entities.Safety.{Rating}
use arkride_backend.Common.{List, ℕ}
use arkride_backend.World.{Env, World}

module _ (e : Env) (a : AuthEnv) (s : Secrets) (average : List Rating → ℕ) where
  serve-AreDispatchable :
      (q : Request) (w : World)
      → AreDispatchable e w.db.drivers
      → AreDispatchable e (serve e a s average q w).db.drivers
  unfolding serve
  serve-AreDispatchable (register dto) w all = create-AreDispatchable e a s dto w all
  serve-AreDispatchable (register_privy did placeholder email wallet dto) w all =
      create_from_privy-AreDispatchable e did placeholder email wallet dto w all
  serve-AreDispatchable (sign_in email password) w all =
      login-AreDispatchable e a s email password w all
  serve-AreDispatchable (edit id dto) w all = update-AreDispatchable e id dto w all
  serve-AreDispatchable (go id is_online) w all = online-AreDispatchable e id is_online w all
  serve-AreDispatchable (verify id status) w all = verification-AreDispatchable e a id status w all
  serve-AreDispatchable (activate id is_active) w all =
      active-AreDispatchable e a id is_active w all
  serve-AreDispatchable (delete id) w all = remove-AreDispatchable e a id w all
  serve-AreDispatchable (forgot email) w all = forgot_password-AreDispatchable e s email w all
  serve-AreDispatchable (reset email otp new_password) w all =
      reset_password-AreDispatchable e s email otp new_password w all
  serve-AreDispatchable (complete r d) w all = complete_ride-AreDispatchable e r d w all
  serve-AreDispatchable (fuel d x) w all = request_fuel_support-AreDispatchable e d x w all
  serve-AreDispatchable (payout d x) w all = request_payout-AreDispatchable e d x w all
  serve-AreDispatchable (rate rater_id dto) w all =
      create_rating-AreDispatchable e average rater_id dto w all

  Step-AreDispatchable :
      {w v : World}
      → Step e a s average w v
      → AreDispatchable e w.db.drivers
      → AreDispatchable e v.db.drivers
  Step-AreDispatchable {w = w} (request q) all = serve-AreDispatchable q w all
  Step-AreDispatchable (elsewhere same) all = rw same all

  -- If, in some state, every stored driver who is online is approved and active, then so it is in
  -- every state that a finite history of the driver endpoints, ride completions, fuel advances,
  -- payouts, ratings, and steps that leave the drivers' rows alone leads to from there, whether the calls
  -- return or throw.
  pub Reach-AreDispatchable :
      {w v : World}
      → Reach e a s average w v
      → AreDispatchable e w.db.drivers
      → AreDispatchable e v.db.drivers
  Reach-AreDispatchable here all = all
  Reach-AreDispatchable (next before step) all =
      Step-AreDispatchable step (Reach-AreDispatchable before all)
