-- ===== src/Users.antt =====
-- `UsersService` (src/users/users.service.ts).
pub mod Bootstrap
use arkride_backend.Common.{
  ℕ, Bool, true, false, not, ◌&&◌, ◌||◌, Option, none, some, is_some, is_id, ◌==◌,
}
use arkride_backend.Common.Int.{pos}
use arkride_backend.Common.Text.{Text}
use arkride_backend.Entities.Accounts.{Role, User, Code}
use arkride_backend.World.{
  Env, Action, return, throw_if, asks, modify_db, ◌>>=◌, ◌>>◌, conflict, query_failed, email_taken,
  phone_taken,
}

-- The columns that a caller of `createUser` gives; the others have their defaults.
pub record UserData : Type 0 where
  pub name : Text
  pub email : Text
  pub phone : Option Text
  pub password : Option Text
  pub provider : Option Text
  pub provider_id : Option Text
  pub is_verified : Bool
  pub otp_code : Option Code
  pub otp_expiry : Option ℕ

abbrev pub new_user : UserData → ℕ → User
new_user user_data id = record {
  id = id;
  name = user_data.name;
  email = user_data.email;
  phone = user_data.phone;
  password = user_data.password;
  provider = user_data.provider;
  provider_id = user_data.provider_id;
  privy_did = none;
  wallet_address_evm = none;
  wallet_address_solana = none;
  wallet_address_tron = none;
  otp_code = user_data.otp_code;
  otp_expiry = user_data.otp_expiry;
  is_verified = user_data.is_verified;
  role = Role.user;
  rating_average = 0;
  total_rides = 0;
  cashback_balance = pos 0;
  is_blocked = false;
}

abbrev pub same_given : Option Text → Option Text → Bool
same_given (some a) (some b) = a == b
same_given _ _ = false

-- Another row that holds a value of a unique column.
abbrev pub clashes : User → User → Bool
clashes u other =
    not (other.id == u.id)
    && (other.email == u.email
        || (same_given other.phone u.phone || same_given other.privy_did u.privy_did))

module _ (e : Env) where
  abbrev pub find_by_email : Text → Action (Option User)
  find_by_email email = asks (λ w. e.users.find_where (λ u. u.email == email) w.db.users)

  abbrev pub find_by_phone : Text → Action (Option User)
  find_by_phone phone = asks (λ w. e.users.find_where (λ u. is_id u.phone phone) w.db.users)

  unfoldable pub create_user : UserData → Action User
  create_user user_data = do
    user ← asks (λ w. new_user user_data (e.users.new_id w.db.users))
    clash ← asks (λ w. e.users.find_where (clashes user) w.db.users)
    throw_if (is_some clash) query_failed
    modify_db (λ db. record db { users = e.users.save user db.users })
    return user

  unfoldable pub check_if_email_exists : Text → Action (Unit {0})
  check_if_email_exists email = do
    found ← find_by_email email
    throw_if (is_some found) (conflict email_taken)

  unfoldable pub check_if_phone_exists : Text → Action (Unit {0})
  check_if_phone_exists phone = do
    found ← find_by_phone phone
    throw_if (is_some found) (conflict phone_taken)

  -- `usersRepository.update(id, set)`: nothing where the row is gone.
  abbrev pub set_user : ℕ → (User → User) → Action (Unit {0})
  set_user id f = modify_db (λ db. record db {
    users = elim (e.users.find_one id db.users) [
      | none ↦ db.users
      | some u ↦ e.users.save (f u) db.users
    ];
  })

  unfoldable pub verify_user : ℕ → Action (Unit {0})
  verify_user id =
      set_user id (λ u. record u { is_verified = true; otp_code = none; otp_expiry = none })

  unfoldable pub update_otp : ℕ → Code → ℕ → Action (Unit {0})
  update_otp id otp_code otp_expiry =
      set_user id (λ u. record u { otp_code = some otp_code; otp_expiry = some otp_expiry })

  unfoldable pub update_password : ℕ → Text → Action (Unit {0})
  update_password id hashed =
      set_user id (λ u. record u { password = some hashed; otp_code = none; otp_expiry = none })

  unfoldable pub update_wallet_addresses : ℕ → (evm solana tron : Option Text) → Action (Unit {0})
  update_wallet_addresses id evm solana tron = set_user id (λ u. record u {
    wallet_address_evm = evm;
    wallet_address_solana = solana;
    wallet_address_tron = tron;
  })
