-- ===== src/Auth/Privy/Takeover.antt =====
-- What a password account that is registered with somebody's e-mail is worth once its owner signs in
-- with Privy (src/auth/auth.service.ts, src/auth/privy/privy-auth.service.ts).
use arkride_backend.Common.{
  ◌≡◌, false, Option, some, none, is_id, Option-cases, inl, inr, refl, List, ◌==◌, arith,
}
use arkride_backend.Common.Text.{Text}
use arkride_backend.Entities.Accounts.{User}
use arkride_backend.Auth.Accounts.{RegisterDto, SignedIn, register, login}
use arkride_backend.Auth.Accounts.Codes.{account, registered, registered_found, logs_in}
use arkride_backend.Auth.Privy.{given, sign_in_rider, synced_wallet, PrivySignInResult}
use arkride_backend.Auth.Privy.Linking.{admitted, choose_rider_by_email}
use arkride_backend.Auth.Privy.Claims.{Privy, PrivyIdentity}
use arkride_backend.Auth.Secrets.{Secrets}
use arkride_backend.Auth.Tokens.{AuthEnv}
use arkride_backend.World.{Env, World, returned}

module _ (e : Env) where
  -- A row that is stored twice is still the only one with its e-mail.
  find_stored :
      (email : Text) (x y : User) (rows : List User)
      → e.users.find_where (λ u. u.email == email) rows ≡ none
      → x.email ≡ email
      → y.id ≡ x.id
      → y.email ≡ email
      → e.users.find_where (λ u. u.email == email) (e.users.save y (e.users.save x rows)) ≡ some y
  find_stored email x y rows free same same_id same_email =
      elim (Option-cases
        (e.users.find_where (λ u. u.email == email) (e.users.save y (e.users.save x rows)))) [
          | inl missing ↦ ground (
            arith,
            e.users.find_where_none (λ u. u.email == email) (e.users.save y (e.users.save x rows))
                y.id y missing,
            e.users.find_one_save y.id y (e.users.save x rows),
          )
          | inr (z, found) ↦
              let (is_his, stored) =
                e.users.find_where_some (λ u. u.email == email)
                  (e.users.save y (e.users.save x rows)) z found in
              ground (
                arith,
                is_his,
                stored,
                e.users.find_one_save z.id y (e.users.save x rows),
                e.users.find_one_save z.id x rows,
                e.users.find_where_none (λ u. u.email == email) rows z.id z free,
              )
        ]

  module _ (a : AuthEnv) (s : Secrets) (privy : Privy) where
    -- The row after its owner's first sign-in with Privy.
    abbrev taken_over : RegisterDto → Text → PrivyIdentity → World → User
    taken_over dto did identity w = record (account e a s dto w) {
      privy_did = some did;
      wallet_address_evm = synced_wallet e a privy identity.wallet none;
    }

    linked_to_registered :
        (dto : RegisterDto) (x : SignedIn) (did : Text) (identity : PrivyIdentity)
        (name : Option Text) (r : PrivySignInResult) (w v : World)
        → (register e a s dto w).0 ≡ returned x
        → e.users.find_where (λ u. is_id u.privy_did did) (register e a s dto w).1.db.users ≡ none
        → given identity.email ≡ some dto.email
        → sign_in_rider e a privy did identity name (register e a s dto w).1 ≡ (returned r, v)
        → (r.profile.id ≡ (account e a s dto w).id)
          × (v.db.users
              ≡ e.users.save (taken_over dto did identity w) (register e a s dto w).1.db.users)
    unfolding sign_in_rider
    linked_to_registered dto x did identity name r w v h free attested signed =
        let chosen =
          choose_rider_by_email e a privy did identity name dto.email (account e a s dto w)
            (register e a s dto w).1 free attested (registered_found e a s dto x w h) refl in
        let (same, (open_, rows)) =
          admitted e a privy did identity name
            (record (account e a s dto w) { privy_did = some did }) false r (register e a s dto w).1
            v (ground (arith, chosen, signed)) in
        (same, rows)

    -- Whoever registers an account with an e-mail that is not theirs keeps it when the owner of the
    -- e-mail first signs in with Privy: if the registration returned, no account is linked to the DID,
    -- Privy attests the registered e-mail, and the owner's sign-in returns, then the owner is signed
    -- in to the registered account, and the password of the registration still signs in to it.
    pub sign_in_rider_taken :
        (dto : RegisterDto) (x : SignedIn) (did : Text) (identity : PrivyIdentity)
        (name : Option Text) (r : PrivySignInResult) (w v : World)
        → (register e a s dto w).0 ≡ returned x
        → e.users.find_where (λ u. is_id u.privy_did did) (register e a s dto w).1.db.users ≡ none
        → given identity.email ≡ some dto.email
        → sign_in_rider e a privy did identity name (register e a s dto w).1 ≡ (returned r, v)
        → (r.profile.id ≡ x.user.id)
          × ((y : SignedIn) × (((login e a s dto.email dto.password v).0 ≡ returned y)
                × (y.user.id ≡ r.profile.id)))
    sign_in_rider_taken dto x did identity name r w v h free attested signed =
        let (who, (unused, rows)) = registered e a s dto x w h in
        let (same, kept) =
          linked_to_registered dto x did identity name r w v h free attested signed in
        let (y, (logged, his)) =
          logs_in e a s dto.email dto.password (taken_over dto did identity w)
            (s.hash w dto.password) v
            (ground (
              arith,
              kept,
              rows,
              find_stored dto.email (account e a s dto w) (taken_over dto did identity w) w.db.users
                  unused refl refl refl,
            ))
            refl (s.hash_given w dto.password) (s.compare_hash w dto.password) refl in
        (ground (arith, who, same), (y, (logged, ground (arith, his, same))))
