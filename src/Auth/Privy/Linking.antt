-- ===== src/Auth/Privy/Linking.antt =====
-- Which account a rider who signs in with Privy gets.
use arkride_backend.Common.{
  ℕ, ◌≡◌, Bool, false, Option, some, none, is_id, Option-cases, inl, inr, ◌==◌, arith,
}
use arkride_backend.Common.Text.{Text}
use arkride_backend.Entities.Accounts.{User}
use arkride_backend.Auth.Privy.{
  given, is_of_another, choose_rider, admit_rider, sign_in_rider, synced_wallet, PrivySignInResult,
}
use arkride_backend.Auth.Privy.Claims.{Privy, PrivyIdentity}
use arkride_backend.Auth.Tokens.{AuthEnv, issue_session, mint}
use arkride_backend.World.{Env, World, returned, Outcome-cases}

-- The account was linked to this identity before; or it bears the e-mail that Privy attests, and was
-- linked to no other; or it is new.
pub data IsTheirs (e : Env) (did : Text) (identity : PrivyIdentity) (w : World) (id : ℕ)
    : Type 0 where
  linked :
      (u : User)
      → e.users.find_one id w.db.users ≡ some u
      → u.privy_did ≡ some did
      → IsTheirs e did identity w id
  same_email :
      (u : User)
      → e.users.find_one id w.db.users ≡ some u
      → given identity.email ≡ some u.email
      → is_of_another u.privy_did did ≡ false
      → IsTheirs e did identity w id
  fresh : e.users.find_one id w.db.users ≡ none → IsTheirs e did identity w id

module _ (e : Env) (a : AuthEnv) (privy : Privy) (did : Text) (identity : PrivyIdentity)
    (name : Option Text) where
  choose_rider-same : (w : World) → (choose_rider e a privy did identity name w).1 ≡ w
  unfolding choose_rider
  choose_rider-same w = ground arith

  choose_rider_linked :
      (u : User) (w : World)
      → e.users.find_where (λ y. is_id y.privy_did did) w.db.users ≡ some u
      → choose_rider e a privy did identity name w ≡ (returned (u, false), w)
  unfolding choose_rider
  choose_rider_linked u w found = ground arith

  pub choose_rider_by_email :
      (email : Text) (u : User) (w : World)
      → e.users.find_where (λ y. is_id y.privy_did did) w.db.users ≡ none
      → given identity.email ≡ some email
      → e.users.find_where (λ y. y.email == email) w.db.users ≡ some u
      → is_of_another u.privy_did did ≡ false
      → choose_rider e a privy did identity name w
        ≡ (returned (record u { privy_did = some did }, false), w)
  unfolding choose_rider
  choose_rider_by_email email u w free attested found open_ = ground arith

  chosen_new :
      (x : User) (is_new : Bool) (w v : World)
      → e.users.find_where (λ y. is_id y.privy_did did) w.db.users ≡ none
      → choose_rider e a privy did identity name w ≡ (returned (x, is_new), v)
      → (x.privy_did ≡ some did) × IsTheirs e did identity w x.id
  unfolding choose_rider
  chosen_new x is_new w v free h = elim (Option-cases (given identity.email)) [
    | inl unnamed ↦ (ground arith, fresh (ground (arith, e.users.new_id_fresh w.db.users)))
    | inr (email, named) ↦
        elim (Option-cases (e.users.find_where (λ y. y.email == email) w.db.users)) [
          | inl missing ↦ (ground arith, fresh (ground (arith, e.users.new_id_fresh w.db.users)))
          | inr (u, found) ↦
              let (is_his, stored) =
                e.users.find_where_some (λ y. y.email == email) w.db.users u found in
              (
                ground arith,
                same_email u (ground (arith, stored)) (ground (arith, is_his)) (ground arith),
              )
        ]
  ]

  chosen-IsTheirs :
      (x : User) (is_new : Bool) (w v : World)
      → choose_rider e a privy did identity name w ≡ (returned (x, is_new), v)
      → (x.privy_did ≡ some did) × IsTheirs e did identity w x.id
  unfolding choose_rider
  chosen-IsTheirs x is_new w v h =
      elim (Option-cases (e.users.find_where (λ y. is_id y.privy_did did) w.db.users)) [
        | inl free ↦ chosen_new x is_new w v free h
        | inr (u, found) ↦
            let (has_did, stored) =
              e.users.find_where_some (λ y. is_id y.privy_did did) w.db.users u found in
            (ground (arith, has_did), linked u (ground (arith, stored)) (ground (arith, has_did)))
      ]

  -- What `sign_in_rider-IsTheirs` says of the row after the sign-in.
  abbrev pub SignedInRow : PrivySignInResult → World → Type 0
  SignedInRow r v =
      (u : User) × (e.users.find_one r.profile.id v.db.users ≡ some u)
      × (u.privy_did ≡ some did)
      × (u.is_blocked ≡ false)

  pub admitted :
      (x : User) (is_new : Bool) (r : PrivySignInResult) (w v : World)
      → admit_rider e a privy did identity (x, is_new) w ≡ (returned r, v)
      → (r.profile.id ≡ x.id)
        × ((x.is_blocked ≡ false)
            × (v.db.users
                ≡ e.users.save
                    (record x {
                      wallet_address_evm =
                          synced_wallet e a privy identity.wallet x.wallet_address_evm;
                    })
                    w.db.users))
  unfolding admit_rider issue_session mint
  admitted x is_new r w v h = (ground arith, (ground arith, ground arith))

  admitted_row :
      (x : User) (is_new : Bool) (r : PrivySignInResult) (w v : World)
      → x.privy_did ≡ some did
      → admit_rider e a privy did identity (x, is_new) w ≡ (returned r, v)
      → SignedInRow r v
  admitted_row x is_new r w v has_did h =
      let (same, (open_, rows)) = admitted x is_new r w v h in
      let saved : User = record x {
        wallet_address_evm = synced_wallet e a privy identity.wallet x.wallet_address_evm;
      } in
      (
        saved,
        ground (arith, same, rows, e.users.find_one_save x.id saved w.db.users),
        has_did,
        open_,
      )

  pub sign_in_rider-IsTheirs :
      (r : PrivySignInResult) (w v : World)
      → sign_in_rider e a privy did identity name w ≡ (returned r, v)
      → IsTheirs e did identity w r.profile.id × SignedInRow r v
  unfolding sign_in_rider
  sign_in_rider-IsTheirs r w v h =
      elim (Outcome-cases (choose_rider e a privy did identity name w)) [
        | inr (y, u, ends) ↦ absurd (ground (arith, ends))
        | inl ((x, is_new), u, ends) ↦
            let (has_did, theirs) = chosen-IsTheirs x is_new w u ends in
            let admits : admit_rider e a privy did identity (x, is_new) u ≡ (returned r, v) =
              ground (arith, ends) in
            let (same, rest) = admitted x is_new r u v admits in
            (rw same theirs, admitted_row x is_new r u v has_did admits)
      ]
