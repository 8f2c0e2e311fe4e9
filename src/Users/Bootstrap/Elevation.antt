-- ===== src/Users/Bootstrap/Elevation.antt =====
-- What `ADMIN_EMAILS` gives to whoever registers one of its addresses first.
use arkride_backend.Common.{
  ℕ, ◌≡◌, true, Option, some, Option-cases, inl, inr, refl, List, [], ◌∷◌, keep, ◌==◌, arith,
}
use arkride_backend.Common.Text.{Text}
use arkride_backend.Entities.Accounts.{Role, User}
use arkride_backend.Auth.Accounts.{RegisterDto, SignedIn, register, login}
use arkride_backend.Auth.Accounts.Codes.{account, registered, registered_found, logs_in}
use arkride_backend.Auth.Secrets.{Secrets}
use arkride_backend.Auth.Tokens.{AuthEnv}
use arkride_backend.Users.Bootstrap.{
  TextFunctions, parse_admin_emails, is_listed, is_no_admin, as_admin, promote_rows, promote,
  promote_listed, on_module_init,
}
use arkride_backend.Users.Bootstrap.Promotion.{promote_rows_lem, on_module_init-promotes}
use arkride_backend.World.{World, Env, returned}

module _ (e : Env) where
  -- The row that a row comes from, with the same e-mail.
  abbrev CameFrom : ℕ → User → World → Type 0
  CameFrom i z w = (u : User) × ((e.users.find_one i w.db.users ≡ some u) × (u.email ≡ z.email))

  promote_rows_from :
      (rows : List User) (i : ℕ) (z : User) (w : World)
      → e.users.find_one i (promote_rows e rows w).1.db.users ≡ some z
      → CameFrom i z w
  promote_rows_from rows i z w found = elim (Option-cases (e.users.find_one i w.db.users)) [
    | inl missing ↦ absurd (ground (arith, promote_rows_lem e rows i w))
    | inr (u, was) ↦ (u, (was, ground (arith, promote_rows_lem e rows i w)))
  ]

  promote_listed_from :
      (emails : List Text) (i : ℕ) (z : User) (w : World)
      → e.users.find_one i (promote_listed e emails w).1.db.users ≡ some z
      → CameFrom i z w
  unfolding promote
  promote_listed_from [] i z w found = (z, (found, refl))
  promote_listed_from (x ∷ xs) i z w found =
      promote_rows_from
        (keep is_no_admin (e.users.find (λ u. is_listed (x ∷ xs) u.email) w.db.users)) i z w found

  -- The only row with its e-mail stays the only one.
  find_promoted :
      (t : TextFunctions) (admin_emails : Option Text) (x : User) (w : World)
      → e.users.find_where (λ u. u.email == x.email) w.db.users ≡ some x
      → ((i : ℕ) (z : User) → e.users.find_one i w.db.users ≡ some z → z.email ≡ x.email → i ≡ x.id)
      → is_listed (parse_admin_emails t admin_emails) x.email ≡ true
      → e.users.find_where (λ u. u.email == x.email) (on_module_init e t admin_emails w).1.db.users
        ≡ some (as_admin x)
  unfolding on_module_init
  find_promoted t admin_emails x w found only listed =
      let after = (on_module_init e t admin_emails w).1.db.users in
      let (mail, stored) = e.users.find_where_some (λ u. u.email == x.email) w.db.users x found in
      let promoted = on_module_init-promotes e t admin_emails x.id x w stored listed in
      elim (Option-cases (e.users.find_where (λ u. u.email == x.email) after)) [
        | inl missing ↦ ground (
          arith,
          promoted,
          mail,
          e.users.find_where_none (λ u. u.email == x.email) after x.id (as_admin x) missing,
        )
        | inr (z, met) ↦
            let (same, kept) = e.users.find_where_some (λ u. u.email == x.email) after z met in
            let (u, (was, mail_of)) =
              promote_listed_from (parse_admin_emails t admin_emails) z.id z w kept in
            ground (arith, promoted, kept, met, only z.id u was (ground (arith, same, mail_of)))
      ]

  module _ (a : AuthEnv) (s : Secrets) where
    registered_only :
        (dto : RegisterDto) (x : SignedIn) (w : World)
        → (register e a s dto w).0 ≡ returned x
        → (i : ℕ) (z : User) → e.users.find_one i (register e a s dto w).1.db.users ≡ some z
        → z.email ≡ dto.email
        → i ≡ (account e a s dto w).id
    registered_only dto x w h i z found same =
        let (who, (free, rows)) = registered e a s dto x w h in
        ground (
          arith,
          found,
          rows,
          e.users.find_one_save i (account e a s dto w) w.db.users,
          e.users.find_where_none (λ u. u.email == dto.email) w.db.users i z free,
        )

    -- Whoever registers an address of `ADMIN_EMAILS` first, which no mail confirms, is an administrator
    -- after the next start: if the registration returned and its e-mail is listed, then the password
    -- of the registration signs in after the start to the registered account, with the role of an
    -- administrator.
    pub register_elevated :
        (t : TextFunctions) (admin_emails : Option Text) (dto : RegisterDto) (x : SignedIn)
        (w : World)
        → (register e a s dto w).0 ≡ returned x
        → is_listed (parse_admin_emails t admin_emails) dto.email ≡ true
        → (y : SignedIn) × (((login e a s dto.email dto.password
                (on_module_init e t admin_emails (register e a s dto w).1).1).0
              ≡ returned y)
            × ((y.user.id ≡ x.user.id) × (y.user.role ≡ Role.admin)))
    register_elevated t admin_emails dto x w h listed =
        let (who, (free, rows)) = registered e a s dto x w h in
        let (y, (logged, his)) =
          logs_in e a s dto.email dto.password (as_admin (account e a s dto w))
            (s.hash w dto.password) (on_module_init e t admin_emails (register e a s dto w).1).1
            (find_promoted t admin_emails (account e a s dto w) (register e a s dto w).1
              (registered_found e a s dto x w h) (registered_only dto x w h) listed)
            refl (s.hash_given w dto.password) (s.compare_hash w dto.password) refl in
        (y, (logged, (ground (arith, who, his), ground (arith, his))))
