-- ===== src/Users/Bootstrap/Promotion.antt =====
-- Who becomes an administrator at the next start.
use arkride_backend.Common.{
  ℕ, ◌≡◌, Bool, ◌&&◌, refl, List, [], ◌∷◌, any, keep, arith, Bool-cases, inl, inr, true, false,
  some, Option, ap, sym, not,
}
use arkride_backend.Entities.Accounts.{User, Role, same_role}
use arkride_backend.Platform.{change_if}
use arkride_backend.Users.Bootstrap.{
  has_id, as_admin, promote_rows, is_listed, promote, is_no_admin, TextFunctions,
  parse_admin_emails, on_module_init, promote_listed,
}
use arkride_backend.Common.Text.{Text}
use arkride_backend.World.{World, Env}

any-keep : (p q : User → Bool) (rows : List User) → any q (keep p rows) ≡ any (λ u. p u && q u) rows
any-keep p q [] = refl
any-keep p q (x ∷ xs) = ground (arith, any-keep p q xs)

is_no_admin-admin : (r : Role) → not (same_role r Role.admin) ≡ false → r ≡ Role.admin
is_no_admin-admin Role.admin h = refl
is_no_admin-admin Role.user h = absurd (ground arith)
is_no_admin-admin Role.driver h = absurd (ground arith)

as_admin-same : (u : User) → is_no_admin u ≡ false → as_admin u ≡ u
as_admin-same u already = ap (λ r. record u { role = r }) (sym (is_no_admin-admin u.role already))

module _ (e : Env) where
  pub promote_rows_lem :
      (rows : List User) (i : ℕ) (w : World)
      → e.users.find_one i (promote_rows e rows w).1.db.users
        ≡ change_if (λ u. any (has_id u.id) rows) as_admin (e.users.find_one i w.db.users)
  promote_rows_lem [] i w = ground arith
  promote_rows_lem (x ∷ xs) i w =
      e.users.find_one_update_where (λ u. any (has_id u.id) (x ∷ xs)) as_admin i w.db.users
        (λ u. refl)

  promoted :
      (emails : List Text) (i : ℕ) (u : User) (w : World)
      → e.users.find_one i w.db.users ≡ some u
      → is_listed emails u.email ≡ true
      → e.users.find_one i (promote e emails w).1.db.users ≡ some (as_admin u)
  unfolding promote
  promoted emails i u w found listed =
      let rows = e.users.find (λ x. is_listed emails x.email) w.db.users in
      let changed = promote_rows_lem (keep is_no_admin rows) i w in
      elim (Bool-cases (is_no_admin u)) [
        | inl plain ↦
            let among =
              e.users.find_any (λ x. is_listed emails x.email) (λ x. is_no_admin x && has_id u.id x)
                i w.db.users u found listed (ground (arith, plain)) in
            let met : any (has_id u.id) (keep is_no_admin rows) ≡ true =
              ground (arith, among, any-keep is_no_admin (has_id u.id) rows) in
            ground (arith, changed, found, met)
        | inr already ↦ ground (arith, changed, found, as_admin-same u already)
      ]

  promoted_listed :
      (emails : List Text) (i : ℕ) (u : User) (w : World)
      → e.users.find_one i w.db.users ≡ some u
      → is_listed emails u.email ≡ true
      → e.users.find_one i (promote_listed e emails w).1.db.users ≡ some (as_admin u)
  promoted_listed [] i u w found listed = absurd (ground arith)
  promoted_listed (x ∷ xs) i u w found listed = promoted (x ∷ xs) i u w found listed

  -- An account whose e-mail is listed is an administrator's after the start, and changed in nothing
  -- else, whatever role it had.
  pub on_module_init-promotes :
      (t : TextFunctions) (admin_emails : Option Text) (i : ℕ) (u : User) (w : World)
      → e.users.find_one i w.db.users ≡ some u
      → is_listed (parse_admin_emails t admin_emails) u.email ≡ true
      → e.users.find_one i (on_module_init e t admin_emails w).1.db.users ≡ some (as_admin u)
  unfolding on_module_init
  on_module_init-promotes t admin_emails i u w found listed =
      promoted_listed (parse_admin_emails t admin_emails) i u w found listed
