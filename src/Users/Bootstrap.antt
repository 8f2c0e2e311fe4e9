-- ===== src/Users/Bootstrap.antt =====
-- Administrators by configuration: `AdminBootstrapService` (src/users/admin-bootstrap.service.ts).
pub mod Promotion
pub mod Elevation
use arkride_backend.Common.{
  ℕ, Bool, true, false, not, ◌&&◌, Option, none, some, List, [], ◌∷◌, map, any, keep, ◌==◌,
}
use arkride_backend.Common.Text.{Text, is_blank}
use arkride_backend.Entities.Accounts.{Role, User, same_role}
use arkride_backend.World.{World, Env, Action, return, asks, modify_db, ◌>>=◌, ◌>>◌}

-- What JavaScript does with a text: `split(',')`, `trim`, `toLowerCase`, `includes('@')`.
pub record TextFunctions : Type 0 where
  pub split_commas : Text → List Text
  pub trim : Text → Text
  pub lower : Text → Text
  pub has_at : Text → Bool

unfoldable pub parse_admin_emails : TextFunctions → Option Text → List Text
parse_admin_emails t none = []
parse_admin_emails t (some raw) =
    keep (λ email. not (is_blank email) && t.has_at email)
      (map (λ part. t.lower (t.trim part)) (t.split_commas raw))

-- `In(emails)`, as the database compares texts.
abbrev pub is_listed : List Text → Text → Bool
is_listed emails email = any (λ x. x == email) emails

abbrev pub has_id : ℕ → User → Bool
has_id id u = u.id == id

abbrev pub is_no_admin : User → Bool
is_no_admin u = not (same_role u.role Role.admin)

abbrev pub as_admin : User → User
as_admin u = record u { role = Role.admin }

module _ (e : Env) where
  -- `users.update({ id: In(ids) }, { role: ADMIN })`, with the rows that the ids come from.
  abbrev pub promote_rows : List User → Action (Unit {0})
  promote_rows [] = return tt
  promote_rows to_promote = modify_db (λ db. record db {
    users = e.users.update_where (λ u. any (has_id u.id) to_promote) as_admin db.users;
  })

  unfoldable pub promote : List Text → Action (Unit {0})
  promote emails = do
    found ← asks (λ w. e.users.find (λ u. is_listed emails u.email) w.db.users)
    promote_rows (keep is_no_admin found)

  -- `if (emails.length === 0) return`
  abbrev pub promote_listed : List Text → Action (Unit {0})
  promote_listed [] = return tt
  promote_listed emails = promote emails

  unfoldable pub on_module_init : TextFunctions → Option Text → Action (Unit {0})
  unfolding parse_admin_emails promote
  on_module_init t admin_emails = promote_listed (parse_admin_emails t admin_emails)
