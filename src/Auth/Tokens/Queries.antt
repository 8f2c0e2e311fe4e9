-- ===== src/Auth/Tokens/Queries.antt =====
-- The repository of refresh tokens: the calls that the service makes of it, described by sums over
-- the rows.
use arkride_backend.Common.{
  ℕ, ◌+◌, ◌≤◌, ◌≡◌, Bool, true, Option, some, none, List, bit, sum_by, if◌then◌else◌, ◌==◌,
}
use arkride_backend.Entities.Tokens.{RefreshToken}

abbrev pub count : (RefreshToken → Bool) → List RefreshToken → ℕ
count p rows = sum_by (λ t. bit (p t)) rows

pub record TokenTable : Type 0 where
  -- `findOne({ where })`
  pub find_one : (RefreshToken → Bool) → List RefreshToken → Option RefreshToken
  -- `update(where, set)`, with the number of rows affected: one statement, so that no other comes
  -- between its test and its write.
  pub update :
      (RefreshToken → Bool)
      → (RefreshToken → RefreshToken)
      → List RefreshToken
      → List RefreshToken × ℕ
  pub insert : RefreshToken → List RefreshToken → List RefreshToken
  -- `delete(where)`
  pub delete : (RefreshToken → Bool) → List RefreshToken → List RefreshToken × ℕ
  pub new_id : List RefreshToken → ℕ
  pub new_id_fresh : (rows : List RefreshToken) → count (λ t. t.id == new_id rows) rows ≡ 0
  pub find_one_some :
      (p : RefreshToken → Bool) (rows : List RefreshToken) (t : RefreshToken)
      → find_one p rows ≡ some t
      → (p t ≡ true) × ((w : RefreshToken → ℕ) → w t ≤ sum_by w rows)
  pub find_one_none :
      (p : RefreshToken → Bool) (rows : List RefreshToken)
      → find_one p rows ≡ none
      → count p rows ≡ 0
  pub update_rows :
      (w : RefreshToken → ℕ) (p : RefreshToken → Bool) (f : RefreshToken → RefreshToken)
      (rows : List RefreshToken)
      → sum_by w (update p f rows).0 ≡ sum_by (λ t. if p t then w (f t) else w t) rows
  pub update_affected :
      (p : RefreshToken → Bool) (f : RefreshToken → RefreshToken) (rows : List RefreshToken)
      → (update p f rows).1 ≡ count p rows
  pub insert_rows :
      (w : RefreshToken → ℕ) (t : RefreshToken) (rows : List RefreshToken)
      → sum_by w (insert t rows) ≡ sum_by w rows + w t
  pub delete_rows :
      (w : RefreshToken → ℕ) (p : RefreshToken → Bool) (rows : List RefreshToken)
      → sum_by w (delete p rows).0 ≡ sum_by (λ t. if p t then 0 else w t) rows
