-- ===== src/Sample/Tokens.antt =====
-- A token table over a list of rows.
use arkride_backend.Common.{
  ℕ, ◌+◌, ◌≤◌, ◌≡◌, refl, Bool, true, not, some, none, List, [], ◌∷◌, first, keep, sum_by,
  if◌then◌else◌, arith, ◌==◌,
}
use arkride_backend.Entities.Tokens.{RefreshToken}
use arkride_backend.Auth.Tokens.Queries.{count, TokenTable}
use arkride_backend.Auth.Tokens.{AuthEnv}

abbrev pub change :
    (RefreshToken → Bool) → (RefreshToken → RefreshToken) → List RefreshToken → List RefreshToken
change p f [] = []
change p f (t ∷ ts) = (if p t then f t else t) ∷ change p f ts

pub first-passes :
    (p : RefreshToken → Bool) (rows : List RefreshToken) (t : RefreshToken)
    → first p rows ≡ some t
    → p t ≡ true
first-passes p [] t h = cc
first-passes p (x ∷ xs) t h = ground (arith, first-passes p xs t)

pub first-counts :
    (p : RefreshToken → Bool) (rows : List RefreshToken) (t : RefreshToken)
    → first p rows ≡ some t
    → (w : RefreshToken → ℕ) → w t ≤ sum_by w rows
first-counts p [] t h w = absurd cc
first-counts p (x ∷ xs) t h w = ground (arith, λ (k : first p xs ≡ some t). first-counts p xs t k w)

pub first-none :
    (p : RefreshToken → Bool) (rows : List RefreshToken) → first p rows ≡ none → count p rows ≡ 0
first-none p [] h = refl
first-none p (x ∷ xs) h = ground (arith, first-none p xs)

pub sum_by-change :
    (w : RefreshToken → ℕ) (p : RefreshToken → Bool) (f : RefreshToken → RefreshToken)
    (rows : List RefreshToken)
    → sum_by w (change p f rows) ≡ sum_by (λ t. if p t then w (f t) else w t) rows
sum_by-change w p f [] = refl
sum_by-change w p f (x ∷ xs) = ground (arith, sum_by-change w p f xs)

pub sum_by-removed :
    (w : RefreshToken → ℕ) (p : RefreshToken → Bool) (rows : List RefreshToken)
    → sum_by w (keep (λ t. not (p t)) rows) ≡ sum_by (λ t. if p t then 0 else w t) rows
sum_by-removed w p [] = refl
sum_by-removed w p (x ∷ xs) = ground (arith, sum_by-removed w p xs)

pub id-absent :
    (k : ℕ) (rows : List RefreshToken)
    → sum_by (λ t. t.id + 1) rows ≤ k
    → count (λ t. t.id == k) rows ≡ 0
id-absent k [] h = refl
id-absent k (x ∷ xs) h = ground (arith, id-absent k xs (omega arith))

abbrev pub list_tokens : TokenTable
list_tokens = record {
  find_one = first;
  update = λ p f rows. (change p f rows, count p rows);
  insert = λ t rows. t ∷ rows;
  delete = λ p rows. (keep (λ t. not (p t)) rows, count p rows);
  new_id = λ rows. sum_by (λ t. t.id + 1) rows;
  find_one_some = λ p rows t h. (first-passes p rows t h, first-counts p rows t h);
  new_id_fresh = λ rows. id-absent (sum_by (λ t. t.id + 1) rows) rows (omega arith);
  find_one_none = first-none;
  update_rows = sum_by-change;
  update_affected = λ p f rows. refl;
  insert_rows = λ w t rows. omega arith;
  delete_rows = sum_by-removed;
}

-- A hash without collisions, and counters for the random sources.
abbrev pub tokens : AuthEnv
tokens = record {
  table = list_tokens;
  hash_token = λ n. n + 1000;
  random_uuid = λ w. w.now;
  random_bytes = λ w. w.now + 1;
  sign = λ s. s.id;
}
