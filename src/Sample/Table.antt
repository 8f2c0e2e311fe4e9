-- ===== src/Sample/Table.antt =====
-- A repository over a list of rows: a new row goes to the end, an id is one above all others.
use arkride_backend.Common.{
  ℕ, not, suc, ◌+◌, ◌≤◌, ◌≡◌, refl, Bool, Option, some, none, List, [], ◌∷◌, ◌==◌, first, keep,
  sum_by, if◌then◌else◌, arith, any,
}
use mathlib.Core.Path.{subst}
use arkride_backend.Common.{true, false, Option-cases, Bool-cases, inl, inr}
use arkride_backend.Platform.{Repository, change_if}
use Prim.Native.Nat.{max}

abbrev pub passes : {A : Type 0} → (A → Bool) → Option A → Option A → Option A
passes p none later = later
passes p (some a) later = if p a then some a else later

module _ {A : Type 0} (key : A → ℕ) where
  abbrev pub find_row : ℕ → List A → Option A
  find_row i rows = first (λ a. key a == i) rows

  abbrev pub save_row : A → List A → List A
  save_row a [] = a ∷ []
  save_row a (x ∷ xs) = if key x == key a then a ∷ xs else x ∷ save_row a xs

  -- The first row, as its id finds it, that passes a test.
  abbrev pub first_where : (A → Bool) → List A → List A → Option A
  first_where p rows [] = none
  first_where p rows (x ∷ xs) = passes p (find_row (key x) rows) (first_where p rows xs)

  abbrev pub remove_row : A → List A → List A
  remove_row a [] = []
  remove_row a (x ∷ xs) = if key x == key a then remove_row a xs else x ∷ remove_row a xs

  abbrev pub update_rows_where : (A → Bool) → (A → A) → List A → List A
  update_rows_where p f [] = []
  update_rows_where p f (x ∷ xs) = (if p x then f x else x) ∷ update_rows_where p f xs

  abbrev pub remove_rows_where : (A → Bool) → List A → List A
  remove_rows_where p rows = keep (λ a. not (p a)) rows

  abbrev pub next_id : List A → ℕ
  next_id [] = 0
  next_id (x ∷ xs) = max (suc (key x)) (next_id xs)

  pub find_row-above : (i : ℕ) (rows : List A) → next_id rows ≤ i → find_row i rows ≡ none
  find_row-above i [] h = refl
  find_row-above i (x ∷ xs) h = ground (arith, find_row-above i xs)

  pub next_id_fresh : (rows : List A) → find_row (next_id rows) rows ≡ none
  next_id_fresh rows = find_row-above (next_id rows) rows (omega arith)

  pub find_row-key : (i : ℕ) (rows : List A) (a : A) → find_row i rows ≡ some a → key a ≡ i
  find_row-key i [] a h = cc
  find_row-key i (x ∷ xs) a h = ground (arith, find_row-key i xs a)

  pub first_where-some :
      (p : A → Bool) (rows xs : List A) (a : A)
      → first_where p rows xs ≡ some a
      → (p a ≡ true) × (find_row (key a) rows ≡ some a)
  first_where-some p rows [] a h = cc
  first_where-some p rows (x ∷ xs) a h = elim (Option-cases (find_row (key x) rows)) [
    | inl missing ↦ first_where-some p rows xs a (ground arith)
    | inr (v, found) ↦ elim (Bool-cases (p v)) [
      | inl good ↦
          let same : v ≡ a = ground arith in
          subst (λ b. (p b ≡ true) × (find_row (key b) rows ≡ some b)) same
            (good, rw (find_row-key (key x) rows v found) found)
      | inr bad ↦ first_where-some p rows xs a (ground arith)
    ]
  ]

  pub first_where-none :
      (p : A → Bool) (rows xs : List A) (i : ℕ) (a b : A)
      → first_where p rows xs ≡ none
      → find_row i xs ≡ some b
      → find_row i rows ≡ some a
      → p a ≡ false
  first_where-none p rows [] i a b h k l = cc
  first_where-none p rows (x ∷ xs) i a b h k l = ground (arith, first_where-none p rows xs i a b)

  pub find_row-remove_row :
      (i : ℕ) (a : A) (rows : List A)
      → find_row i (remove_row a rows) ≡ (if key a == i then none else find_row i rows)
  find_row-remove_row i a [] = ground arith
  find_row-remove_row i a (x ∷ xs) = ground (arith, find_row-remove_row i a xs)

  pub find_row-update_rows_where :
      (p : A → Bool) (f : A → A) (i : ℕ) (rows : List A)
      → ((a : A) → key (f a) ≡ key a)
      → find_row i (update_rows_where p f rows) ≡ change_if p f (find_row i rows)
  find_row-update_rows_where p f i [] h = refl
  find_row-update_rows_where p f i (x ∷ xs) h =
      ground (arith, h x, find_row-update_rows_where p f i xs h)

  pub find_row-remove_rows_where :
      (p : A → Bool) (i : ℕ) (rows : List A) (a : A)
      → find_row i rows ≡ some a
      → p a ≡ false
      → find_row i (remove_rows_where p rows) ≡ some a
  find_row-remove_rows_where p i [] a h k = cc
  find_row-remove_rows_where p i (x ∷ xs) a h k =
      ground (arith, find_row-remove_rows_where p i xs a)

  pub find_row-save_row :
      (i : ℕ) (a : A) (rows : List A)
      → find_row i (save_row a rows) ≡ (if key a == i then some a else find_row i rows)
  find_row-save_row i a [] = refl
  find_row-save_row i a (x ∷ xs) = ground (arith, find_row-save_row i a xs)

  pub keep-update :
      (w : A → ℕ) (p : A → Bool) (a old : A) (rows : List A)
      → find_row (key a) rows ≡ some old
      → sum_by w (keep p (save_row a rows)) + (if p old then w old else 0)
        ≡ sum_by w (keep p rows) + (if p a then w a else 0)
  keep-update w p a old [] h = cc
  keep-update w p a old (x ∷ xs) h = ground (arith, keep-update w p a old xs)

  pub keep-insert :
      (w : A → ℕ) (p : A → Bool) (a : A) (rows : List A)
      → find_row (key a) rows ≡ none
      → sum_by w (keep p (save_row a rows)) ≡ sum_by w (keep p rows) + (if p a then w a else 0)
  keep-insert w p a [] h = ground arith
  keep-insert w p a (x ∷ xs) h = ground (arith, keep-insert w p a xs)

  pub keep-any :
      (p q : A → Bool) (i : ℕ) (rows : List A) (a : A)
      → find_row i rows ≡ some a
      → p a ≡ true
      → q a ≡ true
      → any q (keep p rows) ≡ true
  keep-any p q i [] a h k l = cc
  keep-any p q i (x ∷ xs) a h k l = ground (arith, keep-any p q i xs a)

  abbrev pub list_repository : Repository key
  list_repository = record {
    find_one = find_row;
    find_where = λ p rows. first_where p rows rows;
    find = keep;
    remove = remove_row;
    update_where = update_rows_where;
    remove_where = remove_rows_where;
    find_one_update_where = find_row-update_rows_where;
    find_one_remove_where = find_row-remove_rows_where;
    find_where_some = λ p rows a h. first_where-some p rows rows a h;
    find_where_none = λ p rows i a h k. first_where-none p rows rows i a a h k k;
    find_one_remove = find_row-remove_row;
    save = save_row;
    new_id = next_id;
    new_id_fresh = next_id_fresh;
    find_one_key = find_row-key;
    find_one_save = find_row-save_row;
    find_update = keep-update;
    find_insert = keep-insert;
    find_any = keep-any;
  }
