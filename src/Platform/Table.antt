-- ===== src/Platform/Table.antt =====
-- `Repository<Entity>` of TypeORM: the calls that the services make of it.
use arkride_backend.Common.{
  ℕ, ◌+◌, ◌≡◌, Bool, true, false, Option, none, some, List, if◌then◌else◌, ◌==◌, sum_by, any,
}

abbrev pub change_if : {A : Type 0} → (A → Bool) → (A → A) → Option A → Option A
change_if p f none = none
change_if p f (some a) = some (if p a then f a else a)

-- A table is the list of its rows, in no particular order that a caller could rely on: what a query
-- returns is described through sums over the rows. `key` is the primary column.
pub record Repository {A : Type 0} (key : A → ℕ) : Type 0 where
  -- `findOne({ where: { id } })`
  pub find_one : ℕ → List A → Option A
  -- `findOne({ where })` with any other condition.
  pub find_where : (A → Bool) → List A → Option A
  -- `find({ where })`
  pub find : (A → Bool) → List A → List A
  -- `save(row)`: an UPDATE where the id is in the table, an INSERT otherwise.
  pub save : A → List A → List A
  -- `remove(row)`
  pub remove : A → List A → List A
  -- What a foreign key with ON DELETE SET NULL or CASCADE does to the rows that refer.
  pub update_where : (A → Bool) → (A → A) → List A → List A
  pub remove_where : (A → Bool) → List A → List A
  -- The id that `@PrimaryGeneratedColumn('uuid')` gives a new row.
  pub new_id : List A → ℕ
  pub new_id_fresh : (rows : List A) → find_one (new_id rows) rows ≡ none
  pub find_where_some :
      (p : A → Bool) (rows : List A) (a : A)
      → find_where p rows ≡ some a
      → (p a ≡ true) × (find_one (key a) rows ≡ some a)
  pub find_where_none :
      (p : A → Bool) (rows : List A) (i : ℕ) (a : A)
      → find_where p rows ≡ none
      → find_one i rows ≡ some a
      → p a ≡ false
  pub find_one_key : (i : ℕ) (rows : List A) (a : A) → find_one i rows ≡ some a → key a ≡ i
  pub find_one_save :
      (i : ℕ) (a : A) (rows : List A)
      → find_one i (save a rows) ≡ (if key a == i then some a else find_one i rows)
  pub find_one_update_where :
      (p : A → Bool) (f : A → A) (i : ℕ) (rows : List A)
      → ((a : A) → key (f a) ≡ key a)
      → find_one i (update_where p f rows) ≡ change_if p f (find_one i rows)
  pub find_one_remove_where :
      (p : A → Bool) (i : ℕ) (rows : List A) (a : A)
      → find_one i rows ≡ some a
      → p a ≡ false
      → find_one i (remove_where p rows) ≡ some a
  pub find_one_remove :
      (i : ℕ) (a : A) (rows : List A)
      → find_one i (remove a rows) ≡ (if key a == i then none else find_one i rows)
  -- An UPDATE exchanges the row, an INSERT adds it, and no other row changes.
  pub find_update :
      (w : A → ℕ) (p : A → Bool) (a old : A) (rows : List A)
      → find_one (key a) rows ≡ some old
      → sum_by w (find p (save a rows)) + (if p old then w old else 0)
        ≡ sum_by w (find p rows) + (if p a then w a else 0)
  pub find_insert :
      (w : A → ℕ) (p : A → Bool) (a : A) (rows : List A)
      → find_one (key a) rows ≡ none
      → sum_by w (find p (save a rows)) ≡ sum_by w (find p rows) + (if p a then w a else 0)
  -- A row that passes is among those that are found.
  pub find_any :
      (p q : A → Bool) (i : ℕ) (rows : List A) (a : A)
      → find_one i rows ≡ some a
      → p a ≡ true
      → q a ≡ true
      → any q (find p rows) ≡ true
