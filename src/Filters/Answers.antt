-- ===== src/Filters/Answers.antt =====
-- What a failure tells the caller.
use arkride_backend.Filters.Texts.{dotted}
use arkride_backend.Common.{
  ℕ, ◌≡◌, ◌≤◌, Option, none, some, List, [], ◌∷◌, ◌++◌, String, refl, ap, arith, sym, ◌∙◌,
}
use mathlib.Core.List.{append_assoc, append-nil}
use arkride_backend.Filters.{
  Entry, text, node, other_entry, Entries, end, entry, FieldError, constraint_errors, walk,
  walk_entry, to_field_errors, PgCode, query_failure, error, http, plain, body_of, describe,
  describe_http_exception, describe_query_failure, unique_violation, foreign_key_violation,
  invalid_text_representation, other_code,
}

-- The texts of the tree from left to right, whatever stands above them.
abbrev texts_of : Option (List String) → List String
texts_of none = []
texts_of (some messages) = messages

mutual
  entry_texts : Entry → List String
  entry_texts (text t) = t ∷ []
  entry_texts (node property constraints children) = texts_of constraints ++ all_texts children
  entry_texts other_entry = []

  pub all_texts : Entries → List String
  all_texts end = []
  all_texts (entry e es) = entry_texts e ++ all_texts es

-- The texts that a list of field errors holds.
abbrev pub told : List FieldError → List String
told [] = []
told (x ∷ xs) = x.messages ++ told xs

told-append : (xs ys : List FieldError) → told (xs ++ ys) ≡ told xs ++ told ys
told-append [] ys = refl
told-append (x ∷ xs) ys =
    ap (λ rest. x.messages ++ rest) (told-append xs ys)
    ∙ sym (append_assoc x.messages (told xs) (told ys))

constraint_errors-told :
    (field : String) (constraints : Option (List String))
    → told (constraint_errors field constraints) ≡ texts_of constraints
constraint_errors-told field none = refl
constraint_errors-told field (some messages) = append-nil messages

mutual
  unfolding walk entry_texts

  walk_entry-told : (prefix : String) (e : Entry) → told (walk_entry prefix e) ≡ entry_texts e
  walk_entry-told prefix (text t) = refl
  walk_entry-told prefix (node property constraints children) = cc (
    told-append (constraint_errors (dotted prefix property) constraints)
        (walk (dotted prefix property) children),
    constraint_errors-told (dotted prefix property) constraints,
    walk-told (dotted prefix property) children,
  )
  walk_entry-told prefix other_entry = refl

  walk-told : (prefix : String) (es : Entries) → told (walk prefix es) ≡ all_texts es
  walk-told prefix end = refl
  walk-told prefix (entry e es) = cc (
    told-append (walk_entry prefix e) (walk prefix es),
    walk_entry-told prefix e,
    walk-told prefix es,
  )

-- No message of a validation error is lost and none comes twice: the field errors hold exactly the texts
-- of the tree, in its order.
pub to_field_errors-told : (es : Entries) → told (to_field_errors es) ≡ all_texts es
unfolding to_field_errors
to_field_errors-told es = walk-told "" es

module _ (show : ℕ → String) (path : String) (timestamp request_id : ℕ) where
  query_failure-hides :
      (c : PgCode) (m n : String)
      → body_of show path timestamp request_id (query_failure c m)
        ≡ body_of show path timestamp request_id (query_failure c n)
  unfolding body_of describe describe_query_failure
  query_failure-hides unique_violation m n = refl
  query_failure-hides foreign_key_violation m n = refl
  query_failure-hides invalid_text_representation m n = refl
  query_failure-hides other_code m n = refl

  -- What went wrong inside does not reach the caller: two errors of the database with one code, two other
  -- errors, and two HTTP exceptions with one status from 500 on that bear a text, are answered with the
  -- same body, whatever their messages are.
  pub body_of-hides :
      (c : PgCode) (status : ℕ) (m n s t : String)
      → 500 ≤ status
      → (body_of show path timestamp request_id (query_failure c m)
          ≡ body_of show path timestamp request_id (query_failure c n))
        × ((body_of show path timestamp request_id (error m)
              ≡ body_of show path timestamp request_id (error n))
            × (body_of show path timestamp request_id (http status (plain s) m)
                ≡ body_of show path timestamp request_id (http status (plain t) n)))
  unfolding body_of describe describe_http_exception describe_query_failure
  body_of-hides c status m n s t server = (query_failure-hides c m n, (refl, ground arith))
