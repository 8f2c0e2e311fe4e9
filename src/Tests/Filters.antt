-- ===== src/Tests/Filters.antt =====
-- The error contract at concrete inputs.
use arkride_backend.Common.{ℕ, ◌≡◌, some, none, [], ◌∷◌, String, arith}
use arkride_backend.Filters.{
  Entries, Thrown, ApiFailure, node, text, entry, end, to_field_errors, body_of, query_failure,
  error, http, plain, other_code,
}
use arkride_backend.Filters.Answers.{told, all_texts, to_field_errors-told, body_of-hides}

-- A pickup whose latitude is wrong, and a text by itself.
abbrev tree : Entries
tree =
    entry (node "pickup" none (entry (node "lat" (some ("too small" ∷ "no number" ∷ [])) end) end))
      (entry (text "no body") end)

to_field_errors-told_example : told (to_field_errors tree) ≡ all_texts tree
to_field_errors-told_example = to_field_errors-told tree

abbrev show : ℕ → String
show n = "500"

abbrev body : Thrown → ApiFailure
body = body_of show "/rides" 50 7

body_of-hides_example :
    (body (query_failure other_code "deadlock") ≡ body (query_failure other_code "no table"))
    × ((body (error "deadlock") ≡ body (error "no table"))
        × (body (http 503 (plain "redis") "deadlock") ≡ body (http 503 (plain "mail") "no table")))
body_of-hides_example =
    body_of-hides show "/rides" 50 7 other_code 503 "deadlock" "no table" "redis" "mail"
      (omega arith)
