-- ===== src/Filters.antt =====
-- The error contract of the API: `AllExceptionsFilter` (src/common/filters/all-exceptions.filter.ts).
-- What is only logged is
-- left out.
pub mod Texts
pub mod Answers
use arkride_backend.Common.{
  ℕ, Bool, true, false, Option, none, some, List, [], ◌∷◌, ◌++◌, String, get_or, length, leb,
  if◌then◌else◌, ◌==◌,
}
use arkride_backend.Filters.Texts.{dotted, http_code, fields_failed, labelled}

-- One of the entries of a validation error: a text, or a node with its constraints and its children;
-- anything else is skipped. A property that is missing counts as the empty text.
mutual
  pub data Entry : Type 0 where
    text : String → Entry
    node : (property : String) → (constraints : Option (List String)) → Entries → Entry
    other_entry : Entry

  pub data Entries : Type 0 where
    end : Entries
    entry : Entry → Entries → Entries

-- `getResponse()`: an array, an object whose message is an array, a text, an object with the message and
-- the code that it holds as texts, or anything else.
pub data Payload : Type 0 where
  array message_array : Entries → Payload
  plain : String → Payload
  object : (message code : Option String) → Payload
  other_payload : Payload

-- The codes of Postgres that are told apart.
pub data PgCode : Type 0 where
  unique_violation foreign_key_violation invalid_text_representation other_code : PgCode

-- What may be thrown: `HttpException` with its status, response and message; `QueryFailedError`;
-- another `Error`; a value that is no error.
pub data Thrown : Type 0 where
  http : (status : ℕ) → Payload → (message : String) → Thrown
  query_failure : PgCode → (message : String) → Thrown
  error : (message : String) → Thrown
  no_error : Thrown

pub record FieldError : Type 0 where
  pub field : String
  pub messages : List String

pub record Described : Type 0 where
  pub status_code : ℕ
  pub message : String
  pub code : String
  pub errors : Option (List FieldError)

-- `ApiFailure`, with the id that a failure of the server gets.
pub record ApiFailure : Type 0 where
  pub status_code : ℕ
  pub message : String
  pub code : String
  pub path : String
  pub timestamp : ℕ
  pub errors : Option (List FieldError)
  pub request_id : Option ℕ

-- The payload of the event `exception`.
pub record WsFailure : Type 0 where
  pub status_code : ℕ
  pub code : String
  pub message : String
  pub request_id : Option ℕ
  pub timestamp : ℕ

unfoldable pub extract_array : Payload → Option Entries
extract_array (array es) = some es
extract_array (message_array es) = some es
extract_array _ = none

abbrev pub constraint_errors : String → Option (List String) → List FieldError
constraint_errors field none = []
constraint_errors field (some messages) = record { field = field; messages = messages } ∷ []

unfoldable mutual
  pub walk_entry : String → Entry → List FieldError
  walk_entry prefix (text t) = record { field = prefix; messages = t ∷ [] } ∷ []
  walk_entry prefix (node property constraints children) =
      constraint_errors (dotted prefix property) constraints
      ++ walk (dotted prefix property) children
  walk_entry prefix other_entry = []

  pub walk : String → Entries → List FieldError
  walk prefix end = []
  walk prefix (entry e es) = walk_entry prefix e ++ walk prefix es

unfoldable pub to_field_errors : Entries → List FieldError
unfolding walk
to_field_errors es = walk "" es

abbrev pub server_fault : String
server_fault = "Something went wrong on our side. Quote the request id when reporting this."

abbrev described : ℕ → String → String → Described
described status_code message code = record {
  status_code = status_code;
  message = message;
  code = code;
  errors = none;
}

-- `show` is how a number is written.
module _ (show : ℕ → String) where
  unfoldable pub summarise : List FieldError → String
  summarise [] = "The request failed validation."
  summarise (only ∷ []) = labelled only.field only.messages
  summarise errors = fields_failed (show (length errors))

  unfoldable pub code_for : ℕ → String
  code_for status =
      if status == 400
      then "BAD_REQUEST"
      else if status == 401
      then "UNAUTHENTICATED"
      else if status == 403
      then "FORBIDDEN"
      else if status == 404
      then "NOT_FOUND"
      else if status == 409
      then "CONFLICT"
      else if status == 422
      then "UNPROCESSABLE"
      else if status == 429
      then "RATE_LIMITED"
      else http_code (show status)

  abbrev describe_payload : ℕ → Payload → String → Described
  describe_payload status (plain t) message = described status t (code_for status)
  describe_payload status (object own code) message =
      described status (get_or own message) (get_or code (code_for status))
  describe_payload status payload message = described status message (code_for status)

  unfoldable pub describe_http_exception : ℕ → Payload → String → Described
  unfolding extract_array to_field_errors summarise code_for
  describe_http_exception status payload message = elim (extract_array payload) [
    | none ↦ describe_payload status payload message
    | some entries ↦ record {
      status_code = status;
      message = summarise (to_field_errors entries);
      code = "VALIDATION_FAILED";
      errors = some (to_field_errors entries);
    }
  ]

  unfoldable pub describe_query_failure : PgCode → String → Described
  describe_query_failure unique_violation message =
      described 409 "That value is already taken." "DUPLICATE_VALUE"
  describe_query_failure foreign_key_violation message =
      described 400 "That reference does not exist." "INVALID_REFERENCE"
  describe_query_failure invalid_text_representation message =
      described 400 "One of the supplied identifiers is malformed." "MALFORMED_IDENTIFIER"
  describe_query_failure other_code message = described 500 message "DATABASE_ERROR"

  unfoldable pub describe : Thrown → Described
  unfolding describe_http_exception describe_query_failure
  describe (http status payload message) = describe_http_exception status payload message
  describe (query_failure code message) = describe_query_failure code message
  describe (error message) = described 500 message "INTERNAL_ERROR"
  describe no_error = described 500 "Unknown error" "INTERNAL_ERROR"

  -- The body that `catch` answers, with the path, the time and the id that `randomUUID` gives.
  unfoldable pub body_of : (path : String) → (timestamp request_id : ℕ) → Thrown → ApiFailure
  unfolding describe
  body_of path timestamp request_id thrown =
      let d = describe thrown in
      let server = leb 500 d.status_code in
      record {
        status_code = d.status_code;
        message = if server then server_fault else d.message;
        code = d.code;
        path = path;
        timestamp = timestamp;
        errors = d.errors;
        request_id = if server then some request_id else none;
      }

  -- What `handleWsException` emits to a socket.
  unfoldable pub handle_ws_exception : (timestamp request_id : ℕ) → Thrown → WsFailure
  unfolding describe
  handle_ws_exception timestamp request_id thrown =
      let d = describe thrown in
      let server = leb 500 d.status_code in
      record {
        status_code = d.status_code;
        code = d.code;
        message = if server then server_fault else d.message;
        request_id = if server then some request_id else none;
        timestamp = timestamp;
      }
