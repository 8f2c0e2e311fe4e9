-- ===== src/Filters/Texts.antt =====
-- The texts of the filter.
use arkride_backend.Common.{◌==◌, String, List, [], ◌∷◌, if◌then◌else◌}
use Prim.Native.String.{◌++◌, len}

-- `prefix ? prefix + '.' + property : property`
abbrev pub dotted : String → String → String
dotted prefix property = if len prefix == 0 then property else prefix ++ "." ++ property

-- `messages[0]`; class-validator gives constraints that are there at least one text.
abbrev first_message : List String → String
first_message [] = "undefined"
first_message (m ∷ ms) = m

-- `only.field ? only.field + ': ' + only.messages[0] : only.messages[0]`
abbrev pub labelled : String → List String → String
labelled field messages =
    if len field == 0 then first_message messages else field ++ ": " ++ first_message messages

abbrev pub fields_failed : String → String
fields_failed count = count ++ " fields failed validation."

abbrev pub http_code : String → String
http_code status = "HTTP_" ++ status
