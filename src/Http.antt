-- ===== src/Http.antt =====
-- The calls of a handler of net/http on the writer of its response, which every handler of the
-- program makes. `put_header` assigns all values of a header.
use balance_x.Common.{
  ℕ, String, List, [], ◌∷◌, ◌++◌, Option, none, some, get_or, str_eq, if◌then◌else◌,
}
use balance_x.Common.Dict.{Dict, lookup}
use balance_x.Routing.Bytes.{Text}

pub data Action : Type 0 where
  put_header : String → List String → Action
  write_status : ℕ → Action
  write_body : List ℕ → Action

-- `Header().Set`.
abbrev pub set_header_to : String → String → Action
set_header_to key value = put_header key (value ∷ [])

-- `http.Error`.
abbrev pub http_error : Text → ℕ → List Action
http_error message code =
    set_header_to "Content-Type" "text/plain; charset=utf-8"
    ∷ set_header_to "X-Content-Type-Options" "nosniff"
    ∷ write_status code
    ∷ write_body (message ++ 10 ∷ [])
    ∷ []

-- `Header().Get` on the values of a header.
abbrev pub first_value : Option (List String) → String
first_value none = ""
first_value (some values) = get_or values 0 ""

unfoldable pub header_value : String → Dict (List String) → String
header_value key headers = first_value (lookup key headers)

-- The status that the client sees: that of the first call that writes.
unfoldable pub first_status : List Action → ℕ
first_status [] = 200
first_status (put_header key values ∷ actions) = first_status actions
first_status (write_status code ∷ actions) = code
first_status (write_body bytes ∷ actions) = 200

-- The value of the header `name` after the calls, if it was `value` before.
unfoldable pub header_after : String → String → List Action → String
header_after name value [] = value
header_after name value (put_header key values ∷ actions) =
    header_after name (if str_eq key name then get_or values 0 "" else value) actions
header_after name value (write_status code ∷ actions) = header_after name value actions
header_after name value (write_body bytes ∷ actions) = header_after name value actions
