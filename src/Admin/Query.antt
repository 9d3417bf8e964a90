-- ===== src/Admin/Query.antt =====
-- What the endpoints with a window of time share: internal/server/admin_audit.go and admin_logs.go.
pub mod Walk
use x_beacon.Prelude.{
  ℕ, ◌+◌, Bool, true, false, leb, Result, ok, err, Option, none, some, String, List, str_eq, ◌||◌,
  length, if◌then◌else◌,
}
use x_beacon.Prelude.Int.{ℤ, pos, negsuc, ltz, ◌+ℤ◌, lez}
use x_beacon.Errors.Http.{MappedError, answer}

unfoldable pub bad_request : String → String → MappedError
unfolding answer
bad_request code message = answer 400 "invalid_request_error" code message

unfoldable pub internal_error : String → MappedError
unfolding answer
internal_error message = answer 500 "internal_error" "" message

-- a number of the query that is at least `least`; an absent one is 0
unfoldable pub query_number : (String → Option ℤ) → ℤ → String → Option ℤ
query_number atoi least v =
    if str_eq v ""
    then some (pos 0)
    else elim (atoi v) [ none ↦ none | some n ↦ if ltz n least then none else some n ]

-- limit and offset of the query
unfoldable pub parse_page : (String → Option ℤ) → String → String → Result MappedError (ℤ × ℤ)
unfolding query_number bad_request
parse_page atoi limit offset = elim (query_number atoi (pos 1) limit) [
  | none ↦ err (bad_request "invalid_limit" "Field 'limit' must be a positive integer (max 200)")
  | some n ↦ elim (query_number atoi (pos 0) offset) [
    | none ↦ err (bad_request "invalid_offset" "Field 'offset' must be a non-negative integer")
    | some m ↦ ok (n, m)
  ]
]

-- start and end of the query; time.Parse is a parameter
unfoldable pub parse_window : (String → Option ℕ) → String → String → Result MappedError (ℕ × ℕ)
unfolding bad_request
parse_window rfc3339 start end =
    if str_eq start "" || str_eq end ""
    then err (bad_request "missing_window" "Both 'start' and 'end' (RFC3339) are required")
    else elim (rfc3339 start) [
      | none ↦ err (bad_request "invalid_start" "Field 'start' must be RFC3339")
      | some s ↦ elim (rfc3339 end) [
        | none ↦ err (bad_request "invalid_end" "Field 'end' must be RFC3339")
        | some e ↦ ok (s, e)
      ]
    ]

-- where the next page begins, -1 for none
unfoldable pub next_offset : ℤ → ℕ → ℕ → ℤ
next_offset offset items total =
    let next = offset +ℤ pos items in if lez (pos total) next then negsuc 0 else next
