-- ===== src/Admin/Logs.antt =====
-- internal/server/admin_logs.go: the endpoint on the request log.
pub mod Pages
use x_beacon.Prelude.{
  ℕ, Bool, true, ltb, Result, ok, err, Option, none, some, String, List, length, str_eq,
  if◌then◌else◌,
}
use x_beacon.Prelude.Int.{ℤ}
use x_beacon.Errors.Http.{MappedError}
use x_beacon.Billing.Logs.{
  LogQuery, LogRow, LogTools, LogError, log_window_invalid, log_window_too_wide, log_error,
  list_logs,
}
use x_beacon.Admin.Query.{bad_request, internal_error, parse_page, parse_window, next_offset}

-- the parameters of the query; an absent one is empty
pub record LogParams : Type 0 where
  pub start : String
  pub end : String
  pub api_key : String
  pub model : String
  pub status : String
  pub limit : String
  pub offset : String

-- the answer: the warning of a wide window, the rows, the total and the offset of the next page
pub data LogReply : Type 0 where
  logs_refused : MappedError → LogReply
  logs_page : Bool → List LogRow → ℕ → ℤ → LogReply

unfoldable pub parse_log_query :
    (String → Option ℤ) → (String → Option ℕ) → LogParams → Result MappedError LogQuery
unfolding parse_page parse_window
parse_log_query atoi rfc3339 q = elim (parse_window rfc3339 q.start q.end) [
  | err m ↦ err m
  | ok (start, end) ↦ elim (parse_page atoi q.limit q.offset) [
    | err m ↦ err m
    | ok (limit, offset) ↦ ok (record {
      start = start;
      end = end;
      api_key_id_prefix = q.api_key;
      model = q.model;
      status_bucket = if str_eq q.status "all" then "" else q.status;
      limit = limit;
      offset = offset;
    })
  ]
]

unfoldable pub log_mapped_error : LogError → MappedError
unfolding bad_request internal_error
log_mapped_error log_window_invalid =
    bad_request "invalid_window" "billing: log window invalid (require start < end, both non-zero)"
log_mapped_error log_window_too_wide =
    bad_request "window_too_wide" "Window must be <= 7d; narrow start/end and retry"
log_mapped_error (log_error why) = internal_error "Failed to query logs"

module _ (t : LogTools) (has_pool : Bool) (fault : Option String) where
  -- the handler, once it has the query
  unfoldable pub logs_answer : LogQuery → List LogRow → LogReply
  unfolding log_mapped_error next_offset
  logs_answer q rows = elim (list_logs t has_pool fault q rows) [
    | err e ↦ logs_refused (log_mapped_error e)
    | ok (items, total) ↦
        logs_page (ltb 100_000 total) items total (next_offset q.offset (length items) total)
  ]

  unfoldable pub admin_logs_handler :
      (String → Option ℤ) → (String → Option ℕ) → LogParams → List LogRow → LogReply
  unfolding parse_log_query logs_answer
  admin_logs_handler atoi rfc3339 q rows = elim (parse_log_query atoi rfc3339 q) [
    | err m ↦ logs_refused m
    | ok o ↦ logs_answer o rows
  ]
