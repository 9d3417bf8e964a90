-- ===== src/Admin/AuditLog.antt =====
-- internal/server/admin_audit.go: the endpoint on the audit log.
pub mod Pages
use x_beacon.Prelude.{ℕ, ◌+◌, Bool, Result, ok, err, Option, none, some, String, List, length}
use x_beacon.Prelude.Int.{ℤ}
use x_beacon.Errors.Http.{MappedError, answer}
use x_beacon.Audit.{
  Row, QueryOpts, AuditError, not_configured, window_invalid, window_too_wide, invalid_action,
  missing_actor_or_target, failed_query, query,
}
use x_beacon.Admin.Query.{bad_request, internal_error, parse_page, parse_window, next_offset}

-- the parameters of the query; an absent one is empty
pub record AuditQuery : Type 0 where
  pub start : String
  pub end : String
  pub actor_id : String
  pub action : String
  pub target_type : String
  pub limit : String
  pub offset : String

-- the answer: the rows, the total and the offset of the next page
pub data AuditReply : Type 0 where
  audit_refused : MappedError → AuditReply
  audit_page : List Row → ℕ → ℤ → AuditReply

unfoldable pub parse_audit_query :
    (String → Option ℤ) → (String → Option ℕ) → AuditQuery → Result MappedError QueryOpts
unfolding parse_page parse_window
parse_audit_query atoi rfc3339 q = elim (parse_window rfc3339 q.start q.end) [
  | err m ↦ err m
  | ok (start, end) ↦ elim (parse_page atoi q.limit q.offset) [
    | err m ↦ err m
    | ok (limit, offset) ↦ ok (record {
      start = start;
      end = end;
      actor_id = q.actor_id;
      action = q.action;
      target_type = q.target_type;
      limit = limit;
      offset = offset;
    })
  ]
]

unfoldable pub audit_error : AuditError → MappedError
unfolding bad_request internal_error answer
audit_error window_invalid =
    bad_request "invalid_window" "audit: window invalid (start < end, both non-zero)"
audit_error window_too_wide = bad_request "window_too_wide" "Audit window must be <= 31d"
audit_error not_configured =
    answer 503 "internal_error" "audit_disabled" "Audit log not configured (no DB)"
audit_error invalid_action = internal_error "Failed to query audit log"
audit_error missing_actor_or_target = internal_error "Failed to query audit log"
audit_error (failed_query why) = internal_error "Failed to query audit log"

module _ (newest_first : List Row → List Row) (has_pool : Bool) (fault : Option String) where
  -- the handler, once it has the options
  unfoldable pub audit_answer : QueryOpts → List Row → AuditReply
  unfolding audit_error next_offset
  audit_answer o rows = elim (query newest_first has_pool fault o rows) [
    | err e ↦ audit_refused (audit_error e)
    | ok (items, total) ↦ audit_page items total (next_offset o.offset (length items) total)
  ]

  unfoldable pub admin_audit_handler :
      (String → Option ℤ) → (String → Option ℕ) → AuditQuery → List Row → AuditReply
  unfolding parse_audit_query audit_answer
  admin_audit_handler atoi rfc3339 q rows = elim (parse_audit_query atoi rfc3339 q) [
    | err m ↦ audit_refused m
    | ok o ↦ audit_answer o rows
  ]
