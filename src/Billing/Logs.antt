-- ===== src/Billing/Logs.antt =====
-- internal/billing/logs_query.go: the query of the request log. The SELECT is a function on the rows;
-- a time is a number of nanoseconds, 0 for the zero time.
use Prim.Native.String.{◌++◌ as append}
use x_beacon.Prelude.{
  ℕ, Bool, true, false, ◌||◌, ◌&&◌, not, ltb, leb, Result, ok, err, Option, none, some, String,
  List, map, length, str_eq, if◌then◌else◌,
}
use x_beacon.Prelude.Int.{ℤ}
use x_beacon.Prelude.Pages.{
  window_fault, magnitude, page_limit, page_offset, filter_rows, page, page_total,
}

pub record LogQuery : Type 0 where
  pub start : ℕ
  pub end : ℕ
  pub api_key_id_prefix : String
  pub model : String
  pub status_bucket : String
  pub limit : ℤ
  pub offset : ℤ

pub record LogRow : Type 0 where
  pub request_id : String
  pub started_at : ℕ
  pub api_key_id : String
  pub api_key_id_preview : String
  pub model : String
  pub provider : String
  pub status : ℕ
  pub latency_ms : ℤ
  pub prompt_tokens : ℤ
  pub completion_tokens : ℤ
  pub total_tokens : ℤ
  pub cost_micro : ℤ
  pub currency : String
  pub error_code : String
  pub streamed : Bool

pub data LogError : Type 0 where
  log_window_invalid log_window_too_wide : LogError
  log_error : String → LogError

-- 7 days
abbrev pub max_log_window : ℕ
max_log_window = 604_800_000_000_000

-- the clause of a status bucket; there are but three, and none at all
unfoldable pub bucket_clause : String → Option (ℕ → Bool)
bucket_clause b =
    if str_eq b ""
    then some (λ s. true)
    else if str_eq b "2xx"
    then some (λ s. leb 200 s && ltb s 300)
    else if str_eq b "4xx"
    then some (λ s. leb 400 s && ltb s 500)
    else if str_eq b "5xx"
    then some (λ s. leb 500 s && ltb s 600)
    else none

-- LIKE, ORDER BY started_at DESC, and the first bytes of a text
pub record LogTools : Type 0 where
  pub like : String → String → Bool
  pub newest_first : List LogRow → List LogRow
  pub preview_id : String → String

module _ (t : LogTools) where
  unfoldable pub matches_log : LogQuery → (ℕ → Bool) → LogRow → Bool
  matches_log q in_bucket r =
      (leb q.start r.started_at && ltb r.started_at q.end)
      && ((str_eq q.api_key_id_prefix "" || t.like r.api_key_id (append q.api_key_id_prefix "%"))
          && ((str_eq q.model "" || str_eq r.model q.model) && in_bucket r.status))

  -- a row as it is scanned
  unfoldable pub scanned : LogRow → LogRow
  scanned r = record r { api_key_id_preview = t.preview_id r.api_key_id }

  -- the rows of a query, without limit and offset
  unfoldable pub matching_logs : LogQuery → (ℕ → Bool) → List LogRow → List LogRow
  unfolding matches_log filter_rows scanned
  matching_logs q in_bucket rows =
      map scanned (t.newest_first (filter_rows (matches_log q in_bucket) rows))

  unfoldable pub paged_logs : LogQuery → List LogRow → List LogRow × ℕ
  unfolding page page_total page_limit page_offset
  paged_logs q rows =
      let out = page (magnitude (page_limit q.limit)) (magnitude (page_offset q.offset)) rows in
      (out, page_total (length rows) out)

  -- ListLogs
  unfoldable pub list_logs :
      Bool → Option String → LogQuery → List LogRow → Result LogError (List LogRow × ℕ)
  unfolding window_fault bucket_clause paged_logs matching_logs
  list_logs has_pool fault q rows = elim (window_fault max_log_window q.start q.end) [
    | some false ↦ err log_window_invalid
    | some true ↦ err log_window_too_wide
    | none ↦
        if not has_pool
        then err (log_error "billing: pool is nil")
        else elim (bucket_clause q.status_bucket) [
          | none ↦ err (log_error "billing: invalid status_bucket")
          | some in_bucket ↦ elim fault [
            | some why ↦ err (log_error (append "billing: query request_logs: " why))
            | none ↦ ok (paged_logs q (matching_logs q in_bucket rows))
          ]
        ]
  ]
