-- ===== src/Admin/Logs/Pages.antt =====
-- The pages of the request log, one after the other.
use x_beacon.Prelude.{ℕ, ◌<◌, ◌≡◌, refl, true, none, some, Bool, ok, List, [], length, arith}
use x_beacon.Prelude.Int.{ℤ, pos, negsuc}
use x_beacon.Prelude.Pages.{
  window_fault, magnitude, page_limit, page_offset-pos, page, page_total, limit_positive,
}
use x_beacon.Billing.Logs.{
  LogRow, LogQuery, LogTools, max_log_window, bucket_clause, matching_logs, paged_logs, list_logs,
}
use x_beacon.Admin.Query.{next_offset}
use x_beacon.Admin.Query.Walk.{walk, walk-drop}
use x_beacon.Admin.Logs.{LogReply, logs_refused, logs_page, logs_answer}

-- the rows of an answer, and where the next page begins; a client stops at an error
abbrev pub page_of : LogReply → List LogRow × ℤ
page_of (logs_refused m) = ([], negsuc 0)
page_of (logs_page warned items total next) = (items, next)

listed_logs :
    (t : LogTools) (q : LogQuery) (in_bucket : ℕ → Bool) (rows : List LogRow)
    → window_fault max_log_window q.start q.end ≡ none
    → bucket_clause q.status_bucket ≡ some in_bucket
    → list_logs t true none q rows ≡ ok (paged_logs t q (matching_logs t q in_bucket rows))
unfolding list_logs
listed_logs t q in_bucket rows h b = rw (h, b, list_logs) refl

module _ (t : LogTools) (q : LogQuery) (in_bucket : ℕ → Bool) (rows : List LogRow) where
  abbrev pub serve_logs : ℕ → List LogRow × ℤ
  serve_logs offset = page_of (logs_answer t true none (record q { offset = pos offset }) rows)

  served :
      window_fault max_log_window q.start q.end ≡ none
      → bucket_clause q.status_bucket ≡ some in_bucket
      → (offset : ℕ)
      → serve_logs offset ≡ (
        page (magnitude (page_limit q.limit)) offset (matching_logs t q in_bucket rows),
        next_offset
            (pos offset)
            (length
              (page (magnitude (page_limit q.limit)) offset (matching_logs t q in_bucket rows)))
            (page_total
              (length (matching_logs t q in_bucket rows))
              (page (magnitude (page_limit q.limit)) offset (matching_logs t q in_bucket rows))),
      )
  unfolding logs_answer paged_logs page page_total
  served h b offset =
      rw (listed_logs t (record q { offset = pos offset }) in_bucket rows h b, logs_answer)
        (unfold matching_logs in rw (page_offset-pos offset, paged_logs) refl)

  -- A client of the request log that asks for offset 0 and then follows next_offset gets every row
  -- of its query once, the newest first, and comes to the end after as many requests as there are
  -- such rows, and one more, at the latest. The window and the status bucket of the query are valid,
  -- and no row is added meanwhile.
  log_pages :
      (fuel : ℕ)
      → window_fault max_log_window q.start q.end ≡ none
      → bucket_clause q.status_bucket ≡ some in_bucket
      → length (matching_logs t q in_bucket rows) < fuel
      → walk serve_logs fuel 0 ≡ matching_logs t q in_bucket rows
  log_pages fuel h b enough =
      walk-drop serve_logs (magnitude (page_limit q.limit)) (matching_logs t q in_bucket rows)
        (limit_positive q.limit).0 (served h b) fuel 0 (omega arith) (omega arith)
