-- ===== src/Admin/AuditLog/Pages.antt =====
-- The pages of the audit log, one after the other.
use x_beacon.Prelude.{ℕ, ◌≤◌, ◌≡◌, refl, true, none, ok, List, [], ◌∷◌, All}
use x_beacon.Prelude.Int.{ℤ, pos, negsuc}
use x_beacon.Prelude.Pages.{filter_rows, window_fault}
use x_beacon.Audit.{Row, QueryOpts, max_audit_window, matches_entry, matching_rows, paged, query}
use x_beacon.Admin.AuditLog.{AuditReply, audit_refused, audit_page, audit_answer}

-- the rows of an answer, and where the next page begins; a client stops at an error
abbrev pub page_of : AuditReply → List Row × ℤ
page_of (audit_refused m) = ([], negsuc 0)
page_of (audit_page items total next) = (items, next)

queried :
    (newest_first : List Row → List Row) (o : QueryOpts) (rows : List Row)
    → window_fault max_audit_window o.start o.end ≡ none
    → query newest_first true none o rows
      ≡ ok (paged newest_first o (matching_rows newest_first o rows))
unfolding query
queried newest_first o rows h = rw (h, query) refl

-- the newest row first
abbrev pub NewestFirst : List Row → Type 0
NewestFirst [] = Unit
NewestFirst (r ∷ l) = All (λ q. q.occurred_at ≤ r.occurred_at) l × NewestFirst l

module _ (newest_first : List Row → List Row) (o : QueryOpts) (rows : List Row) where
  -- the rows that the query selects, before they are ordered
  abbrev pub chosen_rows : List Row
  chosen_rows = filter_rows (matches_entry o) rows

  abbrev pub serve_audit : ℕ → List Row × ℤ
  serve_audit offset =
      page_of (audit_answer newest_first true none (record o { offset = pos offset }) rows)
