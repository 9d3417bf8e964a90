-- ===== src/Audit.antt =====
-- internal/audit/audit.go: the log of admin actions. An SQL statement is a function on the rows; a
-- time is a number of nanoseconds, 0 for the zero time.
use Prim.Native.Char.{code}
use Prim.Native.String as Text
use Prim.Native.String.{◌++◌ as append}
use x_beacon.Prelude.{
  ℕ, Bool, true, false, ◌||◌, ◌&&◌, not, ◌==◌, ltb, leb, Result, ok, err, Option, none, some,
  String, List, ◌∷◌, length, str_eq, if◌then◌else◌,
}
use x_beacon.Prelude.Int.{ℤ}
use x_beacon.Prelude.Pages.{
  window_fault, magnitude, page_limit, page_offset, filter_rows, page, page_total,
}

pub data Action : Type 0 where
  key_create key_revoke pricing_upsert pricing_delete providers_reload : Action

unfoldable pub action_text : Action → String
action_text key_create = "key.create"
action_text key_revoke = "key.revoke"
action_text pricing_upsert = "pricing.upsert"
action_text pricing_delete = "pricing.delete"
action_text providers_reload = "providers.reload"

-- the metadata of an action on a key: its label and its scopes
pub record Entry : Type 0 where
  pub actor_id : String
  pub actor_label : String
  pub action : String
  pub target_type : String
  pub target_id : String
  pub label : String
  pub scopes : List String
  pub request_id : String

pub record Row : Type 0 where
  pub id : ℕ
  pub occurred_at : ℕ
  pub entry : Entry

pub record QueryOpts : Type 0 where
  pub start : ℕ
  pub end : ℕ
  pub actor_id : String
  pub action : String
  pub target_type : String
  pub limit : ℤ
  pub offset : ℤ

pub data AuditError : Type 0 where
  not_configured window_invalid window_too_wide invalid_action missing_actor_or_target : AuditError
  failed_query : String → AuditError

-- a dot that is not the last character
inner_dot : String → Bool
inner_dot Text.[] = false
inner_dot (Text.◌∷◌ c s) = (code c == b'.' && not (str_eq s "")) || inner_dot s

-- the loop of Record: a dot that is neither the first nor the last character
unfoldable pub has_verb : String → Bool
unfolding inner_dot
has_verb Text.[] = false
has_verb (Text.◌∷◌ c s) = inner_dot s

-- what Record refuses before it asks for the pool
unfoldable pub entry_fault : Entry → Option AuditError
unfolding has_verb
entry_fault e =
    if str_eq e.actor_id "" || (str_eq e.target_id "" || str_eq e.target_type "")
    then some missing_actor_or_target
    else if not (has_verb e.action)
    then some invalid_action
    else none

-- 31 days
abbrev pub max_audit_window : ℕ
max_audit_window = 2_678_400_000_000_000

unfoldable pub matches_entry : QueryOpts → Row → Bool
matches_entry o r =
    (leb o.start r.occurred_at && ltb r.occurred_at o.end)
    && ((str_eq o.actor_id "" || str_eq r.entry.actor_id o.actor_id)
        && ((str_eq o.action "" || str_eq r.entry.action o.action)
            && (str_eq o.target_type "" || str_eq r.entry.target_type o.target_type)))

-- Postgres.Record; `new_row` has the ID and the time that the database gives
unfoldable pub record_entry :
    Bool → Option String → (Entry → Row) → Entry → List Row → Result AuditError (List Row)
unfolding entry_fault
record_entry has_pool fault new_row e rows = elim (entry_fault e) [
  | some why ↦ err why
  | none ↦ if not has_pool then err not_configured else elim fault [
    | some why ↦ err (failed_query (append "audit: insert: " why))
    | none ↦ ok (new_row e ∷ rows)
  ]
]

module _ (newest_first : List Row → List Row) where
  -- the rows of a query, without limit and offset; ORDER BY occurred_at DESC is a function on the
  -- rows, so that rows of one time come in the same order in each statement
  unfoldable pub matching_rows : QueryOpts → List Row → List Row
  unfolding matches_entry filter_rows
  matching_rows o rows = newest_first (filter_rows (matches_entry o) rows)

  unfoldable pub paged : QueryOpts → List Row → List Row × ℕ
  unfolding page page_total page_limit page_offset
  paged o rows =
      let out = page (magnitude (page_limit o.limit)) (magnitude (page_offset o.offset)) rows in
      (out, page_total (length rows) out)

  -- Postgres.Query
  unfoldable pub query :
      Bool → Option String → QueryOpts → List Row → Result AuditError (List Row × ℕ)
  unfolding window_fault paged matching_rows
  query has_pool fault o rows = elim (window_fault max_audit_window o.start o.end) [
    | some false ↦ err window_invalid
    | some true ↦ err window_too_wide
    | none ↦ if not has_pool then err not_configured else elim fault [
      | some why ↦ err (failed_query (append "audit: query: " why))
      | none ↦ ok (paged o (matching_rows o rows))
    ]
  ]
