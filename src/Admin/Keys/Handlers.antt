-- ===== src/Admin/Keys/Handlers.antt =====
-- internal/server/admin_keys.go: the handlers.
pub mod Flow
use Prim.Native.String.{◌++◌ as append}
use x_beacon.Prelude.{
  ℕ, zero, suc, Bool, true, false, ◌||◌, ◌&&◌, not, ◌==◌, Result, ok, err, Option, none, some,
  String, List, [], ◌∷◌, ◌++◌, map, any, str_eq, if◌then◌else◌,
}
use x_beacon.Prelude.Int.{ℤ, pos, ltz}
use x_beacon.Errors.Http.{MappedError, answer}
use x_beacon.Auth.Keystore.{
  Scopes, KeyTable, KeyRecord, KeyError, Fault, key_not_found, key_error, KeyTools, Draw, Created,
  create_key, Revoked, revoke_key,
}
use x_beacon.Auth.Keystore.Listing.{ListOpts, list_keys}
use x_beacon.Audit.{key_create, key_revoke}
use x_beacon.Admin.Query.{bad_request, internal_error, parse_page}
use x_beacon.Admin.Keys.{
  KeyDto, CreateKeyRequest, ListQuery, KeyReply, refused, listed, created, revoked, Admin, KeyOut,
  expand_scopes, is_validation_error, key_text, all_tuples, record_audit,
}

unchanged : MappedError → KeyTable → KeyOut
unchanged e t = record { reply = refused e; table = t; audits = []; deleted = [] }

-- the reply to an error of the store, which has left the rows as they are
create_failed : KeyError → KeyTable → KeyOut
unfolding unchanged is_validation_error key_text bad_request internal_error
create_failed e t =
    if is_validation_error e
    then unchanged (bad_request "invalid_request" (key_text e)) t
    else unchanged (internal_error "Failed to create key") t

no_tuple : List String → Bool
no_tuple [] = true
no_tuple (s ∷ flat) = false

-- the options of List, or the refusal of a number
unfoldable pub list_options : (String → Option ℤ) → ListQuery → Result MappedError ListOpts
unfolding parse_page
list_options atoi q = elim (parse_page atoi q.limit q.offset) [
  | err m ↦ err m
  | ok (limit, offset) ↦ ok (record {
    name_prefix = q.q;
    include_revoked = str_eq q.include_revoked "true";
    limit = limit;
    offset = offset;
  })
]

module _ (k : KeyTools) (sort : List String → List String) (a : Admin) where
  unfoldable pub flatten_scopes : Scopes → List String
  unfolding all_tuples
  flatten_scopes m = sort (all_tuples m)

  unfoldable pub dto_from_record : KeyRecord → KeyDto
  unfolding flatten_scopes
  dto_from_record r = record {
    id = r.id;
    id_preview = r.id_preview;
    label = r.name;
    hash_hex_short = r.hash_hex_short;
    scopes = flatten_scopes r.scopes;
    created_at = r.created_at;
    last_used_at = r.last_used_at;
    revoked_at = r.revoked_at;
  }

  key_created : Created → KeyOut
  unfolding create_failed dto_from_record record_audit
  key_created (err e, t) = create_failed e t
  key_created (ok (rec, secret), t) = record {
    reply = created (dto_from_record rec) secret;
    table = t;
    audits = record_audit a key_create rec.id rec.name (flatten_scopes rec.scopes);
    deleted = [];
  }

  expanded : Draw → String → Result String Scopes → KeyTable → KeyOut
  unfolding unchanged bad_request key_created
  expanded d label (err why) t = unchanged (bad_request "invalid_scopes" why) t
  expanded d label (ok scopes) t = key_created (create_key k d label scopes t)

  -- createKeyHandler
  unfoldable pub create_key_handler : Draw → Result String CreateKeyRequest → KeyTable → KeyOut
  unfolding unchanged bad_request expanded no_tuple expand_scopes
  create_key_handler d (err why) t = unchanged (bad_request "" (append "Malformed JSON: " why)) t
  create_key_handler d (ok body) t =
      if str_eq body.label ""
      then unchanged (bad_request "missing_label" "Field 'label' is required") t
      else if no_tuple body.scopes
      then unchanged (bad_request "missing_scopes" "Field 'scopes' must contain at least one entry")
          t
      else expanded d body.label (expand_scopes body.scopes) t

  key_revoked : String → Revoked → KeyOut
  unfolding unchanged answer internal_error dto_from_record record_audit
  key_revoked id (err key_not_found, t, deleted) =
      unchanged (answer 404 "invalid_request_error" "key_not_found" (append "No key with id " id)) t
  key_revoked id (err (key_error msg), t, deleted) =
      unchanged (internal_error "Failed to revoke key") t
  key_revoked id (ok rec, t, deleted) = record {
    reply = revoked (dto_from_record rec);
    table = t;
    audits = record_audit a key_revoke rec.id rec.name [];
    deleted = deleted;
  }

  -- revokeKeyHandler
  unfoldable pub revoke_key_handler : Option Fault → Bool → String → ℕ → KeyTable → KeyOut
  unfolding unchanged bad_request key_revoked
  revoke_key_handler fault has_cache id now t =
      if str_eq id ""
      then unchanged (bad_request "missing_id" "Path param 'id' is required") t
      else key_revoked id (revoke_key k fault has_cache id now t)

  listed_page : Option String → Result MappedError ListOpts → KeyTable → KeyReply
  unfolding internal_error dto_from_record
  listed_page fault (err m) t = refused m
  listed_page (some why) (ok o) t = refused (internal_error "Failed to list keys")
  listed_page none (ok o) t =
      let (records, total) = list_keys k o t in listed (map dto_from_record records) total

  -- listKeysHandler
  unfoldable pub list_keys_handler :
      (String → Option ℤ) → Option String → ListQuery → KeyTable → KeyReply
  unfolding list_options listed_page
  list_keys_handler atoi fault q t = listed_page fault (list_options atoi q) t
