-- ===== src/Tests/Admin.antt =====
-- A store of keys with one codec for one set of scopes, and an audit log of three rows.
use Prim.Native.String as Text
use x_beacon.Prelude.{
  ◌≡◌, refl, true, false, ◌&&◌, ok, Option, none, some, String, List, [], ◌∷◌, str_eq,
  if◌then◌else◌,
}
use x_beacon.Prelude.Int.{pos}
use x_beacon.Prelude.Runes.{take_runes}
use x_beacon.Auth.{Principal}
use x_beacon.Auth.Keystore.{
  Scopes, KeyRow, KeyRecord, KeyTools, Draw, no_scopes, as_object, generate_secret, is_active,
  record_of, create_key, revoke_key, authenticate_row,
}
use x_beacon.Auth.Keystore.Rows.{KeyOp, create, authenticate, run_ops}
use x_beacon.Auth.Keystore.Life.{revoked_for_good}
use x_beacon.Audit.{Row, Entry, QueryOpts}
use x_beacon.Admin.Keys.{Admin, CreateKeyRequest, KeyOut}
use x_beacon.Admin.Keys.Handlers.{create_key_handler}

abbrev webui : Scopes
webui = ("admin", "webui" ∷ []) ∷ []

abbrev encode : Scopes → Option String
encode [] = none
encode ((c, []) ∷ m) = none
encode ((c, v ∷ []) ∷ []) = if str_eq c "admin" && str_eq v "webui" then some "w" else none
encode ((c, v ∷ []) ∷ x ∷ m) = none
encode ((c, v ∷ w ∷ vals) ∷ m) = none

abbrev tools : KeyTools
tools = record {
  sha256 = λ s. s;
  hex = λ s. s;
  base64url = λ s. s;
  byte_length = λ s. Text.count s;
  first_bytes = λ n s. take_runes n s;
  scope_pattern = λ s. true;
  marshal = λ s. encode s;
  unmarshal = λ s. some webui;
  jsonb = λ s. s;
  like = λ name pattern. true;
  newest_first = λ t. t;
}

abbrev draw : Draw
draw = record { uuid = "key-1"; random = some "entropy"; now = 7; fault = none }

abbrev admin : Admin
admin = record { principal = none; request_id = "r"; records = true }

abbrev post : CreateKeyRequest
post = record { label = "ops"; scopes = "admin:webui" ∷ [] }

abbrev posted : KeyOut
posted = create_key_handler tools (λ l. l) admin draw (ok post) []

abbrev ops_row : KeyRow
ops_row = record {
  id = "key-1";
  key_hash = "sk-entropy";
  name = "ops";
  scopes = "w";
  created_at = 7;
  last_used_at = none;
  revoked_at = none;
}

abbrev revoked_record : KeyRecord
revoked_record = record_of tools (record ops_row { revoked_at = some 9 })

revokes : (revoke_key tools none true "key-1" 9 (ops_row ∷ [])).0 ≡ ok revoked_record
unfolding revoke_key
revokes = refl

abbrev other_draw : Draw
other_draw = record draw { uuid = "key-2"; random = some "more" }

abbrev later_ops : List KeyOp
later_ops = create other_draw "b" webui ∷ authenticate none 10 "sk-entropy" ∷ []

abbrev later_principal : Principal
later_principal = record { id = "key-2"; name = "b"; scopes = webui }

later_key :
    (authenticate_row tools none 11 "sk-more"
      (run_ops tools later_ops (revoke_key tools none true "key-1" 9 (ops_row ∷ [])).1)).0
    ≡ ok later_principal
unfolding authenticate_row create_key revoke_key generate_secret is_active no_scopes as_object
later_key = refl

revoked_for_good_example : str_eq "key-2" "key-1" ≡ false
revoked_for_good_example =
    revoked_for_good tools none true "key-1" 9 (ops_row ∷ []) revoked_record revokes later_ops none
      11 "sk-more" later_principal later_key

abbrev created_entry : Entry
created_entry = record {
  actor_id = "a";
  actor_label = "";
  action = "key.create";
  target_type = "api_key";
  target_id = "key-1";
  label = "ops";
  scopes = [];
  request_id = "r";
}

abbrev log : List Row
log =
    record { id = 2; occurred_at = 6; entry = created_entry }
    ∷ record { id = 1; occurred_at = 5; entry = created_entry }
    ∷ []

abbrev one_by_one : QueryOpts
one_by_one = record {
  start = 1;
  end = 10;
  actor_id = "";
  action = "";
  target_type = "";
  limit = pos 1;
  offset = pos 0;
}
