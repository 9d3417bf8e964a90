-- ===== src/Admin/Keys.antt =====
-- internal/server/admin_keys.go and audit_helper.go: the endpoints on API keys. A request's body is
-- decoded by encoding/json, whose result is an argument; a reply is a value.
pub mod Expand
pub mod Handlers
use Prim.Native.Char.{code}
use Prim.Native.String as Text
use Prim.Native.String.{◌++◌ as append}
use x_beacon.Prelude.{
  ℕ, zero, suc, Bool, true, false, ◌||◌, ◌&&◌, not, ◌==◌, Result, ok, err, Option, none, some,
  String, List, [], ◌∷◌, ◌++◌, map, any, str_eq, if◌then◌else◌,
}
use x_beacon.Prelude.Int.{ℤ, pos, ltz}
use x_beacon.Prelude.Maps.{GoMap, lookup, put, remove, contains}
use x_beacon.Prelude.Runes.{take_runes}
use x_beacon.Errors.Http.{MappedError}
use x_beacon.Audit.{Action, action_text, Entry}
use x_beacon.Auth.{Principal, values}
use x_beacon.Auth.Keystore.{
  Scopes, KeyTable, KeyRecord, KeyError, key_not_found, key_error, KeyTools, Draw, Created,
  create_key, Revoked, revoke_key,
}
use x_beacon.Auth.Keystore.Listing.{ListOpts, list_keys}

pub record KeyDto : Type 0 where
  pub id : String
  pub id_preview : String
  pub label : String
  pub hash_hex_short : String
  pub scopes : List String
  pub created_at : ℕ
  pub last_used_at : Option ℕ
  pub revoked_at : Option ℕ

pub record CreateKeyRequest : Type 0 where
  pub label : String
  pub scopes : List String

-- the parameters of the query of a list; an absent one is empty
pub record ListQuery : Type 0 where
  pub q : String
  pub include_revoked : String
  pub limit : String
  pub offset : String

pub data KeyReply : Type 0 where
  refused : MappedError → KeyReply
  listed : List KeyDto → ℕ → KeyReply
  created : KeyDto → String → KeyReply  -- 201, with the secret
  revoked : KeyDto → KeyReply

-- the request's context, and whether there is a recorder
pub record Admin : Type 0 where
  pub principal : Option Principal
  pub request_id : String
  pub records : Bool

-- a reply, the rows, the audit entries, and the keys of the cache that are deleted
pub record KeyOut : Type 0 where
  pub reply : KeyReply
  pub table : KeyTable
  pub audits : List Entry
  pub deleted : List String

-- the texts before and after the first colon
unfoldable pub cut_colon : String → Option (String × String)
cut_colon Text.[] = none
cut_colon (Text.◌∷◌ c s) =
    let rest = cut_colon s in
    if code c == b':'
    then some ("", s)
    else elim rest [ none ↦ none | some (a, b) ↦ some (Text.◌∷◌ c a, b) ]

-- category and value of a tuple, neither of them empty
unfoldable pub split_tuple : String → Option (String × String)
unfolding cut_colon
split_tuple tuple = elim (cut_colon tuple) [
  | none ↦ none
  | some (cat, val) ↦ if str_eq cat "" || str_eq val "" then none else some (cat, val)
]

-- out[cat] = append(out[cat], val)
unfoldable pub add_value : String → String → Scopes → Scopes
add_value cat val out = put cat (values (lookup cat out) ++ val ∷ []) (remove cat out)

-- the loop of expandScopes
unfoldable pub expand_from : List String → List String → Scopes → Result String Scopes
unfolding split_tuple add_value
expand_from [] seen out = ok out
expand_from (tuple ∷ flat) seen out = elim (split_tuple tuple) [
  | none ↦ err (append "scope " (append tuple " must be in `category:value` form"))
  | some (cat, val) ↦
      expand_from flat (if contains tuple seen then seen else tuple ∷ seen)
        (if contains tuple seen then out else add_value cat val out)
]

unfoldable pub expand_scopes : List String → Result String Scopes
unfolding expand_from
expand_scopes flat = expand_from flat [] []

-- strings.Contains, as the loop of contains
unfoldable pub has_text : String → String → Bool
has_text sub Text.[] = str_eq sub ""
has_text sub (Text.◌∷◌ c s) =
    str_eq (take_runes (Text.count sub) (Text.◌∷◌ c s)) sub || has_text sub s

unfoldable pub is_validation_error : KeyError → Bool
unfolding has_text
is_validation_error key_not_found = has_text "must" "auth: key not found"
is_validation_error (key_error msg) =
    str_eq (take_runes 6 msg) "auth: "
    && any (λ word. has_text word msg) ("must" ∷ "required" ∷ "invalid" ∷ "has no values" ∷ [])

unfoldable pub key_text : KeyError → String
key_text key_not_found = "auth: key not found"
key_text (key_error msg) = msg

tuples : String → List String → List String
tuples cat [] = []
tuples cat (v ∷ vals) = append cat (append ":" v) ∷ tuples cat vals

unfoldable pub all_tuples : Scopes → List String
unfolding tuples
all_tuples [] = []
all_tuples ((cat, vals) ∷ m) = tuples cat vals ++ all_tuples m

-- recordAudit
unfoldable pub record_audit : Admin → Action → String → String → List String → List Entry
record_audit a action target_id label scopes =
    let (id, name) = elim a.principal as (λ p. String × String) [
      | none ↦ ("", "")
      | some p ↦ (p.id, p.name)
    ] in
    let entry : Entry = record {
      actor_id = if str_eq id "" then "unknown" else id;
      actor_label = name;
      action = action_text action;
      target_type = "api_key";
      target_id = target_id;
      label = label;
      scopes = scopes;
      request_id = a.request_id;
    } in
    if a.records then entry ∷ [] else []
