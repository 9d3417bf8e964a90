-- ===== src/Admin/Keys/Handlers/Flow.antt =====
-- What a client can do with the answer to a POST of a key.
use x_beacon.Prelude.{
  ◌≡◌, ◌⊎◌, Option, Bool, true, false, ℕ, ok, none, some, String, List, [], ◌∷◌, any,
}
use x_beacon.Auth.{Principal, has_scope}
use x_beacon.Auth.Keystore.{KeyRow, KeyTable, Fault, KeyTools, Draw, authenticate_row}
use x_beacon.Auth.Keystore.Rows.{is_lost}
use x_beacon.Auth.Keystore.Issue.{KeepsScopes}
use x_beacon.Auth.Keystore.Uses.{Use, used}
use x_beacon.Audit.{Entry, action_text, key_create}
use x_beacon.Admin.Keys.{
  KeyDto, CreateKeyRequest, KeyReply, refused, listed, created, revoked, Admin, KeyOut,
}
use x_beacon.Admin.Keys.Expand.{asks}

-- the secret of an answer gives the principal that was asked for
pub record Usable (k : KeyTools) (now : ℕ) (body : CreateKeyRequest) (t : KeyTable) (dto : KeyDto)
    (secret : String) : Type 0 where
  pub principal : Principal
  pub accepted :
      (uses : List (Use k)) → (authenticate_row k none now secret (used k uses t)).0 ≡ ok principal
  pub same_id : principal.id ≡ dto.id
  pub same_label : principal.name ≡ body.label
  pub same_scopes : (c v : String) → has_scope (some principal) c v ≡ any (asks c v) body.scopes

-- the entries of an audit log on a new key, where there is a recorder
abbrev pub Recorded : Bool → KeyDto → List Entry → Type 0
Recorded false dto audits = audits ≡ []
Recorded true dto audits =
    (e : Entry) × (audits ≡ e ∷ []) × (e.action ≡ action_text key_create) × (e.target_id ≡ dto.id)

-- what each kind of answer to a POST says
abbrev pub AnswersWell :
    KeyTools
    → ℕ
    → Bool
    → Option Fault
    → CreateKeyRequest
    → KeyTable
    → KeyReply
    → KeyTable
    → List Entry
    → Type 0
AnswersWell k now records fault body before (refused m) t audits =
    ((t ≡ before) ⊎ ((is_lost fault ≡ true) × ((r : KeyRow) × (t ≡ r ∷ before)))) × (audits ≡ [])
AnswersWell k now records fault body before (created dto secret) t audits =
    Usable k now body t dto secret × Recorded records dto audits
AnswersWell k now records fault body before (listed items total) t audits = ⊥
AnswersWell k now records fault body before (revoked dto) t audits = ⊥

module _ (k : KeyTools) (keeps : KeepsScopes k) (sort : List String → List String) (a : Admin)
    (now : ℕ) (d : Draw) (body : CreateKeyRequest) (t : KeyTable) where
  Well : KeyOut → Type 0
  Well out = AnswersWell k now a.records d.fault body t out.reply out.table out.audits
