-- ===== src/Registry/Loader.antt =====
-- internal/provider/registry/loader.go: from the entries of a providers file, once it is parsed, to
-- a registry. The texts of the errors are shortened to their reasons.
pub mod Steps
pub mod Laws
use x_beacon.Prelude.{
  ℕ, ◌≡◌, Bool, true, false, ◌||◌, Result, ok, err, Option, none, some, String, List, [], ◌∷◌, ◌++◌,
  str_eq, if◌then◌else◌,
}
use x_beacon.Prelude.Maps.{GoMap, lookup, put}
use x_beacon.Registry.{Provider, GlobRule, RegistryState, Registry, new_empty}

-- providerConfig; what only the HTTP client of the adapter uses is left out
pub record ProviderConfig : Type 0 where
  pub name : String
  pub type : String
  pub api_key : String
  pub exact : List String
  pub glob : List String

-- the variables of build
pub record Loading : Type 0 where
  pub state : RegistryState
  pub exact_owner : GoMap String
  pub errs : List String

unfoldable pub refuse : String → Loading → Loading
refuse why l = record l { errs = l.errs ++ why ∷ [] }

-- validateProviderConfig, by the first of its reasons
unfoldable pub config_fault : ProviderConfig → Option String
config_fault pc =
    if str_eq pc.name ""
    then some "name is required"
    else if str_eq pc.type ""
    then some "type is required"
    else elim pc.exact [
      | _ ∷ _ ↦ none
      | [] ↦ elim pc.glob [
        | [] ↦ some "at least one model (exact or glob) is required"
        | _ ∷ _ ↦ none
      ]
    ]

-- openai.New, deepseek.New and anthropic.New, as far as they can fail
unfoldable pub new_adapter : ProviderConfig → Result String Provider
new_adapter pc =
    if str_eq pc.name ""
    then err "Config.Name is required"
    else if str_eq pc.api_key ""
    then err "Config.APIKey is required"
    else ok (record { name = pc.name; supported_models = pc.exact })

unfoldable pub construct_provider : ProviderConfig → Result String Provider
unfolding new_adapter
construct_provider pc =
    if str_eq pc.type "openai" || str_eq pc.type "deepseek" || str_eq pc.type "anthropic"
    then new_adapter pc
    else err "unknown provider type"

-- one exact model, which has no owner yet, or has one
claim_model : Provider → String → Option String → Loading → Loading
unfolding refuse
claim_model p m (some owner) l = refuse "model already claimed" l
claim_model p m none l = record l {
  exact_owner = put m p.name l.exact_owner;
  state = record (l.state) { exact_index = put m p l.state.exact_index };
}

unfoldable pub load_exact : Provider → List String → Loading → Loading
unfolding claim_model
load_exact p [] l = l
load_exact p (m ∷ models) l = load_exact p models (claim_model p m (lookup m l.exact_owner) l)

-- one pattern, by what path.Match says of it
add_glob : Provider → String → Option Bool → Loading → Loading
unfolding refuse
add_glob p g none l = refuse "invalid glob" l
add_glob p g (some b) l = record l {
  state = record (l.state) {
    glob_rules = l.state.glob_rules ++ record { pattern = g; provider = p } ∷ [];
  };
}

register : Provider → Loading → Loading
register p l = record l {
  state = record (l.state) {
    names = l.state.names ++ p.name ∷ [];
    by_name = put p.name p l.state.by_name;
  };
}

module _ (path_match : String → String → Option Bool) where
  unfoldable pub load_globs : Provider → List String → Loading → Loading
  unfolding add_glob
  load_globs p [] l = l
  load_globs p (g ∷ globs) l = load_globs p globs (add_glob p g (path_match g "") l)

  load_constructed : ProviderConfig → Result String Provider → Loading → Loading
  unfolding refuse register load_exact load_globs
  load_constructed pc (err why) l = refuse why l
  load_constructed pc (ok p) l = load_globs p pc.glob (load_exact p pc.exact (register p l))

  load_named : ProviderConfig → Option Provider → Loading → Loading
  unfolding refuse load_constructed
  load_named pc (some p) l = refuse "duplicate name" l
  load_named pc none l = load_constructed pc (construct_provider pc) l

  load_checked : ProviderConfig → Option String → Loading → Loading
  unfolding refuse load_named
  load_checked pc (some why) l = refuse why l
  load_checked pc none l = load_named pc (lookup pc.name l.state.by_name) l

  -- one turn of the loop over the entries
  unfoldable pub load_provider : ProviderConfig → Loading → Loading
  unfolding load_checked
  load_provider pc l = load_checked pc (config_fault pc) l

  unfoldable pub load_providers : List ProviderConfig → Loading → Loading
  unfolding load_provider
  load_providers [] l = l
  load_providers (pc ∷ configs) l = load_providers configs (load_provider pc l)

  default_found : Option Provider → Loading → Loading
  unfolding refuse
  default_found none l = refuse "default_provider not registered" l
  default_found (some p) l = record l { state = record (l.state) { default_provider = some p } }

  unfoldable pub load_default : String → Loading → Loading
  unfolding default_found
  load_default name l = if str_eq name "" then l else default_found (lookup name l.state.by_name) l

  finished : RegistryState → List String → Result (List String) Registry
  finished st [] = ok (record { state = st })
  finished st (e ∷ errs) = err (e ∷ errs)

  built : Loading → Result (List String) Registry
  unfolding finished
  built l = finished l.state l.errs

  -- build
  unfoldable pub build : List ProviderConfig → String → Result (List String) Registry
  unfolding built
  build [] default = err ("providers list is empty" ∷ [])
  build (pc ∷ configs) default = built (
      load_default default
        (load_providers (pc ∷ configs) (record { state = new_empty; exact_owner = []; errs = [] })))
