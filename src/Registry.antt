-- ===== src/Registry.antt =====
-- internal/provider/registry/registry.go: the table of providers and the resolution of a model.
pub mod Chain
pub mod Loader
use x_beacon.Prelude.{
  ℕ, ◌≡◌, Bool, true, false, Result, ok, err, Option, none, some, String, List, [], ◌∷◌, ◌++◌,
  str_eq, if◌then◌else◌,
}
use x_beacon.Prelude.Maps.{GoMap, lookup, contains}
use x_beacon.Errors.{Err, bare, wrapped, other, no_provider_for_model}

-- a provider adapter: its name, and what SupportedModels returns (by model ID)
pub record Provider : Type 0 where
  pub name : String
  pub supported_models : List String

pub record GlobRule : Type 0 where
  pub pattern : String
  pub provider : Provider

pub record RegistryState : Type 0 where
  pub names : List String
  pub by_name : GoMap Provider
  pub exact_index : GoMap Provider
  pub glob_rules : List GlobRule
  pub default_provider : Option Provider

unfoldable pub new_empty : RegistryState
new_empty = record {
  names = [];
  by_name = [];
  exact_index = [];
  glob_rules = [];
  default_provider = none;
}

-- the registry holds one pointer to a state
pub record Registry : Type 0 where
  pub state : RegistryState

-- r.Swap(from): the pointer is replaced, `from` stays as it is
unfoldable pub swap : Registry → Registry → Registry
swap r from = record { state = from.state }

unfoldable pub get_by_name : Registry → String → Result Err Provider
get_by_name r name = elim (lookup name r.state.by_name) [
  | none ↦ err (other "registry: unknown provider")
  | some p ↦ ok p
]

-- the closure `add` of ResolveChain; `seen` is the set of names
unfoldable pub add : Option Provider → List String × List Provider → List String × List Provider
add none (seen, chain) = (seen, chain)
add (some p) (seen, chain) =
    if contains p.name seen then (seen, chain) else (p.name ∷ seen, chain ++ p ∷ [])

-- one glob rule; the answer of `path.Match` is none for a malformed pattern
unfoldable pub add_matched :
    Option Bool → Provider → List String × List Provider → List String × List Provider
add_matched none p s = s
add_matched (some false) p s = s
add_matched (some true) p s = add (some p) s

module _ (path_match : String → String → Option Bool) where
  unfoldable pub add_globs :
      String → List GlobRule → List String × List Provider → List String × List Provider
  add_globs model [] s = s
  add_globs model (rule ∷ rules) s =
      add_globs model rules (add_matched (path_match rule.pattern model) rule.provider s)

  unfoldable pub resolve_chain : Registry → String → List Provider
  resolve_chain r model =
      (add r.state.default_provider
        (add_globs model r.state.glob_rules (add (lookup model r.state.exact_index) ([], [])))).1

  unfoldable pub resolve_model : Registry → String → Result Err Provider
  resolve_model r model = elim (resolve_chain r model) [
    | [] ↦ err (wrapped model (bare no_provider_for_model))
    | p ∷ ps ↦ ok p
  ]
