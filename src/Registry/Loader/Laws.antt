-- ===== src/Registry/Loader/Laws.antt =====
-- A registry that has been built serves every entry of its file.
use x_beacon.Prelude.{
  ◌≡◌, ◌≢◌, Bool, ok, Option, none, some, String, List, [], ◌∷◌, All, str_eq, false,
}
use x_beacon.Prelude.Maps.{lookup}
use x_beacon.Registry.{Provider, RegistryState, Registry}
use x_beacon.Registry.Loader.{ProviderConfig, Loading, construct_provider}
use x_beacon.Registry.Loader.Steps.{Claimed}

-- an entry that a registry serves: its provider is there under its name, and under every exact
-- model, and its patterns are well-formed
pub record Serves (path_match : String → String → Option Bool) (st : RegistryState)
    (pc : ProviderConfig) : Type 0 where
  pub provider : Provider
  pub constructed : construct_provider pc ≡ ok provider
  pub by_its_name : lookup pc.name st.by_name ≡ some provider
  pub by_its_models : All (λ m. lookup m st.exact_index ≡ some provider) pc.exact
  pub well_formed : All (λ g. path_match g "" ≢ none) pc.glob

-- no two entries have one name
abbrev pub HaveOwnNames : List ProviderConfig → Type 0
HaveOwnNames [] = Unit
HaveOwnNames (pc ∷ configs) =
    All (λ q. str_eq pc.name q.name ≡ false) configs × HaveOwnNames configs

module _ (path_match : String → String → Option Bool) where
  -- the same while the loop runs
  record Loaded (l : Loading) (pc : ProviderConfig) : Type 0 where
    provider : Provider
    constructed : construct_provider pc ≡ ok provider
    by_its_name : lookup pc.name l.state.by_name ≡ some provider
    by_its_models : All (λ m. Claimed l m provider) pc.exact
    well_formed : All (λ g. path_match g "" ≢ none) pc.glob
