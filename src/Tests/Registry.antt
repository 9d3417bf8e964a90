-- ===== src/Tests/Registry.antt =====
-- A registry with an exact owner, two globs and a default provider.
use x_beacon.Prelude.{
  List, ◌≡◌, refl, Bool, Option, none, some, String, [], ◌∷◌, str_eq, if◌then◌else◌,
}
use x_beacon.Prelude.Maps.{contains, lookup}
use x_beacon.Registry.{Provider, Registry, add, add_globs, add_matched, resolve_chain}
use x_beacon.Registry.Loader.{ProviderConfig}
use x_beacon.Registry.Chain.{candidates, distinct, resolve_chain_lem}

abbrev alpha : Provider
alpha = record { name = "alpha"; supported_models = "m1" ∷ [] }

abbrev beta : Provider
beta = record { name = "beta"; supported_models = [] }

-- `*` matches everything, `[` is malformed
abbrev globs : String → String → Option Bool
globs p m = if str_eq p "[" then none else some (str_eq p "*")

abbrev registry : Registry
registry = record {
  state = record {
    names = "alpha" ∷ "beta" ∷ [];
    by_name = ("alpha", alpha) ∷ ("beta", beta) ∷ [];
    exact_index = ("m1", alpha) ∷ [];
    glob_rules =
        record { pattern = "["; provider = beta } ∷ record { pattern = "*"; provider = alpha } ∷ [];
    default_provider = some beta;
  };
}

resolve_chain_run : resolve_chain globs registry "m1" ≡ alpha ∷ beta ∷ []
unfolding resolve_chain add add_globs add_matched contains lookup
resolve_chain_run = refl

resolve_chain_example :
    resolve_chain globs registry "m1" ≡ distinct [] (candidates globs registry "m1")
resolve_chain_example = resolve_chain_lem globs registry "m1"

abbrev entries : List ProviderConfig
entries =
    record { name = "alpha"; type = "openai"; api_key = "k"; exact = "m1" ∷ []; glob = "*" ∷ [] }
    ∷ record { name = "beta"; type = "anthropic"; api_key = "k"; exact = "m2" ∷ []; glob = [] }
    ∷ []

abbrev loaded : Registry
loaded = record {
  state = record {
    names = "alpha" ∷ "beta" ∷ [];
    by_name =
        ("beta", record { name = "beta"; supported_models = "m2" ∷ [] }) ∷ ("alpha", alpha) ∷ [];
    exact_index =
        ("m2", record { name = "beta"; supported_models = "m2" ∷ [] }) ∷ ("m1", alpha) ∷ [];
    glob_rules = record { pattern = "*"; provider = alpha } ∷ [];
    default_provider = some alpha;
  };
}
