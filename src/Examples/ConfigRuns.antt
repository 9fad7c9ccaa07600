-- ===== src/Examples/ConfigRuns.antt =====
-- A configuration that is accepted, and one that is not.
use cloud_comp_project.Base.{
  ◌≡◌, ◌↔◌, refl, none, some, [], ◌∷◌, codes, text_eq, trim_space, is_space, decimal,
}
use cloud_comp_project.Config.{DatabaseConfig, Config, validate}
use cloud_comp_project.Config.Acceptance.{IsAcceptable, validate_iff}
use cloud_comp_project.Examples.EngineRuns.{config}

abbrev secure : DatabaseConfig
secure = record config.cloud_database { ssl_mode = codes " verify-full " }

abbrev acceptable : Config
acceptable = record config {
  cloud_database = secure;
  replication = record config.replication { tables = codes "public.orders" ∷ [] };
}

accepts : validate acceptable ≡ none
unfolding validate codes text_eq trim_space is_space decimal
accepts = refl

complains :
    validate (record acceptable { cloud_database = record secure { ssl_mode = codes "prefer" } })
    ≡ some (codes "cloud_database.ssl_mode must be one of: require, verify-ca, verify-full" ∷ [])
unfolding validate codes text_eq trim_space is_space decimal
complains = refl

validate_iff_example : (validate acceptable ≡ none) ↔ IsAcceptable acceptable
validate_iff_example = validate_iff acceptable
