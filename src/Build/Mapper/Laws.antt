-- ===== src/Build/Mapper/Laws.antt =====
-- A Build that resolution accepts is always mapped.
use environments.Common.{String, ◌≡◌, ◌≢◌, ◌⊎◌}
use environments.Resolution.Build.{
  ResolvedBuildSpec, strategy_kind_cluster, strategy_kind_namespaced,
}
use environments.Build.Mapper.{BuildSpec, account_name, account_secret}

-- the kind that Shipwright knows for the contract's one
abbrev pub KindOf : String → String → Type 0
KindOf declared kind =
    ((declared ≡ strategy_kind_cluster) × (kind ≡ "ClusterBuildStrategy"))
    ⊎ ((declared ≡ strategy_kind_namespaced) × (kind ≡ "BuildStrategy"))

module _ {Uint32 : Type 0} where
  -- The spec declares what the resolved Build does, and what a Shipwright Build cannot do without.
  pub record IsMapped (rs : ResolvedBuildSpec Uint32) (spec : BuildSpec) : Type 0 where
    pub url : spec.source_url ≡ rs.source.url
    pub url_present : spec.source_url ≢ ""
    pub image : spec.image ≡ rs.image
    pub image_present : spec.image ≢ ""
    pub revision : spec.revision ≡ rs.source.revision
    pub context_dir : spec.context_dir ≡ rs.source.context_dir
    pub clone_secret : spec.clone_secret ≡ rs.source.clone_secret
    pub strategy : spec.strategy_name ≡ rs.strategy.name
    pub kind : KindOf rs.strategy.strategy_kind spec.strategy_kind
    pub account : spec.service_account_secret ≡ account_secret rs.service_account

  spec_of : ResolvedBuildSpec Uint32 → String → BuildSpec
  spec_of rs kind = record {
    source_url = rs.source.url;
    context_dir = rs.source.context_dir;
    revision = rs.source.revision;
    clone_secret = rs.source.clone_secret;
    strategy_name = rs.strategy.name;
    strategy_kind = kind;
    image = rs.image;
    service_account_name = account_name rs.service_account;
    service_account_secret = account_secret rs.service_account;
  }
