-- ===== src/Build/Shipwright/Laws.antt =====
-- What the Shipwright Build of a spec says.
use environments.Common.{
  String, ◌≡◌, refl, ◌≢◌, ◌⊎◌, inl, inr, Bool-cases, Option, none, some, ok, ok-injective, ◌==◌,
  arith, eq_iff, subst, [], ◌∷◌,
}
use environments.Build.Object.{BuildObject, annotation}
use environments.Build.Image.{replace_image_tag}
use environments.Build.Mapper.{BuildSpec}
use environments.Build.Trigger.{trigger_sha}
use environments.Build.Shipwright.{
  ShipwrightBuild, secret_ref, triggered, tagged_image, build_object, create_build_spec,
}

-- `chosen` without a commit, else `replaced`
abbrev pub Triggered : String → String → String → String → Type 0
Triggered sha chosen replaced s = ((sha ≡ "") × (s ≡ chosen)) ⊎ ((sha ≢ "") × (s ≡ replaced))

abbrev pub RefersTo : String → Option String → Type 0
RefersTo name o = ((name ≡ "") × (o ≡ none)) ⊎ ((name ≢ "") × (o ≡ some name))

-- The Build has the key of the object, its labels and the source, strategy, output and secrets of
-- the spec; the commit of a trigger in the object's annotations replaces the revision and the
-- image's tag.
pub record IsMadeOf (spec : BuildSpec) (b : BuildObject) (s : ShipwrightBuild) : Type 0 where
  pub name : s.name ≡ b.name
  pub namespace : s.namespace ≡ b.namespace
  pub labels :
      s.labels ≡ ("build.blanketops.dev/name", b.name) ∷ ("strategy", spec.strategy_name) ∷ []
  pub source_url : s.source_url ≡ spec.source_url
  pub filled_source : spec.source_url ≢ ""
  pub context_dir : s.context_dir ≡ spec.context_dir
  pub strategy_name : s.strategy_name ≡ spec.strategy_name
  pub strategy_kind : s.strategy_kind ≡ spec.strategy_kind
  pub source_credentials : RefersTo spec.clone_secret s.source_credentials
  pub output_credentials : RefersTo spec.service_account_secret s.output_credentials
  pub filled_image : spec.image ≢ ""
  pub revision :
      Triggered (annotation b trigger_sha) spec.revision (annotation b trigger_sha) s.revision
  pub output_image :
      Triggered
        (annotation b trigger_sha)
        spec.image
        (replace_image_tag spec.image (annotation b trigger_sha))
        s.output_image

secret_ref-RefersTo : (name : String) → RefersTo name (secret_ref name)
unfolding secret_ref
secret_ref-RefersTo name = elim (Bool-cases (name == "")) [
  | inl empty ↦ rw empty (inl ((eq_iff name "").0 empty, refl))
  | inr filled ↦ rw filled (inr (λ e. ground (arith, eq_iff name ""), refl))
]

triggered-Triggered : (sha declared : String) → Triggered sha declared sha (triggered sha declared)
unfolding triggered
triggered-Triggered sha declared = elim (Bool-cases (sha == "")) [
  | inl empty ↦ rw empty (inl ((eq_iff sha "").0 empty, refl))
  | inr filled ↦ rw filled (inr (λ e. ground (arith, eq_iff sha ""), refl))
]

tagged_image-Triggered :
    (sha image : String)
    → Triggered sha image (replace_image_tag image sha) (tagged_image sha image)
unfolding tagged_image
tagged_image-Triggered sha image = elim (Bool-cases (sha == "")) [
  | inl empty ↦ rw empty (inl ((eq_iff sha "").0 empty, refl))
  | inr filled ↦ rw filled (inr (λ e. ground (arith, eq_iff sha ""), refl))
]

build_object-IsMadeOf :
    (spec : BuildSpec) (b : BuildObject)
    → spec.source_url ≢ ""
    → spec.image ≢ ""
    → IsMadeOf spec b (build_object spec b (annotation b trigger_sha))
unfolding build_object
build_object-IsMadeOf spec b source image = record {
  name = refl;
  namespace = refl;
  labels = refl;
  source_url = refl;
  filled_source = source;
  context_dir = refl;
  strategy_name = refl;
  strategy_kind = refl;
  source_credentials = secret_ref-RefersTo spec.clone_secret;
  output_credentials = secret_ref-RefersTo spec.service_account_secret;
  filled_image = image;
  revision = triggered-Triggered (annotation b trigger_sha) spec.revision;
  output_image = tagged_image-Triggered (annotation b trigger_sha) spec.image;
}

pub create_build_spec-IsMadeOf :
    (spec : BuildSpec) (b : BuildObject) (s : ShipwrightBuild)
    → create_build_spec spec b ≡ ok s
    → IsMadeOf spec b s
unfolding create_build_spec
create_build_spec-IsMadeOf spec b s h = elim (Bool-cases (spec.source_url == "")) [
  | inl empty ↦ cc (rw empty at h)
  | inr url ↦ elim (Bool-cases (spec.image == "")) [
    | inl empty ↦ cc (rw (url, empty) at h)
    | inr image ↦ subst (IsMadeOf spec b) (ok-injective (rw (url, image) at h)) (
        build_object-IsMadeOf spec b (λ e. ground (arith, eq_iff spec.source_url ""))
          λ e. ground (arith, eq_iff spec.image ""))
  ]
]
