-- ===== src/Package/Plan/Laws.antt =====
-- The two forms of a resolved Package agree, but for the path of its repository.
use environments.Common.{
  ℕ, String, ◌≡◌, refl, ap, ◌≢◌, ◌⊎◌, inl, inr, Bool, true, false, Option, none, some, List, [],
  ◌∷◌, ◌==◌, if◌then◌else◌, Error, Result, ok, err, Result-cases, ◌>>=◌, arith, eq_iff,
}
use text.Mathlib.Text.{starts_with}
use environments.Json.{Fields}
use environments.Build.Object.{StringMap}
use environments.Resolution.Packages.{ResolvedPackage, resolve_package}
use environments.Resolution.Packages.Laws.{resolve_package-IsPackageOf}
use environments.Package.{PackageObject, ApplyStrategy, parse_apply_strategy}
use environments.Package.Plan.{
  PackageIntent, PackageSpec, label_prefix, blanketops_labels, state_repository_of,
  intent_of_package, build_package_intent, spec_of_package, map_package,
}

abbrev pub label? : String → StringMap → Option String
label? key [] = none
label? key ((k, v) ∷ labels) = if k == key then some v else label? key labels

kept_label :
    (key k v : String) (labels kept : StringMap) (hit : Bool)
    → (k ≡ key → hit ≡ starts_with key label_prefix)
    → label? key kept ≡ (if starts_with key label_prefix then label? key labels else none)
    → label? key (if hit then (k, v) ∷ kept else kept)
      ≡ (if starts_with key label_prefix then label? key ((k, v) ∷ labels) else none)
kept_label key k v labels kept true same later = ground (arith, eq_iff k key, same, later)
kept_label key k v labels kept false same later = ground (arith, eq_iff k key, same, later)

label?-blanketops_labels :
    (key : String) (labels : StringMap)
    → label? key (blanketops_labels labels)
      ≡ (if starts_with key label_prefix then label? key labels else none)
unfolding blanketops_labels
label?-blanketops_labels key [] = ground arith
label?-blanketops_labels key ((k, v) ∷ labels) =
    kept_label key k v labels (blanketops_labels labels) (starts_with k label_prefix)
      (ap λ t. starts_with t label_prefix) (label?-blanketops_labels key labels)

-- Neither form can be made of a strategy that is none of the four.
abbrev pub Unknown : String → Type 0
Unknown s = (s ≢ "kustomization") × (s ≢ "kustomize") × (s ≢ "") × (s ≢ "plain")

parse_apply_strategy-Unknown : (s : String) (e : Error) → parse_apply_strategy s ≡ err e → Unknown s
unfolding parse_apply_strategy
parse_apply_strategy-Unknown s e h = (
  λ same. ground (arith, eq_iff s "kustomization"),
  λ same. ground (arith, eq_iff s "kustomize"),
  λ same. ground (arith, eq_iff s ""),
  λ same. ground (arith, eq_iff s "plain"),
)

-- The strategy that a resolved Package declares, empty without a state repository.
abbrev pub strategy_text : ResolvedPackage PackageObject → String
strategy_text rp = (state_repository_of rp.spec.state_repository).strategy

pub record Agrees (rp : ResolvedPackage PackageObject) (i : PackageIntent) (s : PackageSpec)
    : Type 0 where
  pub id : i.id ≡ s.id
  pub url : i.source.repository_url ≡ s.source.repository_url
  pub secret : i.source.credentials_secret ≡ s.source.credentials_secret
  pub path : i.source.path ≡ rp.spec.package_repository.path
  pub pathless : s.source.path ≡ ""
  pub state : i.state_repo ≡ s.state_repo
  pub diff : i.diff_enabled ≡ s.diff_enabled
  pub strategy : parse_apply_strategy (strategy_text rp) ≡ ok i.strategy
  pub same_strategy : i.strategy ≡ s.strategy
  pub ref : i.resolved_ref ≡ rp.spec.package_repository.ref
  pub labels :
      (key : String)
      → label? key i.labels
        ≡ (if starts_with key label_prefix then label? key rp.packages.labels else none)

intent_of_package-Agrees :
    (rp : ResolvedPackage PackageObject) (strategy : ApplyStrategy)
    → parse_apply_strategy (strategy_text rp) ≡ ok strategy
    → Agrees rp (intent_of_package rp strategy) (spec_of_package rp strategy)
unfolding intent_of_package spec_of_package
intent_of_package-Agrees rp strategy parsed = record {
  id = refl;
  url = refl;
  secret = refl;
  path = refl;
  pathless = refl;
  state = refl;
  diff = refl;
  strategy = parsed;
  same_strategy = refl;
  ref = refl;
  labels = λ key. label?-blanketops_labels key rp.packages.labels;
}

-- The mapper's two guards do not stop a spec with a name and a version.
map_package_lem :
    (rp : ResolvedPackage PackageObject)
    → rp.spec.name ≢ ""
    → rp.spec.version ≢ ""
    → map_package (some rp)
      ≡ (parse_apply_strategy (strategy_text rp) >>= λ strategy. ok (spec_of_package rp strategy))
unfolding map_package
map_package_lem rp named versioned =
    ground (arith, eq_iff rp.spec.name "", eq_iff rp.spec.version "")

-- Both forms are there and agree, or neither is, for one reason.
abbrev pub PlannedTogether : ResolvedPackage PackageObject → Type 0
PlannedTogether rp =
    ((i : PackageIntent) × (s : PackageSpec) × (build_package_intent (some rp) ≡ ok i)
      × (map_package (some rp) ≡ ok s)
      × Agrees rp i s)
    ⊎ ((e : Error) × Unknown (strategy_text rp)
        × (build_package_intent (some rp) ≡ err e)
        × (map_package (some rp) ≡ err e))

named_PlannedTogether :
    (rp : ResolvedPackage PackageObject)
    → rp.spec.name ≢ ""
    → rp.spec.version ≢ ""
    → PlannedTogether rp
unfolding build_package_intent
named_PlannedTogether rp named versioned =
    let mapped = map_package_lem rp named versioned in
    elim (Result-cases (parse_apply_strategy (strategy_text rp))) [
      | inl (strategy, parsed) ↦ inl (
        intent_of_package rp strategy,
        spec_of_package rp strategy,
        rw parsed refl,
        rw (mapped, parsed) refl,
        intent_of_package-Agrees rp strategy parsed,
      )
      | inr (e, refused) ↦ inr (
        e,
        parse_apply_strategy-Unknown (strategy_text rp) e refused,
        rw refused refl,
        rw (mapped, refused) refl,
      )
    ]

-- Of a Package that resolution accepts, the plan and the domain spec are made together, or both fail
-- with one error, which happens only for a declared strategy that is none of kustomization,
-- kustomize, plain and the empty one. Where they are made they have the same identity, repository,
-- secret, state repository, diff setting and strategy; the plan has the path and the ref of the
-- repository, and of the Package's labels exactly those with BlanketOps's prefix; the domain spec
-- has no path.
pub resolve_package-PlannedTogether :
    {Float64 : Type 0} (raw : PackageObject → Option (List ℕ))
    (unmarshal : List ℕ → Result (Fields Float64)) (o : PackageObject)
    (rp : ResolvedPackage PackageObject)
    → resolve_package raw unmarshal (some o) ≡ ok rp
    → PlannedTogether rp
resolve_package-PlannedTogether raw unmarshal o rp h =
    let (_, (bytes, m, there, decoded, valid)) = resolve_package-IsPackageOf raw unmarshal o rp h in
    named_PlannedTogether rp valid.name.filled valid.version.filled
