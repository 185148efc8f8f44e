-- ===== src/Build/Mapper/Examples.antt =====
-- A resolved Build is mapped.
use environments.Common.{ℕ, String, ◌≡◌, refl, some, List, Result, ok, same_number}
use environments.Json.{Fields, str, obj, arr, cons, nil, end, field}
use environments.Resolution.Build.{Uint32Of}
use environments.Build.Object.{BuildObject}
use environments.Build.Mapper.{map_resolved_to_domain, BackendSelector, for_spec}
use environments.Build.Samples.{resolved_build, mapped}
use environments.Samples.{bytes, same_number_iff}

abbrev uints : Uint32Of ℕ ℕ
uints = record {
  zero32 = 0;
  of_float64 = λ n. n;
  is_zero = λ n. same_number n 0;
  is_zero_iff = λ n. same_number_iff n 0;
}

abbrev policy : Fields ℕ
policy = field "allowedTriggers" (arr (cons (obj (field "type" (str "push") end)) nil)) end

abbrev source : Fields ℕ
source = field "url" (str "https://github.com/acme/app") (field "revision" (str "main") end)

abbrev contract : Fields ℕ
contract = field "source" (obj source) (
    field "image" (str "ghcr.io/acme/app:v1") (
      field "strategy"
        (obj (field "name" (str "kaniko") (field "kind" (str "ClusterBuildStrategy") end)))
        (field "policy" (obj policy) end)))

abbrev raw : BuildObject → List ℕ
raw b = bytes

abbrev unmarshal : List ℕ → Result (Fields ℕ)
unmarshal _ = ok contract

map_resolved_to_domain_test : map_resolved_to_domain (some resolved_build) ≡ ok mapped
unfolding map_resolved_to_domain
map_resolved_to_domain_test = refl

abbrev backend : BackendSelector String
backend = record { buildah = "buildah"; kaniko = "kaniko"; buildpacks = "buildpacks" }

for_spec_test : for_spec backend mapped ≡ "kaniko"
unfolding for_spec
for_spec_test = refl
