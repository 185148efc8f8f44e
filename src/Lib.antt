-- ===== src/Lib.antt =====
-- BlanketOps Environments: a model of the operator's own logic, and the theorems that make it correct.
--
-- A custom resource carries its specification as a JSON contract. A controller turns an event into a
-- command, and the engine (core/engine) routes it by kind to a Domain from the registry
-- (core/registry). The Domain decodes and validates the contract (resolution/*/resolve). For a
-- Deployment the resolved specs become a plan (pkg/intent), which a service executes and records
-- (pkg/apis/deployment). For a Build it becomes a Shipwright Build and one BuildRun for each execution
-- hash (pkg/apis/build); for a Package, an App of kapp-controller (pkg/apis/packages). Outcomes are
-- written as conditions (core/conditions, status writers) beside other writers, and a resolved spec
-- may be published to a cache (cache). A predicate (core/predicates) decides which updates start the
-- next round.
--
-- Files, and the code that each models:
--   Json: a decoded contract, Go's map[string]any, and the helpers mustString, requireString,
--     optionalString and optionalBool that every resolution package declares again.
--   Resolution.Contract: the beginning of every resolver (nil, empty contract, json.Unmarshal).
--   Resolution.Route, ServiceUnit, Domain, Deployment, Build, Environment, Packages:
--     resolution/<kind>/resolve/resolve.go. Each Resolve function is resolve_<kind>; its part after
--     decoding is resolve_<kind>_spec, with one function for each section of the contract.
--   Resolution.Deployment.Contract: resolution/deployment/contract/contract_adapter.go.
--   Intent: pkg/intent/deployment/intent_builder.go (Build, BuildTeardown) and
--     pkg/intent/serviceunit/serviceunit.go.
--   Deployment.Provider: pkg/apis/deployment/api/kubernetes.go.
--   Deployment.Strategy: pkg/apis/deployment/strategy/runtime.go and kubernetes.go, and Failure of
--     pkg/apis/deployment/domain/errors.go.
--   Deployment.Executor: pkg/apis/deployment/reconcile/reconciliation.go.
--   Deployment.Service: pkg/apis/deployment/application/service.go.
--   Deployment.Recording: pkg/apis/deployment/application/status.go.
--   Build.Mapper: mapper.go and backend_selector.go of pkg/apis/build/application.
--   Build.Image, Build.Trigger, Build.Shipwright: image references and hashes, the identity of an
--     execution, and the Shipwright objects that are made for it (pkg/apis/build/api/kaniko.go,
--     trigger_context.go, declared.go, pkg/apis/build/domain/model.go, pkg/utils/util.go).
--   Build.Provider: Run and Teardown of the Kaniko, Buildah and Buildpacks providers in
--     pkg/apis/build/api. Build.Service: pkg/apis/build/application/service.go.
--   Package: pkg/apis/packages/domain. Package.Plan: pkg/intent/package/builder.go and mapper.go of
--     pkg/apis/packages/application. Package.Status, Package.Service: status.go, service.go and
--     backend_selector.go there. Package.App: the two providers in pkg/apis/packages/api.
--   Resolution.GitHubEvent: resolution/githubevent, the resolver and the contract adapter.
--   Resolution.Build.Contract, Resolution.Route.Contract, Resolution.Domain.Contract:
--     resolution/<kind>/contract/contract_adapter.go.
--   Cache: cache/objectcache.go, the interface of core/cache/cache.go and cache/setup.go. Cache.Publish
--     and Cache.Fields: PublishResolved of cache/<kind>/<kind>.go.
--   Core.Conditions: core/conditions/conditions.go; mergeCondition and removeCondition of
--     pkg/apis/build/application/status.go.
--   Status: Write and WriteReplacing of pkg/apis/build/application/status.go.
--   Core.Registry, Core.Engine, Core.Predicates: core/registry/registry.go, core/engine/engine.go with
--     core/command/command.go, core/predicates/predicates.go.
--   Core.Pool: the worker pool of core/engine/engine.go, as a relation between states. One step is a
--     send, a receive, the return of an execution, the close of the stop channel or the exit of a
--     worker, in any order that Go's select allows.
--   Common, Samples: shared types and lemmas; values for the Examples modules.
-- In each component, Laws hold proofs (and Sections, Policy, Modes, Units, Rolling, Teardown, Writes
-- the predicates and lemmas of one part), and Examples hold tests.
--
-- The state of the cluster is a type W that is passed on; a call on it is a function that returns an
-- error and the next world. Loops run over lists; only the digits of a number are
-- printed on fuel, for which the number itself is enough. An error keeps its format and
-- arguments; %q and %w are not expanded. Times are left out, or given as an argument.
--
-- Parameters, for code outside the repository: json.Unmarshal and float64; Go's int32 and uint32 where
-- the code only converts to them; the generated protobuf enums; the custom resource types;
-- controller-runtime's client and its SetControllerReference; encoding/json with SHA-256; what the
-- generated enums print; the API server and client-go's RetryOnConflict, by optimistic
-- concurrency (Status.Api); the condition types of kapp-controller; reflect.DeepEqual; the circuit
-- breaker and the Domains' handlers. The provider that commits manifests for Kustomize is an interface
-- here; the service takes the write of its status as an argument, which Deployment.Recording models.
--
-- Not modelled: the GitRepository resolver and the other contract adapters, the Redis and
-- Memcached adapters, the services of the other kinds, events, secrets and service accounts. They
-- repeat the patterns above or build objects of third-party APIs.
pub mod Build
pub mod Cache
pub mod Common
pub mod Core
pub mod Deployment
pub mod Intent
pub mod Json
pub mod Package
pub mod Resolution
pub mod Samples
pub mod Status
