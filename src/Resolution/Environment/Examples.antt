-- ===== src/Resolution/Environment/Examples.antt =====
-- A contract with a Vault store, and the theorem about Environments at it.
use environments.Common.{ℕ, some, List, [], ◌∷◌, Result, ok}
use environments.Json.{Fields, str, obj, arr, cons, nil, end, field}
use environments.Resolution.Environment.{ResolvedEnvironmentSpec, ResolvedEnvironment}
use environments.Samples.{bytes}

abbrev vault : Fields ℕ
vault =
    field "address" (str "https://vault")
      (field "path" (str "secret") (field "role" (str "shop") (field "version" (str "v1") end)))

abbrev contract : Fields ℕ
contract = field "applicationName" (str "shop") (
    field "branch" (str "main") (
      field "gitOwner" (str "example") (
        field "environmentType" (str "staging") (
          field "version" (str "1") (
            field "build" (obj (field "name" (str "app-build") end)) (
              field "serviceUnits" (arr (cons (obj (field "name" (str "app") end)) nil)) (
                field "secretStore"
                  (obj (field "provider" (str "vault") (field "vault" (obj vault) end))) end)))))))

abbrev unmarshal : List ℕ → Result (Fields ℕ)
unmarshal _ = ok contract

abbrev spec : ResolvedEnvironmentSpec
spec = record {
  application_name = "shop";
  branch = "main";
  git_owner = "example";
  environment_type = "staging";
  version = "1";
  description = "";
  build = "app-build";
  git_repository = "";
  git_hub_event = "";
  deployment = "";
  route = "";
  domain = "";
  packages = "";
  service_units = "app" ∷ [];
  contract = record {
    secret_store = record {
      provider = "vault";
      store_name = "";
      vault = some (record {
        address = "https://vault";
        path = "secret";
        role = "shop";
        mount_path = "kubernetes";
        version = "v1";
        service_account_name = "";
      });
    };
  };
}

abbrev resolved : ResolvedEnvironment (List ℕ)
resolved = record { environment = some bytes; spec = some spec }
