-- ===== src/Core/Engine/Examples.antt =====
-- Routing of a Build command, and a queue with a worker.
use environments.Common.{
  ℕ, suc, String, ◌≡◌, refl, true, none, some, [], ◌∷◌, if◌then◌else◌, Effect,
}
use environments.Core.Registry.{Gvk, same_gvk, register_domain, find}
use environments.Core.Registry.Laws.{IsRegistry}
use environments.Core.Engine.{
  Command, cmd_update, Engine, pos, is_synchronous, set_workers, set_circuit_breaker, returned,
  offered, executed, circuit_open, execute, queue,
}
use environments.Core.Engine.Laws.{guarded, execute_routes, queue_lem}

abbrev gvk : String → Gvk
gvk kind = record { group = "environments.blanketops.dev"; version = "v1alpha1"; kind = kind }

abbrev gvk_text : Gvk → String
gvk_text g = g.kind

abbrev command : Command ℕ
command = record {
  kind = cmd_update;
  gvk = gvk "Build";
  obj = some 4;
  before = some 3;
  after = some 4;
}

-- a Domain that counts what it handles
abbrev handle : Command ℕ → Effect ℕ
handle cmd w = (none, suc w)

abbrev engine : Engine ℕ ℕ ℕ
engine = record {
  registry = record { domains = (gvk "Deployment", handle) ∷ []; strategies = [] };
  workers = pos 0;
  circuit_breaker = none;
}

engine-IsRegistry : IsRegistry engine.registry
unfolding find
engine-IsRegistry = ((refl, tt), tt)

execute_routes_example :
    execute gvk_text
      (record engine { registry = register_domain (gvk "Build") handle engine.registry })
      command
      0
    ≡ (if same_gvk (gvk "Build") command.gvk
        then guarded gvk_text engine.circuit_breaker handle command 0
        else execute gvk_text engine command 0)
execute_routes_example =
    execute_routes gvk_text engine (gvk "Build") handle command 0 engine-IsRegistry

queue_run :
    let limited = set_circuit_breaker (some λ c w. (true, w)) (set_workers (pos 2) engine) in
    queue gvk_text limited command 0 ≡ (
      if is_synchronous (pos 2)
      then executed (execute gvk_text limited command 0)
      else if true
      then offered 0
      else returned (some (circuit_open gvk_text command)) 0)
queue_run = queue_lem gvk_text engine (pos 2) (λ c. true) command 0
