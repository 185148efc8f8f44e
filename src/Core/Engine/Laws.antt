-- ===== src/Core/Engine/Laws.antt =====
-- Where a command goes.
use environments.Common.{
  String, ◌≡◌, Bool, Bool-cases, inl, inr, Option, some, not, if◌then◌else◌, Effect, arith,
}
use environments.Core.Registry.{Gvk, same_gvk, register_domain}
use environments.Core.Registry.Laws.{IsRegistry, register_domain_lem}
use environments.Core.Engine.{
  Command, Engine, returned, offered, ℤ, is_synchronous, set_workers, set_circuit_breaker, allowed,
  executed, circuit_open, dispatch, execute, queue,
}

module _ {W Object : Type 0} (gvk_text : Gvk → String) where
  -- a Domain behind the circuit breaker
  abbrev pub guarded :
      Option (Command Object → W → Bool × W)
      → (Command Object → Effect W)
      → Command Object
      → Effect W
  guarded cb handle cmd w =
      let (may, w) = allowed cb cmd w in
      if not may then (some (circuit_open gvk_text cmd), w) else handle cmd w

module _ {W Object Strategy : Type 0} (gvk_text : Gvk → String) where
  -- After a Domain is registered for a kind, a command of that kind asks the circuit breaker once
  -- and then reaches that Domain alone, whatever was registered before, or is refused without a
  -- Domain; a command of another kind is executed as before.
  pub execute_routes :
      (e : Engine W Object Strategy) (gvk : Gvk) (handle : Command Object → Effect W)
      (cmd : Command Object) (w : W)
      → IsRegistry e.registry
      → execute gvk_text (record e { registry = register_domain gvk handle e.registry }) cmd w ≡ (
          if same_gvk gvk cmd.gvk
          then guarded gvk_text e.circuit_breaker handle cmd w
          else execute gvk_text e cmd w)
  unfolding execute dispatch
  execute_routes e gvk handle cmd w ok =
      let found = (register_domain_lem gvk handle e.registry cmd.gvk "" ok).1 in
      elim (Bool-cases (same_gvk gvk cmd.gvk)) [
        | inl same ↦ rw (found, same) (ground arith)
        | inr other ↦ rw (found, other) (ground arith)
      ]

  -- With a circuit breaker that keeps no count, Queue is Execute while the engine is synchronous;
  -- with workers it offers the command exactly if the breaker permits it, and touches nothing.
  pub queue_lem :
      (e : Engine W Object Strategy) (n : ℤ) (permits : Command Object → Bool)
      (cmd : Command Object) (w : W)
      → let engine = set_circuit_breaker (some λ c w. (permits c, w)) (set_workers n e) in
        queue gvk_text engine cmd w ≡ (
          if is_synchronous n
          then executed (execute gvk_text engine cmd w)
          else if permits cmd
          then offered w
          else returned (some (circuit_open gvk_text cmd)) w)
  unfolding queue execute set_circuit_breaker set_workers
  queue_lem e n permits cmd w = ground arith
