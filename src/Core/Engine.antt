-- ===== src/Core/Engine.antt =====
-- core/engine/engine.go and core/command/command.go: routing a command to the Domain of its kind.
-- The worker pool is the module Core.Pool. `W` is what a Domain and a circuit breaker read and
-- change.
pub mod Laws
mod Examples
use environments.Common.{
  ℕ, zero, suc, String, Bool, true, false, not, Option, none, some, List, if◌then◌else◌, Error,
  errorf_of, Effect,
}
use environments.Core.Registry.{Gvk, Registry, get_domain}

pub data CommandType : Type 0 where
  cmd_create cmd_update cmd_delete : CommandType

pub record Command (Object : Type 0) : Type 0 where
  pub kind : CommandType
  pub gvk : Gvk
  pub obj : Option Object
  pub before : Option Object
  pub after : Option Object

-- `Name` and `Namespace`: a text of the object, or empty without one
abbrev text_of : {Object : Type 0} → (Object → String) → Option Object → String
text_of get none = ""
text_of get (some o) = get o

module _ {Object : Type 0} where
  pub name : (Object → String) → Command Object → String
  name get_name cmd = text_of get_name cmd.obj

  pub namespace : (Object → String) → Command Object → String
  namespace get_namespace cmd = text_of get_namespace cmd.obj

  copied : (Object → Object) → Option Object → Option Object
  copied deep_copy none = none
  copied deep_copy (some o) = some (deep_copy o)

  pub clone : (Object → Object) → Command Object → Command Object
  unfolding copied
  clone deep_copy cmd = record {
    kind = cmd.kind;
    gvk = cmd.gvk;
    obj = copied deep_copy cmd.obj;
    before = cmd.before;
    after = cmd.after;
  }

-- Go's int
pub data ℤ : Type 0 where
  pos : ℕ → ℤ
  negsuc : ℕ → ℤ

-- `workers <= 0`
abbrev pub is_synchronous : ℤ → Bool
is_synchronous (pos zero) = true
is_synchronous (pos (suc n)) = false
is_synchronous (negsuc n) = true

-- The fields that routing reads. A breaker may count what it is asked.
pub record Engine (W Object Strategy : Type 0) : Type 0 where
  pub registry : Registry (Command Object → Effect W) Strategy
  pub workers : ℤ
  pub circuit_breaker : Option (Command Object → W → Bool × W)

-- What Queue does: it returns, or it offers the command to the channel.
pub data Queued (W : Type 0) : Type 0 where
  returned : Option Error → W → Queued W
  offered : W → Queued W

module _ {W Object Strategy : Type 0} where
  pub new_engine : Registry (Command Object → Effect W) Strategy → Engine W Object Strategy
  new_engine registry = record { registry = registry; workers = pos 0; circuit_breaker = none }

  pub set_workers : ℤ → Engine W Object Strategy → Engine W Object Strategy
  set_workers n e = record e { workers = n }

  pub set_circuit_breaker :
      Option (Command Object → W → Bool × W) → Engine W Object Strategy → Engine W Object Strategy
  set_circuit_breaker cb e = record e { circuit_breaker = cb }

-- `cb == nil || cb.Allow(cmd)`
abbrev pub allowed :
    {W Object : Type 0} → Option (Command Object → W → Bool × W) → Command Object → W → Bool × W
allowed none cmd w = (true, w)
allowed (some allow) cmd w = allow cmd w

abbrev pub executed : {W : Type 0} → Option Error × W → Queued W
executed (r, w) = returned r w

module _ {Object : Type 0} (gvk_text : Gvk → String) where
  abbrev pub circuit_open : Command Object → Error
  circuit_open cmd = errorf_of "circuit breaker is open for target GVK" (gvk_text cmd.gvk)

  dispatch : {W : Type 0} → Option (Command Object → Effect W) → Command Object → Effect W
  dispatch none cmd w = (some (errorf_of "no domain registered for GVK" (gvk_text cmd.gvk)), w)
  dispatch (some handle) cmd w = handle cmd w

module _ {W Object Strategy : Type 0} (gvk_text : Gvk → String) where
  pub execute : Engine W Object Strategy → Command Object → Effect W
  unfolding dispatch
  execute e cmd w =
      let (may, w) = allowed e.circuit_breaker cmd w in
      if not may
      then (some (circuit_open gvk_text cmd), w)
      else dispatch gvk_text (get_domain e.registry cmd.gvk) cmd w

  pub queue : Engine W Object Strategy → Command Object → W → Queued W
  queue e cmd w =
      let (may, w) = allowed e.circuit_breaker cmd w in
      if not may
      then returned (some (circuit_open gvk_text cmd)) w
      else if is_synchronous e.workers
      then executed (execute e cmd w)
      else offered w
