-- ===== src/Status/Api.antt =====
-- What the code relies on of the API server and of client-go, neither of which is in the repository.
use environments.Common.{ℕ, ◌≡◌, Bool, true, Option, none, some, List, Error, ok, Exec, Effect}
use environments.Core.Conditions.{Condition}

-- one custom resource, by its status and its resourceVersion
pub record StoredObject : Type 0 where
  pub version : ℕ
  pub conditions : List Condition
  pub contract : List ℕ

-- Get and Status().Update for the key of the resource that is written.
pub record Server (W : Type 0) : Type 0 where
  pub fetch : Exec W StoredObject
  pub update : StoredObject → Effect W
  pub is_conflict : Error → Bool

-- Optimistic concurrency, as the server documents it. Whatever `others` did since a fetch, an object
-- that still has the fetched version is unchanged; an update is accepted only against the version
-- that is stored, and stores what it sends.
pub record Optimistic {W : Type 0} (server : Server W) (others : W → W) : Type 0 where
  pub stored : W → Option StoredObject
  pub kept :
      (w : W) (o p : StoredObject)
      → (server.fetch w).0 ≡ ok o
      → stored (others (server.fetch w).1) ≡ some p
      → p.version ≡ o.version
      → p ≡ o
  pub current :
      (w : W) (o : StoredObject)
      → (server.update o w).0 ≡ none
      → (p : StoredObject) × (stored w ≡ some p) × (p.version ≡ o.version)
  pub accepted :
      (w : W) (o : StoredObject)
      → (server.update o w).0 ≡ none
      → (p : StoredObject) × (stored (server.update o w).1 ≡ some p)
        × (p.conditions ≡ o.conditions)
        × (p.contract ≡ o.contract)

-- The runs of `fn` under RetryOnConflict from a world: one run is the last; before it every run ended
-- in a conflict, and the world may have changed in any way while it backed off.
pub data Attempts {W : Type 0} (is_conflict : Error → Bool) (fn : Effect W) (r : Option Error)
    (end : W) : W → Type 0 where
  last : (w : W) → (fn w).0 ≡ r → (fn w).1 ≡ end → Attempts is_conflict fn r end w
  again :
      (w : W) (e : Error) (u : W)
      → (fn w).0 ≡ some e
      → is_conflict e ≡ true
      → Attempts is_conflict fn r end u
      → Attempts is_conflict fn r end w

pub record RetryOnConflict {W : Type 0} (server : Server W) : Type 0 where
  pub run : Effect W → Effect W
  pub attempts :
      (fn : Effect W) (w : W) → Attempts server.is_conflict fn (run fn w).0 (run fn w).1 w
