-- ===== src/Status/Samples.antt =====
-- An API server and a retry for the examples. The world counts the writes that others still make,
-- beside the object; each of them sets another condition.
use environments.Common.{
  ℕ, zero, suc, String, ◌≡◌, refl, ap, Bool-cases, inl, inr, ok-injective, true, Option, none, some,
  [], ◌∷◌, same_number, if◌then◌else◌, Error, errorf, ok, Effect, arith,
}
use environments.Core.Conditions.{Condition}
use environments.Status.Api.{
  StoredObject, Server, Optimistic, Attempts, last, again, RetryOnConflict,
}

abbrev pub World : Type 0
World = ℕ × StoredObject

abbrev pub condition : String → String → Condition
condition kind status = record {
  kind = kind;
  status = status;
  observed_generation = 1;
  last_transition_time = 7;
  reason = "Test";
  message = "";
}

abbrev pub update : StoredObject → Effect World
update o (n, p) =
    if same_number o.version p.version
    then (none, (n, record o { version = suc o.version }))
    else (some (errorf "conflict"), (n, p))

abbrev pub server : Server World
server = record { fetch = λ w. (ok w.1, w); update = update; is_conflict = λ e. true }

abbrev pub others : World → World
others (zero, p) = (zero, p)
others (suc n, p) = (
  n,
  record p { version = suc p.version; conditions = condition "ScanReady" "True" ∷ p.conditions },
)

abbrev pub version_of : Option StoredObject → ℕ
version_of none = 0
version_of (some o) = o.version

pub kept :
    (w : World) (o p : StoredObject)
    → (server.fetch w).0 ≡ ok o
    → some (others w).1 ≡ some p
    → p.version ≡ o.version
    → p ≡ o
kept (zero, q) o p fetched stored same = cc
kept (suc n, q) o p fetched stored same =
    absurd (omega (arith, ap (λ x. x.version) (ok-injective fetched), ap version_of stored, same))

pub current :
    (w : World) (o : StoredObject)
    → (update o w).0 ≡ none
    → (p : StoredObject) × (◌≡◌ {A = Option StoredObject} (some w.1) (some p))
      × (p.version ≡ o.version)
current (n, q) o h = (q, refl, ground arith)

pub accepted :
    (w : World) (o : StoredObject)
    → (update o w).0 ≡ none
    → (p : StoredObject) × (some (update o w).1.1 ≡ some p)
      × (p.conditions ≡ o.conditions)
      × (p.contract ≡ o.contract)
accepted (n, q) o h = elim (Bool-cases (same_number o.version q.version)) [
  | inl s ↦ rw s (record o { version = suc o.version }, refl, refl, refl)
  | inr d ↦ cc (rw d at h)
]

pub optimistic : Optimistic server others
optimistic = record { stored = λ w. some w.1; kept = kept; current = current; accepted = accepted }

abbrev pub again_if : Option Error × World → Effect World → Option Error × World
again_if (none, w) next = (none, w)
again_if (some e, w) next = next w

abbrev pub attempt : ℕ → Effect World → Effect World
attempt zero fn w = fn w
attempt (suc n) fn w = again_if (fn w) (attempt n fn)

pub again_if-Attempts :
    (fn next : Effect World) (w : World) (r : Option Error × World)
    → fn w ≡ r
    → ((u : World) → Attempts (λ e. true) fn (next u).0 (next u).1 u)
    → Attempts (λ e. true) fn (again_if r next).0 (again_if r next).1 w
again_if-Attempts fn next w (none, u) h later = last w (ap (λ q. q.0) h) (ap (λ q. q.1) h)
again_if-Attempts fn next w (some e, u) h later = again w e u (ap (λ q. q.0) h) refl (later u)

pub attempt-Attempts :
    (n : ℕ) (fn : Effect World) (w : World)
    → Attempts (λ e. true) fn (attempt n fn w).0 (attempt n fn w).1 w
attempt-Attempts zero fn w = last w refl refl
attempt-Attempts (suc n) fn w =
    again_if-Attempts fn (attempt n fn) w (fn w) refl (attempt-Attempts n fn)

unfoldable pub retry : RetryOnConflict server
retry = record { run = attempt 4; attempts = attempt-Attempts 4 }

abbrev pub start : World
start = (1, record { version = 3; conditions = condition "Ready" "False" ∷ []; contract = [] })
