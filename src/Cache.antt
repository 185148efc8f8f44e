-- ===== src/Cache.antt =====
-- cache/objectcache.go over the ExternalCache of core/cache/cache.go, whose backend is a parameter;
-- the time to live is left out. A field is cached under the kind, namespace, name and generation of
-- its object. A generation is the non-negative number that the API server assigns.
pub mod Keys
pub mod Fields
pub mod Publish
use environments.Common.{
  ℕ, String, Bool, Option, none, some, List, [], ◌∷◌, ◌^◌, decimal, Error, errorf_of, Result, ok,
  err, Effect, Exec, ◌==◌, ◌||◌, if◌then◌else◌,
}

-- The value of a field is of any type `V` that the backend serialises; a Get that finds none is
-- `none`.
pub record ExternalCache (W V : Type 0) : Type 0 where
  pub set : String → V → Effect W
  pub get : String → Exec W (Option V)
  pub del : String → Effect W
  pub del_prefix : String → Effect W

-- NoopExternalCache
abbrev pub noop_external_cache : {W V : Type 0} → ExternalCache W V
noop_external_cache = record {
  set = λ key v w. (none, w);
  get = λ key w. (ok none, w);
  del = λ key w. (none, w);
  del_prefix = λ prefix w. (none, w);
}

-- cache/setup.go: whichever known backend is named, the cache that is made is the one that stores
-- nothing.
unfoldable pub new_external : {W V : Type 0} → String → Result (ExternalCache W V)
new_external backend =
    if backend == "redis"
    then ok noop_external_cache
    else if backend == "memcached"
    then ok noop_external_cache
    else if (backend == "none") || (backend == "")
    then ok noop_external_cache
    else err (errorf_of "unknown external cache backend (valid: redis|memcached|none)" backend)

-- types.NamespacedName
pub record NamespacedName : Type 0 where
  pub namespace : String
  pub name : String

-- fmt's "%s:%s/%s:gen%d:%s"
unfoldable pub key : String → NamespacedName → ℕ → String → String
key kind nn gen field =
    kind ^ (":" ^ (nn.namespace ^ ("/" ^ (nn.name ^ (":gen" ^ (decimal gen ^ (":" ^ field)))))))

unfoldable pub object_prefix : String → NamespacedName → String
object_prefix kind nn = kind ^ (":" ^ (nn.namespace ^ ("/" ^ (nn.name ^ ":"))))

module _ {W V : Type 0} (external : ExternalCache W V) (kind : String) where
  unfoldable pub set_field : NamespacedName → ℕ → String → V → Effect W
  set_field nn gen field v = external.set (key kind nn gen field) v

  unfoldable pub get_field : NamespacedName → ℕ → String → Exec W (Option V)
  get_field nn gen field = external.get (key kind nn gen field)

  unfoldable pub invalidate : NamespacedName → Effect W
  invalidate nn = external.del_prefix (object_prefix kind nn)
