-- ===== src/Cache/Publish/Examples.antt =====
-- The fields of a Build, published to a map.
use environments.Common.{
  ℕ, String, ◌≡◌, ◌≢◌, refl, ◌⊎◌, inl, inr, false, Option, none, some, ◌==◌, if◌then◌else◌,
  Bool-cases, eq_iff, eq_refl, Error, ok, ok-injective, has_char, decimal,
}
use environments.Cache.{
  ExternalCache, NamespacedName, key, set_field, get_field, noop_external_cache, new_external,
}
use environments.Cache.Keys.{IsName}
use environments.Cache.Fields.{Cached, text, build_fields}
use environments.Cache.Publish.{publish, publish_resolved}
use environments.Cache.Publish.Laws.{Backend, Published, publish_resolved-hit}
use environments.Build.Samples.{spec}

abbrev Value : Type 0
Value = Cached ℕ ℕ

abbrev World : Type 0
World = String → Option Value

abbrev stored : String → Value → World → World
stored k v w j = if k == j then some v else w j

abbrev external : ExternalCache World Value
external = record {
  set = λ k v w. (none, stored k v w);
  get = λ k w. (ok (w k), w);
  del = λ k w. (none, w);
  del_prefix = λ p w. (none, w);
}

abbrev holds : World → String → Option Value
holds w k = w k

stored-other : (k j : String) (v : Value) (w : World) → k ≢ j → stored k v w j ≡ w j
stored-other k j v w h = elim (Bool-cases (k == j)) [
  | inl same ↦ absurd (h ((eq_iff k j).0 same))
  | inr other ↦ rw other refl
]

stored-same : (k : String) (v : Value) (w : World) → stored k v w k ≡ some v
stored-same k v w = rw (eq_refl k) refl

backend : Backend external holds
backend = record {
  set_frame = stored-other;
  set_own = λ k v w. inr (stored-same k v w);
  hit = λ k v w h. ok-injective h;
}

abbrev nn : NamespacedName
nn = record { namespace = "apps"; name = "app" }

named : IsName nn
unfolding has_char
named = record { namespace_clear = refl; name_clear = refl }

abbrev empty : World
empty k = none

abbrev after : Option Error × World
after = publish_resolved external "build" build_fields nn 7 (some spec) empty

kind_clear : has_char ":" "build" ≡ false
unfolding has_char
kind_clear = refl

key_test : key "build" nn 17 "image" ≡ "build:apps/app:gen17:image"
unfolding key decimal
key_test = refl

image_test :
    (get_field external "build" nn 7 "image" after.1).0 ≡ ok (some (text "ghcr.io/acme/app:v1"))
unfolding get_field publish_resolved publish set_field build_fields key decimal
image_test = refl

next_generation_test : (get_field external "build" nn 8 "image" after.1).0 ≡ ok none
unfolding get_field publish_resolved publish set_field build_fields key decimal
next_generation_test = refl

publish_resolved-hit_example :
    Published external holds backend "build" nn 7
      (build_fields spec)
      "build"
      nn
      7
      "image"
      (text "ghcr.io/acme/app:v1")
    ⊎ (empty (key "build" nn 7 "image") ≡ some (text "ghcr.io/acme/app:v1"))
publish_resolved-hit_example =
    publish_resolved-hit external holds backend "build" nn 7 build_fields spec empty kind_clear
      named "build" nn 7 "image" (text "ghcr.io/acme/app:v1") kind_clear named image_test

redis_test : new_external {W = World} {V = Value} "redis" ≡ ok noop_external_cache
unfolding new_external
redis_test = refl
