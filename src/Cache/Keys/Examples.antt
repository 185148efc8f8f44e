-- ===== src/Cache/Keys/Examples.antt =====
-- Two generations of a Build.
use text.Mathlib.TextBridge.{IsPrefix}
use environments.Common.{◌≡◌, ◌↔◌, refl, false, has_char}
use environments.Cache.{NamespacedName, key, object_prefix}
use environments.Cache.Keys.{IsName, SameField, SameObject, key-separates}

abbrev nn : NamespacedName
nn = record { namespace = "apps"; name = "app" }

named : IsName nn
unfolding has_char
named = record { namespace_clear = refl; name_clear = refl }

kind_clear : has_char ":" "build" ≡ false
unfolding has_char
kind_clear = refl

key-separates_example :
    ((key "build" nn 1 "image" ≡ key "build" nn 2 "image")
      ↔ SameField "build" "build" nn nn 1 2 "image" "image")
    × (IsPrefix (object_prefix "build" nn) (key "build" nn 1 "image")
        ↔ SameObject "build" "build" nn nn)
key-separates_example =
    key-separates "build" "build" nn nn 1 2 "image" "image" kind_clear kind_clear named named
