-- ===== src/Build/Image/Examples.antt =====
-- References from the tests and comments of the code.
use environments.Common.{◌≡◌, refl, ◌≤◌, ◌<◌, String, before_first, before_last, has_char}
use Prim.Native.String.{len}
use text.Mathlib.TextBridge.{IsPrefix}
use environments.Build.Image.{replace_image_tag, image_with_digest, without_digest, short_hash}
use environments.Build.Image.Laws.{IsAscii, replace_image_tag-again, short_hash-bounds}

swapped : replace_image_tag "ghcr.io/owner/repo:tag" "abc" ≡ "ghcr.io/owner/repo:abc"
unfolding replace_image_tag before_last
swapped = refl

port_kept : replace_image_tag "localhost:5000/app" "abc" ≡ "localhost:5000/app:abc"
unfolding replace_image_tag before_last
port_kept = refl

-- A reference without a path keeps its old tag as well.
two_tags : replace_image_tag "app:v1" "abc" ≡ "app:v1:abc"
unfolding replace_image_tag before_last
two_tags = refl

replaced :
    image_with_digest "ghcr.io/acme/app:v1@sha256:old" "sha256:new"
    ≡ "ghcr.io/acme/app:v1@sha256:new"
unfolding image_with_digest without_digest before_first
replaced = refl

no_image : image_with_digest "" "sha256:new" ≡ ""
unfolding image_with_digest
no_image = refl

retagged_twice :
    replace_image_tag (replace_image_tag "ghcr.io/owner/repo:tag" "abc") "def"
    ≡ replace_image_tag "ghcr.io/owner/repo:tag" "def"
unfolding has_char
retagged_twice = replace_image_tag-again "ghcr.io/owner/repo:tag" "abc" "def" refl refl

abbrev hash : String
hash = "0123456789abc"

hash-IsAscii : IsAscii hash
hash-IsAscii = (
  refl,
  (
    refl,
    (refl, (refl, (refl, (refl, (refl, (refl, (refl, (refl, (refl, (refl, (refl, tt))))))))))),
  ),
)

short_hash-bounds_example :
    (len hash ≤ 12 → short_hash hash ≡ hash)
    × (12 < len hash → len (short_hash hash) ≡ 12)
    × IsPrefix (short_hash hash) hash
short_hash-bounds_example = short_hash-bounds hash hash-IsAscii
