-- ===== src/Build/Image.antt =====
-- Image references and hashes as text: replaceImageTag of pkg/apis/build/api/kaniko.go,
-- ImageWithDigest of pkg/apis/build/domain/model.go, ShortHash of pkg/utils/util.go.
pub mod Laws
mod Examples
use Prim.Native.String.{len, slice}
use environments.Common.{
  ℕ, String, Bool, true, false, Option, none, some, ◌==◌, ◌^◌, ltb, if◌then◌else◌, contains,
  before_first, before_last,
}

tagged : Option String → String → String → String
tagged none image tag = image ^ ":" ^ tag
tagged (some path) image tag = if contains path "/" then path ^ ":" ^ tag else image ^ ":" ^ tag

unfoldable pub replace_image_tag : String → String → String
unfolding tagged
replace_image_tag image tag = tagged (before_last ":" image) image tag

-- the reference without its digest
undigested : Option String → String → String
undigested none image = image
undigested (some bare) image = bare

unfoldable pub without_digest : String → String
unfolding undigested
without_digest image = undigested (before_first "@" image) image

pinned : String → String → String
pinned image digest = if digest == "" then image else image ^ "@" ^ digest

unfoldable pub image_with_digest : String → String → String
unfolding pinned without_digest
image_with_digest image digest = if image == "" then "" else pinned (without_digest image) digest

-- Go's len counts bytes; a hash is written in ASCII.
unfoldable pub short_hash : String → String
short_hash hash = if ltb 12 (len hash) then slice hash 0 12 else hash
