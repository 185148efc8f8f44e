-- ===== src/Deployment/Recording/Writes.antt =====
-- The write of an outcome is the write of its one condition by the common status writer.
use environments.Common.{ℕ, Option, none, some, List, []}

-- no result writes no bytes
abbrev pub content : Option (List ℕ) → List ℕ
content none = []
content (some bytes) = bytes
