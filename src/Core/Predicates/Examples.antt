-- ===== src/Core/Predicates/Examples.antt =====
-- A Build whose spec changed and whose retry annotation did not.
use environments.Common.{ℕ, ◌≡◌, refl, ◌↔◌, true, [], ◌∷◌, same_number}
use environments.Core.Predicates.{build, Object, updated, retry_annotation, meaningful_change}
use environments.Core.Predicates.Laws.{Differs, meaningful_change_iff}
use environments.Samples.{same_number_iff}

abbrev object : ℕ → Object ℕ
object spec = record { kind = build; annotations = (retry_annotation, "2") ∷ []; spec = spec }

meaningful_change_iff_example :
    (meaningful_change same_number (updated (object 1) (object 9)) ≡ true)
    ↔ Differs same_number same_number_iff build (object 1) (object 9)
meaningful_change_iff_example =
    meaningful_change_iff same_number same_number_iff (object 1) (object 9) refl
