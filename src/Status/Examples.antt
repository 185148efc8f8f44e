-- ===== src/Status/Examples.antt =====
-- A write that meets one conflict.
use environments.Common.{◌≡◌, refl, none, [], ◌∷◌}
use environments.Status.{write_replacing, write_once, merged_object}
use environments.Status.Laws.{Merged, write_replacing-Merged}
use environments.Status.Samples.{server, others, optimistic, retry, condition, start}

write_test :
    (write_replacing server others retry ("Failed" ∷ []) (condition "Ready" "True" ∷ []) [] start).0
    ≡ none
unfolding write_replacing write_once merged_object retry
write_test = refl

write_replacing-Merged_example :
    Merged server others optimistic retry
      ("Failed" ∷ [])
      (condition "Ready" "True" ∷ [])
      []
      (write_replacing server others retry
        ("Failed" ∷ [])
        (condition "Ready" "True" ∷ [])
        []
        start).1
write_replacing-Merged_example =
    write_replacing-Merged server others optimistic retry ("Failed" ∷ [])
      (condition "Ready" "True" ∷ []) [] start write_test
