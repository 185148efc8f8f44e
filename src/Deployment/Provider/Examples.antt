-- ===== src/Deployment/Provider/Examples.antt =====
-- A teardown that is refused the deletion of Services.
use environments.Common.{true, All}
use environments.Deployment.Provider.{teardown}
use environments.Deployment.Provider.Laws.{UnitSettled, teardown_settles}
use environments.Samples.{exists, refusing_client, deletes, intent}

teardown_settles_example :
    All
      (UnitSettled refusing_client exists deletes intent
        (teardown refusing_client intent true).0
        (teardown refusing_client intent true).1)
      intent.service_units
teardown_settles_example = teardown_settles refusing_client exists deletes intent true
