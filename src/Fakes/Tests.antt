-- ===== src/Fakes/Tests.antt =====
-- A test's use of the fakes, and the theorem at it.
use tps.Base.{bytes, none, List, [], ◌∷◌, map, ◌≡◌, refl, false}
use tps.Api.{Metrics}
use tps.Fakes.{
  FakeNoaaClient, container_metrics_key, close_call_count, NoaaAction, fetches, closes,
  returns_metrics, run,
}
use tps.Fakes.Records.{fetched, closed, as_list, run-Recorded}

abbrev no_metrics : Metrics
no_metrics = record { metrics = []; failed = false }

abbrev fake_noaa : FakeNoaaClient
fake_noaa = record {
  container_metrics = record { stub = none; args_for_call = []; returns = no_metrics };
  close = record { stub = none; args_for_call = []; returns = none };
  invocations = λ key. [];
}

abbrev actions : List NoaaAction
actions =
    fetches (bytes "a") (bytes "t")
    ∷ returns_metrics no_metrics
    ∷ closes
    ∷ fetches (bytes "b") (bytes "t")
    ∷ []

run-Recorded_example :
    ((run fake_noaa actions).container_metrics.args_for_call ≡ fetched actions)
    × ((run fake_noaa actions).invocations container_metrics_key ≡ map as_list (fetched actions))
    × (close_call_count (run fake_noaa actions) ≡ closed actions)
run-Recorded_example = run-Recorded fake_noaa actions refl refl refl
