-- ===== src/Watcher/Tests.antt =====
-- Schedules of the watcher, and its theorems at concrete ones.
use tps.Base.{
  ◌+◌, ◌≤◌, ℕ, pos, Str, bytes, str_eq, Option, none, some, List, [], ◌∷◌, ◌++◌, map, ◌≡◌, ◌≢◌, ◌↔◌,
  refl,
}
use tps.Watcher.{
  other_error, CrashedEvent, Event, crashed, unrelated, unrecognized_event_type, State, running,
  stopped, panicked, init, Action, subscribes, nexts, takes_subscription, takes_event, takes_error,
  takes_signal, request_of, run,
}
use tps.Watcher.Invariant.{Inv, run-init-Inv}
use tps.Watcher.Progress.{CanGo, NeverBlocks, run-init-goes_on}
use tps.Watcher.Delivery.{waiting, crashes, run-init-Delivers}
use tps.Watcher.Balance.{pending, taken, returned, run-init-balance}
use tps.Watcher.Ends.{subscription_after, run-init-signal, closed_by, run-init-closed}
use tps.Watcher.Retry.{
  round, rounds, reading_state, resubscribing_state, jobs_of, failures, run-third_failure,
}

abbrev apps : Str
apps = bytes "cf-apps"

abbrev crash_in : Str → ℕ → CrashedEvent
crash_in domain count = record {
  process_guid = bytes "g";
  index = pos 1;
  domain = domain;
  instance_guid = bytes "i";
  crash_count = pos count;
  crash_reason = bytes "out of memory";
  since = pos 3;
}

-- A failed subscription, one that works, a crash of an app, one of another domain, an event of an
-- unknown type, and a crash that still waits in the channel.
abbrev schedule : List Action
schedule =
    subscribes none
    ∷ takes_subscription
    ∷ subscribes (some 4)
    ∷ takes_subscription
    ∷ nexts (some (crashed (crash_in apps 1))) none
    ∷ takes_event
    ∷ nexts (some (crashed (crash_in (bytes "tasks") 2))) none
    ∷ takes_event
    ∷ nexts none (some unrecognized_event_type)
    ∷ takes_error
    ∷ nexts (some (crashed (crash_in apps 3))) none
    ∷ []

abbrev reached : State
reached = record {
  phase = running;
  subscription = some 4;
  next_err_count = 0;
  subscribers = 0;
  readers = [];
  subscription_chan = [];
  event_chan = some (crashed (crash_in apps 3)) ∷ [];
  error_chan = [];
  submitted = request_of (crash_in apps 1) ∷ [];
  closed = [];
}

run_of_schedule : run apps init schedule ≡ some reached
unfolding run str_eq
run_of_schedule = refl

-- A signal while the first subscription fails again and again.
run_of_signal :
    run apps init (subscribes none ∷ takes_subscription ∷ takes_signal ∷ [])
    ≡ some (record init { phase = panicked })
unfolding run
run_of_signal = refl

run-init-Inv_example : Inv reached
run-init-Inv_example = run-init-Inv apps reached schedule run_of_schedule

run-init-goes_on_example : CanGo apps reached × NeverBlocks apps reached
run-init-goes_on_example = run-init-goes_on apps reached schedule run_of_schedule refl

run-init-signal_example :
    (u : State) × (run apps init (schedule ++ takes_signal ∷ []) ≡ some u)
    × ((u.phase ≡ stopped) ↔ (subscription_after none none schedule ≢ none))
    × ((u.phase ≡ panicked) ↔ (subscription_after none none schedule ≡ none))
    × (run apps init (schedule ++ takes_signal ∷ takes_event ∷ []) ≡ none)
run-init-signal_example = run-init-signal apps reached schedule [] takes_event run_of_schedule refl

run-init-Delivers_example :
    reached.submitted ++ map request_of (waiting apps reached.event_chan)
    ≡ map request_of (crashes apps schedule)
run-init-Delivers_example = run-init-Delivers apps reached schedule run_of_schedule

abbrev reads : List (Option Event)
reads = none ∷ some (crashed (crash_in apps 1)) ∷ none ∷ some unrelated ∷ []

run-third_failure_example :
    run apps (reading_state 4 0 []) (rounds reads ++ round none)
    ≡ some (resubscribing_state 4 ([] ++ jobs_of apps reads))
unfolding failures
run-third_failure_example = run-third_failure apps reads 4 0 [] refl

-- Three failed reads, a second source, and a signal: the first source stays open.
abbrev leaking : List Action
leaking =
    subscribes (some 4)
    ∷ takes_subscription
    ∷ nexts none (some other_error)
    ∷ takes_event
    ∷ nexts none (some other_error)
    ∷ takes_event
    ∷ nexts none (some other_error)
    ∷ takes_event
    ∷ subscribes (some 5)
    ∷ takes_subscription
    ∷ takes_signal
    ∷ []

abbrev ended : State
ended = record init {
  phase = stopped;
  subscription = some 5;
  subscribers = 0;
  readers = some 5 ∷ [];
  closed = 5 ∷ [];
}

run_of_leaking : run apps init leaking ≡ some ended
unfolding run
run_of_leaking = refl

run-init-closed_example : ended.closed ≡ closed_by ended
run-init-closed_example = run-init-closed apps ended leaking run_of_leaking

run-init-balance_example :
    (pending reached + taken schedule ≡ returned schedule) × (pending reached ≤ 1)
run-init-balance_example = run-init-balance apps reached schedule run_of_schedule
