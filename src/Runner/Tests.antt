-- ===== src/Runner/Tests.antt =====
-- The processes that the runner starts, at concrete arguments.
use tps.Base.{
  if◌then◌else◌, none, some, arith, true, map, List, str_eq, pos, Str, bytes, false, [], ◌∷◌, ◌≡◌,
  refl,
}
use tps.Listener
use tps.WatcherProcess
use tps.ProcessSample.{listener_system, watcher_system}
use tps.Handler.Table.{new}
use tps.CcClient.{new_cc_client}
use tps.Runner.{new_listener, new_watcher}
use tps.Runner.Crashes.{run_watcher-crashes}
use tps.Watcher.{
  CrashedEvent, crashed, AppCrashedRequest, Action, subscribes, nexts, takes_subscription,
  takes_event, State, init, request_of, run,
}
use tps.Watcher.Delivery.{crashes}
use tps.Watcher.Setup.{Watcher}
use mathlib.Core.List.{Permᴰ}
use tps.CcClient.{HttpRequest, Client, Network}
use tps.CcClient.Reports.{run_jobs, report_of, IsUsable}
use tps.WatcherProcess.{BbsClient}
use tps.Flags.{Flag, text_of, number_of, boolean_of, value_of}
use tps.Runner.Args.{
  given_watcher_flags, parse-new_watcher, listener_group, main-new_listener, main-new_watcher,
}

abbrev bin : Str
bin = bytes "/bin/tps"

abbrev addr : Str
addr = bytes "0.0.0.0:1518"

-- A text that looks like a flag is taken as a value.
abbrev odd : Str
odd = bytes "-listenAddr"

main-new_listener_example :
    Listener.main listener_system (new_listener bin addr odd [] [] [] [] []).args ≡ record {
      logged = bytes "failed to initialize dropsonde: %v" ∷ [];
      outcome = Listener.starts (listener_group listener_system addr odd [] [] [] [] [] 1518);
    }
unfolding new
main-new_listener_example =
    main-new_listener listener_system bin addr odd [] [] [] [] [] (bytes "0.0.0.0") (bytes "1518")
      1518 refl (λ e. cc) refl refl refl refl

main-new_watcher_example :
    (WatcherProcess.main watcher_system (new_watcher bin addr odd []).args).outcome
    ≡ WatcherProcess.starts (
        WatcherProcess.lock_maintainer (record {
          consul_client = [];
          key = watcher_system.lock_schema_path (bytes "tps_watcher_lock");
          value = bytes "u";
          retry_interval = pos 1000000000;
          ttl = watcher_system.locket_ttl;
        })
        ∷ WatcherProcess.watcher (new_cc_client watcher_system.join odd [] [] false)
        ∷ [])
main-new_watcher_example =
    main-new_watcher watcher_system bin addr odd [] (bytes "u") (pos 1000000000) refl refl refl refl

-- A crash that the watcher of the runner reports.
abbrev crash : CrashedEvent
crash = record {
  process_guid = bytes "g";
  index = pos 1;
  domain = bytes "cf-apps";
  instance_guid = bytes "i";
  crash_count = pos 2;
  crash_reason = bytes "out of memory";
  since = pos 3;
}

abbrev schedule : List Action
schedule =
    subscribes (some 4) ∷ takes_subscription ∷ nexts (some (crashed crash)) none ∷ takes_event ∷ []

abbrev reached : State
reached = record init {
  subscription = some 4;
  subscribers = 0;
  readers = some 4 ∷ [];
  submitted = request_of crash ∷ [];
}

run_of_schedule : run (bytes "cf-apps") init schedule ≡ some reached
unfolding run str_eq
run_of_schedule = refl

abbrev network : Network
network = record {
  marshal = λ request. some (bytes "{}");
  accepts_url = λ url. if str_eq url [] then false else true;
  exchange = λ request. some 200;
}

abbrev no_payload : AppCrashedRequest → Str
no_payload request = bytes "{}"

abbrev cc_uri : Str
cc_uri = bytes "cc"

network-IsUsable : IsUsable network watcher_system.join cc_uri [] [] false no_payload
network-IsUsable = record {
  plain = ((λ e. omega arith), ((λ e. omega arith), tt));
  joined = refl;
  encoded = λ request. refl;
}

abbrev read_flags : List Flag
read_flags = given_watcher_flags (pos 15000000000) (pos 1000000000) addr cc_uri []

abbrev started : Watcher BbsClient Client
started = record {
  bbs_client = WatcherProcess.plain_client addr;
  cc_client = new_cc_client watcher_system.join cc_uri [] [] false;
  retry_pause_interval = pos 1000000000;
  pool = pos 500;
}

watches_of_started :
    WatcherProcess.run_watcher watcher_system read_flags ≡ WatcherProcess.watches started
unfolding WatcherProcess.run_watcher text_of number_of boolean_of str_eq value_of new_watcher
watches_of_started = refl

run_watcher-crashes_example :
    (sent : List HttpRequest) × (run_jobs network started.cc_client (request_of crash ∷ [])
      ≡ some sent)
    × Permᴰ
        (map
          (report_of network watcher_system.join cc_uri [] [] false no_payload)
          (crashes (bytes "cf-apps") schedule))
        sent
unfolding crashes str_eq
run_watcher-crashes_example =
    run_watcher-crashes watcher_system network bin addr cc_uri [] (bytes "cf-apps") (pos 1000000000)
      no_payload read_flags started reached schedule (request_of crash ∷ []) refl
      (parse-new_watcher watcher_system.numerals [] bin addr cc_uri [] (pos 15000000000)
        (pos 5000000000) (pos 1000000000) refl)
      watches_of_started network-IsUsable (refl, tt) run_of_schedule refl
      (Permᴰ.cons refl Permᴰ.nil)
