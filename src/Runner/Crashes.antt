-- ===== src/Runner/Crashes.antt =====
-- cmd/tpsrunner/runner.go, cmd/tps-watcher/main.go, watcher/watcher.go and cc_client/cc_client.go
-- together: from the arguments of the runner to the requests to the Cloud Controller.
use tps.Base.{ℤ, Str, bytes, str_eq, false, some, List, [], ◌++◌, map, ◌≡◌, inl, inr, ap, ◌∙◌, sym}
use mathlib.Core.Option.{some-injective}
use mathlib.Core.List.{Permᴰ}
use tps.Base.{refl, All}
use tps.Flags.{Flag, parse, text_of, boolean_of, value_of}
use tps.Watcher.{Job, State, init, Action, AppCrashedRequest, run}
use tps.Watcher.Delivery.{crashes}
use tps.Watcher.Setup.{Watcher}
use tps.CcClient.{Client, HttpRequest, Network, new_cc_client}
use tps.CcClient.Reports.{run_jobs, report_of, IsUsable, Accepts, run_jobs-crashes}
use tps.WatcherProcess.{System, BbsClient, watches, watcher_flags, run_watcher, cc_client_of}
use tps.WatcherProcess.Start.{run_watcher-watches_iff}
use tps.Runner.{new_watcher}
use tps.Runner.Args.{given_watcher_flags, parse-new_watcher}

watches-cc_client :
    (system : System) (flags : List Flag) (w : Watcher BbsClient Client)
    → run_watcher system flags ≡ watches w
    → w.cc_client ≡ cc_client_of system flags
unfolding cc_client_of new_cc_client
watches-cc_client system flags w h =
    let (scheme, e, pool, kind) = (run_watcher-watches_iff system flags w).0 h in
    elim kind [
      | inl (same, made, is) ↦ ap (λ (x : Watcher BbsClient Client). x.cc_client) is
      | inr (other, is) ↦ ap (λ (x : Watcher BbsClient Client). x.cc_client) is
    ]

cc_client_of-given :
    (system : System) (bbs uri consul : Str) (ttl d : ℤ)
    → cc_client_of system (given_watcher_flags ttl d bbs uri consul ++ system.other_flags)
      ≡ new_cc_client system.join uri [] [] false
unfolding cc_client_of text_of boolean_of value_of str_eq
cc_client_of-given system bbs uri consul ttl d = refl

-- The watcher that the process makes from the runner's arguments reports the crashes of applications
-- to the runner's Cloud Controller: once its event channel is empty, its jobs, in whatever order the
-- pool's workers send their requests, send exactly one request for each crash that the BBS has
-- reported, without credentials, and no other. "1s" is a duration, the base URI can be used, and the
-- URLs for the guids of these crashes are accepted.
pub run_watcher-crashes :
    (system : System) (net : Network) (bin bbs uri consul app_lrp_domain : Str) (d : ℤ)
    (payload : AppCrashedRequest → Str) (flags : List Flag) (w : Watcher BbsClient Client)
    (t : State) (schedule : List Action) (order : List Job)
    → system.numerals.parse_duration (bytes "1s") ≡ some d
    → parse system.numerals
        (new_watcher bin bbs uri consul).args
        (watcher_flags system.locket_ttl system.locket_retry_interval ++ system.other_flags)
      ≡ some flags
    → run_watcher system flags ≡ watches w
    → IsUsable net system.join uri [] [] false payload
    → All
        (λ e. Accepts net system.join uri [] [] false payload e.process_guid)
        (crashes app_lrp_domain schedule)
    → run app_lrp_domain init schedule ≡ some t
    → t.event_chan ≡ []
    → Permᴰ t.submitted order
    → (sent : List HttpRequest) × (run_jobs net w.cc_client order ≡ some sent)
      × Permᴰ
          (map
            (report_of net system.join uri [] [] false payload)
            (crashes app_lrp_domain schedule))
          sent
run_watcher-crashes system net bin bbs uri consul app_lrp_domain d payload flags w t schedule order
      second parsed watching usable accepted reached idle p =
    let given = given_watcher_flags system.locket_ttl d bbs uri consul ++ system.other_flags in
    let same : flags ≡ given = some-injective _ _ (
      sym parsed
      ∙ parse-new_watcher system.numerals system.other_flags bin bbs uri consul system.locket_ttl
          system.locket_retry_interval d second) in
    let client : w.cc_client ≡ new_cc_client system.join uri [] [] false =
      watches-cc_client system flags w watching
      ∙ ap (cc_client_of system) same
      ∙ cc_client_of-given system bbs uri consul system.locket_ttl d in
    let (sent, out, all) =
      run_jobs-crashes net system.join uri [] [] false payload app_lrp_domain t schedule order
        usable accepted reached idle p in
    (sent, ap (λ c. run_jobs net c order) client ∙ out, all)
