-- ===== src/Runner/Args.antt =====
-- What the processes read from the runner's arguments.
use tps.Base.{
  if◌then◌else◌, ℕ, ℤ, pos, Str, bytes, str_eq, true, false, none, some, List, [], ◌∷◌, ◌++◌, ◌≡◌,
  ◌≢◌, refl,
}
use tps.Decimal.{sprint_int}
use tps.Flags.{
  number_of, duration_of, boolean_of, text_of, Flag, text, number, boolean, duration, Numerals,
  value_of, parse,
}
use tps.Listener
use tps.Listener.{listener_flags, System, max_in_flight_of}
use tps.Listener.Start.{start-starts_iff}
use tps.Handler.Table.{new}
use tps.WatcherProcess.{watcher_flags}
use tps.WatcherProcess
use tps.WatcherProcess.Start.{start-lock_iff}
use tps.CcClient.{new_cc_client}
use tps.Runner.{new_listener, new_watcher}

-- The flags of the listener as the runner sets them.
abbrev pub given_listener_flags : Str → Str → Str → Str → Str → Str → Str → List Flag
given_listener_flags addr kube cert key ca traffic consul =
    record { name = bytes "listenAddr"; value = text addr }
    ∷ record { name = bytes "dropsondePort"; value = number (pos 3457) }
    ∷ record { name = bytes "trafficControllerURL"; value = text traffic }
    ∷ record { name = bytes "skipSSLVerification"; value = boolean true }
    ∷ record { name = bytes "maxInFlightRequests"; value = number (pos 200) }
    ∷ record { name = bytes "kubeCluster"; value = text kube }
    ∷ record { name = bytes "kubeCACert"; value = text ca }
    ∷ record { name = bytes "kubeClientCert"; value = text cert }
    ∷ record { name = bytes "kubeClientKey"; value = text key }
    ∷ record { name = bytes "bulkLRPStatusWorkers"; value = number (pos 15) }
    ∷ record { name = bytes "consulCluster"; value = text consul }
    ∷ []

-- From the arguments of the runner the listener reads exactly the runner's texts, whatever they
-- hold, and leaves every other flag at its default.
parse-new_listener :
    (numerals : Numerals) (others : List Flag) (bin addr kube cert key ca traffic consul : Str)
    → parse numerals
        (new_listener bin addr kube cert key ca traffic consul).args
        (listener_flags ++ others)
      ≡ some (given_listener_flags addr kube cert key ca traffic consul ++ others)
unfolding parse listener_flags new_listener str_eq
parse-new_listener numerals others bin addr kube cert key ca traffic consul = refl

-- What the listener serves and registers, from the runner's texts.
abbrev pub listener_group :
    {Router : Type 0}
    → System Router
    → Str
    → Str
    → Str
    → Str
    → Str
    → Str
    → Str
    → ℕ
    → List Listener.Member
listener_group system addr kube cert key ca traffic consul port =
    Listener.api addr (record {
      kube = record { host = kube; cert_file = cert; key_file = key; ca_file = ca };
      noaa = record { traffic_controller_url = traffic; insecure_skip_verify = true };
      max_in_flight = 200;
      bulk_lrp_status_workers = pos 15;
    })
    ∷ Listener.registration_runner (record { name = bytes "tps"; port = port; ttl = bytes "3s" })
        consul system.locket_retry_interval
    ∷ []

-- The listener that the runner starts, with a cluster and a consul to which clients can be made, a
-- router that takes the handlers at the default limit of 200, an address with a port, and no address
-- for the debug server, serves at the runner's address, with the runner's cluster and traffic
-- controller, whose certificate it does not verify, and 15 workers, and registers its port with the
-- runner's consul. It sends its metrics to port 3457 of the host, and logs one error and goes on where
-- that cannot be set up.
pub main-new_listener :
    {Router : Type 0} (system : System Router)
    (bin addr kube cert key ca traffic consul host service : Str) (port : ℕ)
    → system.new_k8s_client (record { host = kube; cert_file = cert; key_file = key; ca_file = ca })
      ≡ true
    → new system.new_router 200 ≢ none
    → system.new_consul_client consul ≡ true
    → system.split_host_port addr ≡ some (host, service)
    → system.lookup_port service ≡ some port
    → system.debug_address
        (given_listener_flags addr kube cert key ca traffic consul ++ system.other_flags)
      ≡ []
    → Listener.main system (new_listener bin addr kube cert key ca traffic consul).args ≡ record {
      logged =
          if system.dropsonde_initialize (bytes "localhost:3457") (bytes "tps_listener")
          then []
          else bytes "failed to initialize dropsonde: %v" ∷ [];
      outcome = Listener.starts (listener_group system addr kube cert key ca traffic consul port);
    }
unfolding Listener.start_parsed Listener.initialize_dropsonde sprint_int text_of number_of
    boolean_of max_in_flight_of str_eq value_of Listener.kube_config_of Listener.noaa_consumer_of
    Listener.members_of
main-new_listener system bin addr kube cert key ca traffic consul host service port k r c split
      found quiet =
    let flags = given_listener_flags addr kube cert key ca traffic consul ++ system.other_flags in
    let started =
      (start-starts_iff system flags
          (listener_group system addr kube cert key ca traffic consul port)).1
        (
          200,
          port,
          record {
            kubernetes = k;
            limit = refl;
            routed = r;
            consul = c;
            address = (host, service, split, found);
          },
          rw quiet refl,
        ) in
    rw
      (parse-new_listener system.numerals system.other_flags bin addr kube cert key ca traffic
        consul)
      (rw started refl)

-- The flags of the watcher as the runner sets them, with the duration that "1s" stands for.
abbrev pub given_watcher_flags : ℤ → ℤ → Str → Str → Str → List Flag
given_watcher_flags ttl d bbs cc consul =
    record { name = bytes "bbsAddress"; value = text bbs }
    ∷ record { name = bytes "consulCluster"; value = text consul }
    ∷ record { name = bytes "lockTTL"; value = duration ttl }
    ∷ record { name = bytes "lockRetryInterval"; value = duration d }
    ∷ record { name = bytes "dropsondePort"; value = number (pos 3457) }
    ∷ record { name = bytes "ccBaseURL"; value = text cc }
    ∷ record { name = bytes "ccUsername"; value = text [] }
    ∷ record { name = bytes "ccPassword"; value = text [] }
    ∷ record { name = bytes "skipCertVerify"; value = boolean false }
    ∷ record { name = bytes "bbsCACert"; value = text [] }
    ∷ record { name = bytes "bbsClientCert"; value = text [] }
    ∷ record { name = bytes "bbsClientKey"; value = text [] }
    ∷ record { name = bytes "bbsClientSessionCacheSize"; value = number (pos 0) }
    ∷ record { name = bytes "bbsMaxIdleConnsPerHost"; value = number (pos 0) }
    ∷ record { name = bytes "eventHandlingWorkers"; value = number (pos 500) }
    ∷ []

-- From the arguments of the runner the watcher's process reads exactly the runner's texts, and "1s"
-- as the interval of the lock, and leaves every other flag at its default.
pub parse-new_watcher :
    (numerals : Numerals) (others : List Flag) (bin bbs cc consul : Str) (ttl interval d : ℤ)
    → numerals.parse_duration (bytes "1s") ≡ some d
    → parse numerals (new_watcher bin bbs cc consul).args (watcher_flags ttl interval ++ others)
      ≡ some (given_watcher_flags ttl d bbs cc consul ++ others)
unfolding parse watcher_flags new_watcher str_eq
parse-new_watcher numerals others bin bbs cc consul ttl interval d h = rw h refl

-- The watcher's process that the runner starts, with a consul to which a client can be made, a fresh
-- UUID and no address for the debug server, starts two runners: the lock of that UUID, tried again
-- after the runner's "1s", and the watcher, which reports to the runner's Cloud Controller without
-- credentials and checks certificates.
pub main-new_watcher :
    (system : WatcherProcess.System) (bin bbs cc consul uuid : Str) (d : ℤ)
    → system.numerals.parse_duration (bytes "1s") ≡ some d
    → system.new_consul_client consul ≡ true
    → system.new_uuid ≡ some uuid
    → system.debug_address
        (given_watcher_flags system.locket_ttl d bbs cc consul ++ system.other_flags)
      ≡ []
    → (WatcherProcess.main system (new_watcher bin bbs cc consul).args).outcome
      ≡ WatcherProcess.starts (
          WatcherProcess.lock_maintainer (record {
            consul_client = consul;
            key = system.lock_schema_path (bytes "tps_watcher_lock");
            value = uuid;
            retry_interval = d;
            ttl = system.locket_ttl;
          })
          ∷ WatcherProcess.watcher (new_cc_client system.join cc [] [] false)
          ∷ [])
unfolding WatcherProcess.start_parsed WatcherProcess.members_of text_of value_of duration_of
    boolean_of str_eq
main-new_watcher system bin bbs cc consul uuid d second c u quiet =
    let flags = given_watcher_flags system.locket_ttl d bbs cc consul ++ system.other_flags in
    let parsed =
      parse-new_watcher system.numerals system.other_flags bin bbs cc consul system.locket_ttl
        system.locket_retry_interval d second in
    rw parsed ((start-lock_iff system flags _).1 (c, uuid, u, rw quiet refl))
