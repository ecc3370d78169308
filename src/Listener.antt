-- ===== src/Listener.antt =====
-- cmd/tps-listener/main.go: the flags of the listener, and the group of runners that it starts.
mod Settings
pub mod Start
pub mod Serving
mod Tests
use tps.Base.{
  ℕ, ℤ, pos, negsuc, Str, bytes, str_eq, Bool, true, false, Option, none, some, List, [], ◌∷◌, ◌++◌,
  if◌then◌else◌,
}
unfoldable pub use Settings.*
use tps.Decimal.{sprint_int}
use tps.Flags.{
  boolean_of, Flag, Value, text, number, boolean, duration, Numerals, text_of, number_of, parse,
}
use tps.Routes.{Route}
use tps.Handler.Table.{TpsHandler, new}

-- api.AgentServiceRegistration, with the check's TTL.
pub record Registration : Type 0 where
  pub name : Str
  pub port : ℕ
  pub ttl : Str

-- restclient.Config
pub record KubeConfig : Type 0 where
  pub host : Str
  pub cert_file : Str
  pub key_file : Str
  pub ca_file : Str

-- What `consumer.New` is given: the traffic controller's URL, and whether certificates go unverified.
pub record NoaaConsumer : Type 0 where
  pub traffic_controller_url : Str
  pub insecure_skip_verify : Bool

-- What `handler.New` is given.
pub record ApiHandler : Type 0 where
  pub kube : KubeConfig
  pub noaa : NoaaConsumer
  pub max_in_flight : ℕ
  pub bulk_lrp_status_workers : ℤ

-- The runners of the group, each with what it is made from: the server has its address, the
-- registration the URL of consul and locket's interval.
pub data Member : Type 0 where
  debug_server : Str → Member
  api : Str → ApiHandler → Member
  registration_runner : Registration → Str → ℤ → Member

-- The names that the group knows its members by.
unfoldable pub name_of : Member → Str
name_of (debug_server _) = bytes "debug-server"
name_of (api _ _) = bytes "api"
name_of (registration_runner _ _ _) = bytes "registration-runner"

-- `logger.Fatal` logs its message and panics; another panic is that of a channel of negative size.
pub data Outcome : Type 0 where
  usage_error panicked : Outcome
  fatal : Str → Outcome
  starts : List Member → Outcome

-- The start of the process, with the errors that it logs and survives.
pub record Process : Type 0 where
  pub logged : List Str
  pub outcome : Outcome

-- What the listener calls: whether dropsonde takes a destination and an origin, whether a client of
-- Kubernetes can be made, rata's NewRouter, whether consul's client can be made for a URL, the
-- resolution of an address, locket's RetryInterval, and the debug server's address among the flags.
pub record System (Router : Type 0) : Type 0 where
  pub dropsonde_initialize : Str → Str → Bool
  pub new_k8s_client : KubeConfig → Bool
  pub new_router : List Route → List (Str × TpsHandler) → Option Router
  pub new_consul_client : Str → Bool
  pub split_host_port : Str → Option (Str × Str)
  pub lookup_port : Str → Option ℕ
  pub locket_retry_interval : ℤ
  pub debug_address : List Flag → Str
  pub other_flags : List Flag
  pub numerals : Numerals

-- `*maxInFlightRequests`
unfoldable pub max_in_flight_of : List Flag → ℤ
unfolding number_of
max_in_flight_of flags = number_of max_in_flight_requests flags

-- The consumer of noaa that `main` makes.
unfoldable pub noaa_consumer_of : List Flag → NoaaConsumer
unfolding text_of boolean_of
noaa_consumer_of flags = record {
  traffic_controller_url = text_of traffic_controller_url flags;
  insecure_skip_verify = boolean_of skip_ssl_verification flags;
}

-- The configuration in `initializeK8sClient`.
unfoldable pub kube_config_of : List Flag → KubeConfig
unfolding text_of
kube_config_of flags = record {
  host = text_of kube_cluster flags;
  cert_file = text_of kube_client_cert flags;
  key_file = text_of kube_client_key flags;
  ca_file = text_of kube_ca_cert flags;
}

module _ {Router : Type 0} (system : System Router) where
  -- `initializeK8sClient`, and what is done with the client.
  unfoldable pub initialize_k8s_client : List Flag → (KubeConfig → Outcome) → Outcome
  unfolding kube_config_of
  initialize_k8s_client flags rest =
      let config = kube_config_of flags in
      if system.new_k8s_client config
      then rest config
      else fatal (bytes "Can't create Kubernetes Client")

  -- `initializeHandler`, and what is done with the handler: a negative limit is no size of a channel.
  unfoldable pub initialize_handler :
      List Flag → NoaaConsumer → KubeConfig → (ApiHandler → Outcome) → Outcome
  unfolding max_in_flight_of number_of
  initialize_handler flags noaa kube rest = elim (max_in_flight_of flags) [
    | negsuc _ ↦ panicked
    | pos max_in_flight ↦ elim (new system.new_router max_in_flight) [
      | none ↦ fatal (bytes "initialize-handler.failed")
      | some _ ↦ rest (record {
        kube = kube;
        noaa = noaa;
        max_in_flight = max_in_flight;
        bulk_lrp_status_workers = number_of bulk_lrp_status_workers flags;
      })
    ]
  ]

  -- The construction of consul's client, and what is done with it.
  unfoldable pub connect_consul : List Flag → (Str → Outcome) → Outcome
  unfolding text_of
  connect_consul flags rest =
      let url = text_of consul_cluster flags in
      if system.new_consul_client url then rest url else fatal (bytes "new-client-failed")

  -- `initializeRegistrationRunner`, and what is done with the runner.
  unfoldable pub initialize_registration_runner : Str → Str → (Member → Outcome) → Outcome
  initialize_registration_runner consul addr rest = elim (system.split_host_port addr) [
    | none ↦ fatal (bytes "failed-invalid-listen-address")
    | some (host, port_string) ↦ elim (system.lookup_port port_string) [
      | none ↦ fatal (bytes "failed-invalid-listen-port")
      | some port ↦ rest (
          registration_runner (record { name = bytes "tps"; port = port; ttl = bytes "3s" }) consul
            system.locket_retry_interval)
    ]
  ]

  -- The members: the debug server, where it has an address, comes first.
  unfoldable pub members_of : List Flag → Str → ApiHandler → Member → List Member
  members_of flags addr handler registration =
      let members = api addr handler ∷ registration ∷ [] in
      let debug_addr = system.debug_address flags in
      if str_eq debug_addr [] then members else debug_server debug_addr ∷ members

  -- `main`, from the consumer of noaa on.
  unfoldable pub start : List Flag → Outcome
  unfolding noaa_consumer_of initialize_k8s_client initialize_handler connect_consul
      initialize_registration_runner members_of text_of
  start flags =
      let noaa = noaa_consumer_of flags in
      let addr = text_of listen_addr flags in
      initialize_k8s_client flags (λ kube. initialize_handler flags noaa kube (λ handler.
        connect_consul flags (λ consul.
          initialize_registration_runner consul addr
            (λ registration. starts (members_of flags addr handler registration)))))

  -- `initializeDropsonde`: the errors that it logs.
  unfoldable pub initialize_dropsonde : List Flag → List Str
  unfolding number_of
  initialize_dropsonde flags =
      if system.dropsonde_initialize
        (bytes "localhost:" ++ sprint_int (number_of dropsonde_port flags)) dropsonde_origin
      then []
      else bytes "failed to initialize dropsonde: %v" ∷ []

  -- `main`, from the result of `flag.Parse()` on.
  unfoldable pub start_parsed : Option (List Flag) → Process
  unfolding start initialize_dropsonde
  start_parsed none = record { logged = []; outcome = usage_error }
  start_parsed (some flags) = record { logged = initialize_dropsonde flags; outcome = start flags }

  -- `main`, for the arguments of the process.
  abbrev pub main : List Str → Process
  main args = start_parsed (parse system.numerals args (listener_flags ++ system.other_flags))

-- The exit of the process, from whether the group has failed.
unfoldable pub exit_code : Bool → ℕ
exit_code failed = if failed then 1 else 0
