-- ===== src/WatcherProcess.antt =====
-- cmd/tps-watcher/main.go: the flags of the watcher's process, the group of runners that it starts,
-- and what its watcher runner does once the lock is held.
mod Settings
pub mod Start
mod Tests
use tps.Base.{
  ℕ, ℤ, pos, Str, bytes, str_eq, Bool, true, false, Option, none, some, List, [], ◌∷◌, ◌++◌,
  if◌then◌else◌,
}
unfoldable pub use Settings.*
use tps.Decimal.{sprint_int}
use tps.Flags.{
  Flag, Value, text, number, boolean, duration, Numerals, text_of, number_of, duration_of,
  boolean_of, parse,
}
use tps.ServiceClient.{Lock, new_service_client, new_tps_watcher_lock_runner}
use tps.Watcher.Setup.{Watcher, default_retry_pause_interval, new_watcher}
use tps.CcClient.{Client, new_cc_client}

-- The client of the BBS, with the arguments of its constructor.
pub data BbsClient : Type 0 where
  plain_client : Str → BbsClient
  secure_client : Str → Str → Str → Str → ℤ → ℤ → BbsClient

-- The runners of the group.
pub data Member : Type 0 where
  debug_server : Str → Member
  lock_maintainer : Lock → Member
  watcher : Client → Member

-- The names that the group knows its members by.
unfoldable pub name_of : Member → Str
name_of (debug_server _) = bytes "debug-server"
name_of (lock_maintainer _) = bytes "lock-maintainer"
name_of (watcher _) = bytes "watcher"

pub data Outcome : Type 0 where
  usage_error : Outcome
  fatal : Str → Outcome
  starts : List Member → Outcome

-- What becomes of the watcher runner: `logger.Fatal`, the error of NewWatcher, or `Run` on a client.
pub data WatcherStart : Type 0 where
  bbs_fatal : Str → WatcherStart
  refused : WatcherStart
  watches : Watcher BbsClient Client → WatcherStart

-- The start of the process, with the errors that it logs and survives.
pub record Process : Type 0 where
  pub logged : List Str
  pub outcome : Outcome

-- What the process calls: dropsonde with a destination and an origin, consul's client, a new UUID, locket's path and constants, urljoiner's Join,
-- the scheme of a URL (none if it cannot be parsed), the secure client of the BBS, the work pool, the
-- debug server's address among the flags.
pub record System : Type 0 where
  pub dropsonde_initialize : Str → Str → Bool
  pub new_consul_client : Str → Bool
  pub new_uuid : Option Str
  pub lock_schema_path : Str → Str
  pub locket_ttl : ℤ
  pub locket_retry_interval : ℤ
  pub join : Str → Str → Str
  pub url_scheme : Str → Option Str
  pub new_secure_client : Str → Str → Str → Str → ℤ → ℤ → Bool
  pub new_work_pool : ℤ → Bool
  pub debug_address : List Flag → Str
  pub other_flags : List Flag
  pub numerals : Numerals

module _ (system : System) where
  -- The client of the Cloud Controller that `main` makes.
  unfoldable pub cc_client_of : List Flag → Client
  unfolding text_of boolean_of new_cc_client
  cc_client_of flags =
      new_cc_client system.join (text_of cc_base_url flags) (text_of cc_username flags)
        (text_of cc_password flags) (boolean_of skip_cert_verify flags)

  -- `initializeBBSClient`, under the function of the watcher runner.
  unfoldable pub run_watcher : List Flag → WatcherStart
  unfolding text_of number_of cc_client_of new_watcher
  run_watcher flags =
      let address = text_of bbs_address flags in
      let ca = text_of bbs_ca_cert flags in
      let cert = text_of bbs_client_cert flags in
      let key = text_of bbs_client_key flags in
      let cache = number_of bbs_client_session_cache_size flags in
      let idle = number_of bbs_max_idle_conns_per_host flags in
      let watch : BbsClient → WatcherStart = λ client.
        elim (new_watcher system.new_work_pool (number_of event_handling_workers flags)
          default_retry_pause_interval client (cc_client_of flags)) [
            | none ↦ refused
            | some w ↦ watches w
          ] in
      elim (system.url_scheme address) [
        | none ↦ bbs_fatal (bytes "Invalid BBS URL")
        | some scheme ↦
            if str_eq scheme (bytes "https")
            then (if system.new_secure_client address ca cert key cache idle
                then watch (secure_client address ca cert key cache idle)
                else bbs_fatal (bytes "Failed to configure secure BBS client"))
            else watch (plain_client address)
      ]

  -- `initializeServiceClient` and `initializeLockMaintainer`: the lock, or the message of the failure.
  unfoldable pub initialize_lock_maintainer : List Flag → (Lock → Outcome) → Outcome
  unfolding text_of duration_of new_service_client new_tps_watcher_lock_runner
  initialize_lock_maintainer flags rest =
      let consul = text_of consul_cluster flags in
      let client = new_service_client consul in
      if system.new_consul_client consul
      then elim system.new_uuid [
        | none ↦ fatal (bytes "Couldn't generate uuid")
        | some uuid ↦ rest (
            new_tps_watcher_lock_runner system.lock_schema_path client uuid
              (duration_of lock_retry_interval flags) (duration_of lock_ttl flags))
      ]
      else fatal (bytes "new-client-failed")

  -- The members: the debug server, where it has an address, comes first.
  unfoldable pub members_of : List Flag → Lock → List Member
  unfolding cc_client_of
  members_of flags lock =
      let debug_addr = system.debug_address flags in
      let members = lock_maintainer lock ∷ watcher (cc_client_of flags) ∷ [] in
      if str_eq debug_addr [] then members else debug_server debug_addr ∷ members

  -- `main`, from `flag.Parse()` on.
  unfoldable pub start : List Flag → Outcome
  unfolding initialize_lock_maintainer members_of
  start flags = initialize_lock_maintainer flags (λ lock. starts (members_of flags lock))

  -- `initializeDropsonde`: the errors that it logs.
  unfoldable pub initialize_dropsonde : List Flag → List Str
  unfolding number_of
  initialize_dropsonde flags =
      if system.dropsonde_initialize
        (bytes "localhost:" ++ sprint_int (number_of dropsonde_port flags)) dropsonde_origin
      then []
      else bytes "failed to initialize dropsonde: %v" ∷ []

  -- `main`, from the result of `flag.Parse()` on.
  unfoldable pub start_parsed : Option (List Flag) → Process
  unfolding start initialize_dropsonde
  start_parsed none = record { logged = []; outcome = usage_error }
  start_parsed (some flags) = record { logged = initialize_dropsonde flags; outcome = start flags }

  -- `main`, for the arguments of the process.
  abbrev pub main : List Str → Process
  main args = start_parsed (
      parse system.numerals args
        (watcher_flags system.locket_ttl system.locket_retry_interval ++ system.other_flags))

-- The exit of the process, from whether the group has failed.
unfoldable pub exit_code : Bool → ℕ
exit_code failed = if failed then 1 else 0
