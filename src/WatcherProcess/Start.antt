-- ===== src/WatcherProcess/Start.antt =====
-- When the watcher's process starts, and with which client of the BBS.
use tps.Base.{
  [], ◌∷◌, if◌then◌else◌, ℤ, pos, Str, bytes, str_eq, str_eq_iff, true, Bool-cases, Option-cases,
  some, List, ◌≡◌, ◌≢◌, ◌↔◌, ◌⊎◌, inl, inr, arith,
}
use tps.Flags.{boolean_of, Flag, text_of, number_of, duration_of}
use tps.ServiceClient.{new_service_client, new_tps_watcher_lock_runner}
use tps.Watcher.Setup.{Watcher, new_watcher}
use tps.CcClient.{Client, new_cc_client}
use tps.WatcherProcess.{
  cc_base_url, cc_username, cc_password, skip_cert_verify, lock_maintainer, watcher, debug_server,
  bbs_address, consul_cluster, lock_ttl, lock_retry_interval, bbs_ca_cert, bbs_client_cert,
  bbs_client_key, bbs_client_session_cache_size, bbs_max_idle_conns_per_host,
  event_handling_workers, BbsClient, plain_client, secure_client, Member, starts, watches, System,
  cc_client_of, run_watcher, initialize_lock_maintainer, members_of, start,
}

abbrev pub https : Str
https = bytes "https"

module _ (system : System) (flags : List Flag) where
  -- The secure client with the certificates and sizes of the flags, by its constructor or by the
  -- test that it can be made.
  abbrev pub with_certificates : {A : Type 0} → (Str → Str → Str → Str → ℤ → ℤ → A) → A
  with_certificates make =
      make (text_of bbs_address flags) (text_of bbs_ca_cert flags) (text_of bbs_client_cert flags)
        (text_of bbs_client_key flags) (number_of bbs_client_session_cache_size flags)
        (number_of bbs_max_idle_conns_per_host flags)

  -- The watcher with the pool and the client of the Cloud Controller that the flags name.
  abbrev pub watcher_on : BbsClient → Watcher BbsClient Client
  watcher_on client = record {
    bbs_client = client;
    cc_client =
        new_cc_client system.join (text_of cc_base_url flags) (text_of cc_username flags)
          (text_of cc_password flags) (boolean_of skip_cert_verify flags);
    retry_pause_interval = pos 1000000000;
    pool = number_of event_handling_workers flags;
  }

  -- The watcher is made, and run, exactly if the work pool takes its number of workers and the address
  -- of the BBS is a URL; its client of the BBS is the secure one, which has to be possible, for the
  -- scheme https, and the plain one for every other scheme. It has the client of the Cloud Controller
  -- with the URL, the credentials and the verification of the flags, and one second as its interval
  -- between retries.
  pub run_watcher-watches_iff :
      (w : Watcher BbsClient Client)
      → (run_watcher system flags ≡ watches w) ↔ (
          (scheme : Str) × (system.url_scheme (text_of bbs_address flags) ≡ some scheme)
          × (system.new_work_pool (number_of event_handling_workers flags) ≡ true)
          × (((scheme ≡ https)
                × (with_certificates system.new_secure_client ≡ true)
                × (w ≡ watcher_on (with_certificates secure_client)))
              ⊎ ((scheme ≢ https) × (w ≡ watcher_on (plain_client (text_of bbs_address flags))))))
  unfolding run_watcher new_watcher cc_client_of
  run_watcher-watches_iff w = (
    λ h. elim (Option-cases (system.url_scheme (text_of bbs_address flags))) [
      | inl e ↦ absurd (ground arith)
      | inr (scheme, e) ↦ elim (Bool-cases (str_eq scheme https)) [
        | inl secure ↦ elim (Bool-cases (with_certificates system.new_secure_client)) [
          | inl made ↦ (
            scheme,
            e,
            ground arith,
            inl ((str_eq_iff scheme https).0 secure, made, ground arith),
          )
          | inr failed ↦ absurd (ground arith)
        ]
        | inr plain ↦ (
          scheme,
          e,
          ground arith,
          inr ((λ same. cc ((str_eq_iff scheme https).1 same)), ground arith),
        )
      ]
    ],
    λ (scheme, e, pool, kind). elim kind [
      | inl (same, made, is) ↦ ground (arith, (str_eq_iff scheme https).1 same, e, pool, made, is)
      | inr (other, is) ↦ ground (arith, str_eq_iff scheme https, e, pool, other, is)
    ],
  )

  -- The group with the lock of a UUID.
  abbrev pub group_of : Str → List Member
  group_of uuid =
      let members =
        lock_maintainer (record {
          consul_client = text_of consul_cluster flags;
          key = system.lock_schema_path (bytes "tps_watcher_lock");
          value = uuid;
          retry_interval = duration_of lock_retry_interval flags;
          ttl = duration_of lock_ttl flags;
        })
        ∷ watcher (
            new_cc_client system.join (text_of cc_base_url flags) (text_of cc_username flags)
              (text_of cc_password flags) (boolean_of skip_cert_verify flags))
        ∷ [] in
      if str_eq (system.debug_address flags) []
      then members
      else debug_server (system.debug_address flags) ∷ members

  -- The process starts its group exactly if consul's client can be made and a UUID is found. The group
  -- then is the debug server, if that has an address, the lock with that UUID at locket's path for the
  -- watcher, with the interval and the TTL of the flags, and behind it the watcher, with the client of
  -- the Cloud Controller that the flags describe.
  pub start-lock_iff :
      (ms : List Member)
      → (start system flags ≡ starts ms) ↔ (
          (system.new_consul_client (text_of consul_cluster flags) ≡ true)
          × (uuid : Str) × (system.new_uuid ≡ some uuid)
          × (ms ≡ group_of uuid))
  unfolding start initialize_lock_maintainer new_service_client new_tps_watcher_lock_runner
      members_of cc_client_of
  start-lock_iff ms = (
    λ h. elim (Option-cases system.new_uuid) [
      | inl e ↦ absurd (ground arith)
      | inr (uuid, e) ↦ (ground arith, uuid, e, ground arith)
    ],
    λ (consul, uuid, e, is). ground (arith, consul, e, is),
  )
