-- ===== src/WatcherProcess/Tests.antt =====
-- The start of the watcher's process at concrete flags.
use tps.Base.{pos, false, str_eq, refl, ◌∷◌, Str, bytes, true, some, List, [], ◌≡◌, ◌≢◌, ◌↔◌, ◌⊎◌}
use tps.Flags.{value_of, Flag, text_of, number_of}
use tps.ProcessSample.{watcher_system}
use tps.Watcher.Setup.{Watcher}
use tps.CcClient.{Client, new_cc_client}
use tps.WatcherProcess.{
  Member, lock_maintainer, watcher, BbsClient, starts, plain_client, secure_client, watches,
  watcher_flags, start, run_watcher, bbs_address, event_handling_workers, consul_cluster,
}
use tps.WatcherProcess.Start.{
  group_of, https, watcher_on, with_certificates, run_watcher-watches_iff, start-lock_iff,
}

abbrev flags : List Flag
flags = watcher_flags watcher_system.locket_ttl watcher_system.locket_retry_interval

abbrev plain : Watcher BbsClient Client
plain = watcher_on watcher_system flags (plain_client [])

run_watcher-watches_iff_example : (run_watcher watcher_system flags ≡ watches plain) ↔ (
    (scheme : Str) × (watcher_system.url_scheme (text_of bbs_address flags) ≡ some scheme)
    × (watcher_system.new_work_pool (number_of event_handling_workers flags) ≡ true)
    × (((scheme ≡ https)
          × (with_certificates watcher_system flags watcher_system.new_secure_client ≡ true)
          × (plain
              ≡ watcher_on watcher_system flags
                  (with_certificates watcher_system flags secure_client)))
        ⊎ ((scheme ≢ https)
            × (plain
                ≡ watcher_on watcher_system flags (plain_client (text_of bbs_address flags))))))
run_watcher-watches_iff_example = run_watcher-watches_iff watcher_system flags plain

-- The group that the defaults start.
abbrev default_group : List Member
default_group =
    lock_maintainer (record {
      consul_client = [];
      key = bytes "v1/locks/tps_watcher_lock";
      value = bytes "u";
      retry_interval = pos 5000000000;
      ttl = pos 15000000000;
    })
    ∷ watcher (new_cc_client watcher_system.join [] [] [] false)
    ∷ []

start_of_defaults : start watcher_system flags ≡ starts default_group
unfolding start watcher_flags str_eq value_of
start_of_defaults = refl

start-lock_iff_example : (start watcher_system flags ≡ starts default_group) ↔ (
    (watcher_system.new_consul_client (text_of consul_cluster flags) ≡ true)
    × (uuid : Str) × (watcher_system.new_uuid ≡ some uuid)
    × (default_group ≡ group_of watcher_system flags uuid))
start-lock_iff_example = start-lock_iff watcher_system flags default_group
