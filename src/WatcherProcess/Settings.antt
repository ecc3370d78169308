-- ===== src/WatcherProcess/Settings.antt =====
-- cmd/tps-watcher/main.go: the flags of the watcher's process.
use tps.Base.{ℤ, Str, bytes, pos, false, List, [], ◌∷◌}
use tps.Flags.{Flag, Value, text, number, boolean, duration}

abbrev pub bbs_address : Str
bbs_address = bytes "bbsAddress"

abbrev pub consul_cluster : Str
consul_cluster = bytes "consulCluster"

abbrev pub lock_ttl : Str
lock_ttl = bytes "lockTTL"

abbrev pub lock_retry_interval : Str
lock_retry_interval = bytes "lockRetryInterval"

abbrev pub cc_base_url : Str
cc_base_url = bytes "ccBaseURL"

abbrev pub cc_username : Str
cc_username = bytes "ccUsername"

abbrev pub cc_password : Str
cc_password = bytes "ccPassword"

abbrev pub skip_cert_verify : Str
skip_cert_verify = bytes "skipCertVerify"

abbrev pub bbs_ca_cert : Str
bbs_ca_cert = bytes "bbsCACert"

abbrev pub bbs_client_cert : Str
bbs_client_cert = bytes "bbsClientCert"

abbrev pub bbs_client_key : Str
bbs_client_key = bytes "bbsClientKey"

abbrev pub bbs_client_session_cache_size : Str
bbs_client_session_cache_size = bytes "bbsClientSessionCacheSize"

abbrev pub bbs_max_idle_conns_per_host : Str
bbs_max_idle_conns_per_host = bytes "bbsMaxIdleConnsPerHost"

abbrev pub event_handling_workers : Str
event_handling_workers = bytes "eventHandlingWorkers"

abbrev pub dropsonde_port : Str
dropsonde_port = bytes "dropsondePort"

abbrev pub dropsonde_origin : Str
dropsonde_origin = bytes "tps_watcher"

abbrev flag : Str → Value → Flag
flag name value = record { name = name; value = value }

-- The flags that the file declares, with their defaults; two of them are constants of locket.
unfoldable pub watcher_flags : ℤ → ℤ → List Flag
watcher_flags locket_ttl locket_retry_interval =
    flag bbs_address (text [])
    ∷ flag consul_cluster (text [])
    ∷ flag lock_ttl (duration locket_ttl)
    ∷ flag lock_retry_interval (duration locket_retry_interval)
    ∷ flag dropsonde_port (number (pos 3457))
    ∷ flag cc_base_url (text [])
    ∷ flag cc_username (text [])
    ∷ flag cc_password (text [])
    ∷ flag skip_cert_verify (boolean false)
    ∷ flag bbs_ca_cert (text [])
    ∷ flag bbs_client_cert (text [])
    ∷ flag bbs_client_key (text [])
    ∷ flag bbs_client_session_cache_size (number (pos 0))
    ∷ flag bbs_max_idle_conns_per_host (number (pos 0))
    ∷ flag event_handling_workers (number (pos 500))
    ∷ []
