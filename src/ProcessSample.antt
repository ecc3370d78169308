-- ===== src/ProcessSample.antt =====
-- Systems at which the examples of the two processes run.
use tps.Base.{pos, Str, bytes, true, false, none, some, [], ◌++◌}
use tps.Listener
use tps.WatcherProcess

-- Everything can be made, and port texts name port 1518.
abbrev pub listener_system : Listener.System Str
listener_system = record {
  dropsonde_initialize = λ destination origin. false;
  new_k8s_client = λ config. true;
  new_router = λ table hs. some (bytes "router");
  new_consul_client = λ url. true;
  split_host_port = λ addr. some (bytes "0.0.0.0", bytes "1518");
  lookup_port = λ service. some 1518;
  locket_retry_interval = pos 5000000000;
  debug_address = λ flags. [];
  other_flags = [];
  numerals = record { parse_int = λ s. none; parse_duration = λ s. some (pos 1000000000) };
}

-- Everything can be made, and every address has the scheme http.
abbrev pub watcher_system : WatcherProcess.System
watcher_system = record {
  dropsonde_initialize = λ destination origin. true;
  new_consul_client = λ url. true;
  new_uuid = some (bytes "u");
  lock_schema_path = λ key. bytes "v1/locks/" ++ key;
  locket_ttl = pos 15000000000;
  locket_retry_interval = pos 5000000000;
  join = λ base path. base ++ path;
  url_scheme = λ url. some (bytes "http");
  new_secure_client = λ url ca cert key cache idle. true;
  new_work_pool = λ workers. true;
  debug_address = λ flags. [];
  other_flags = [];
  numerals = record { parse_int = λ s. none; parse_duration = λ s. some (pos 1000000000) };
}
