-- ===== src/ServiceClient.antt =====
-- service_client.go: the lock that keeps one watcher active. The lock itself is locket's.
use tps.Base.{ℤ, Str, bytes}

-- `TPSWatcherLockSchemaKey`
abbrev pub tps_watcher_lock_schema_key : Str
tps_watcher_lock_schema_key = bytes "tps_watcher_lock"

-- `TPSWatcherLockSchemaPath`, over locket's `LockSchemaPath`.
unfoldable pub tps_watcher_lock_schema_path : (Str → Str) → Str
tps_watcher_lock_schema_path lock_schema_path = lock_schema_path tps_watcher_lock_schema_key

-- `serviceClient`: the client of consul, by its URL.
pub record ServiceClient : Type 0 where
  pub consul_client : Str

-- `NewServiceClient`
unfoldable pub new_service_client : Str → ServiceClient
new_service_client consul_client = record { consul_client = consul_client }

-- The arguments of `locket.NewLock`.
pub record Lock : Type 0 where
  pub consul_client : Str
  pub key : Str
  pub value : Str
  pub retry_interval : ℤ
  pub ttl : ℤ

-- `NewTPSWatcherLockRunner`
unfoldable pub new_tps_watcher_lock_runner : (Str → Str) → ServiceClient → Str → ℤ → ℤ → Lock
unfolding tps_watcher_lock_schema_path
new_tps_watcher_lock_runner lock_schema_path client emitter_id retry_interval ttl = record {
  consul_client = client.consul_client;
  key = tps_watcher_lock_schema_path lock_schema_path;
  value = emitter_id;
  retry_interval = retry_interval;
  ttl = ttl;
}
