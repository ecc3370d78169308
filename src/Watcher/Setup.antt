-- ===== src/Watcher/Setup.antt =====
-- watcher/watcher.go: `Watcher` and `NewWatcher`.
use tps.Base.{ℤ, pos, Bool, Option, none, some, if◌then◌else◌}

-- `DefaultRetryPauseInterval`, in nanoseconds.
abbrev pub default_retry_pause_interval : ℤ
default_retry_pause_interval = pos 1000000000

-- The struct; the pool by its size.
pub record Watcher (BbsClient CcClient : Type 0) : Type 0 where
  pub bbs_client : BbsClient
  pub cc_client : CcClient
  pub retry_pause_interval : ℤ
  pub pool : ℤ

-- `NewWatcher`, over workpool's `NewWorkPool`, which refuses some sizes; none is its error.
unfoldable pub new_watcher :
    {BbsClient CcClient : Type 0}
    → (ℤ → Bool)
    → ℤ
    → ℤ
    → BbsClient
    → CcClient
    → Option (Watcher BbsClient CcClient)
new_watcher new_work_pool work_pool_size retry_pause_interval bbs_client cc_client =
    if new_work_pool work_pool_size
    then some (record {
      bbs_client = bbs_client;
      cc_client = cc_client;
      retry_pause_interval = retry_pause_interval;
      pool = work_pool_size;
    })
    else none
