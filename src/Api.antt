-- ===== src/Api.antt =====
-- What the handlers call and the repository does not hold: the process guid helpers of nsync, the
-- names of the instance states of runtime-schema/cc_messages, the pod listing of the Kubernetes
-- client, the container metrics of noaa, the clock and the JSON encoding of the instances.
use tps.Base.{ℕ, ℤ, Str, bytes, Bool, Option, List, [], ◌≢◌}
use tps.Pod.{Pod, LrpInstance}

-- nsync/helpers: `NewProcessGuid` (none is its error), `ShortenedGuid`, `DecodeProcessGuid` (the
-- value that it returns, also beside an error) and `String`.
pub record GuidHelpers (Guid : Type 0) : Type 0 where
  pub new_process_guid : Str → Option Guid
  pub shortened_guid : Guid → Str
  pub decode_process_guid : Str → Guid
  pub guid_string : Guid → Str

-- cc_messages.LRPInstanceState…
pub record InstanceStates : Type 0 where
  pub starting : Str
  pub running : Str
  pub crashed : Str
  pub down : Str
  pub unknown : Str

-- No state is the empty string.
pub record AreNonempty (s : InstanceStates) : Type 0 where
  pub starting_ne : s.starting ≢ []
  pub running_ne : s.running ≢ []
  pub crashed_ne : s.crashed ≢ []
  pub down_ne : s.down ≢ []
  pub unknown_ne : s.unknown ≢ []

-- `crashed` is another string than the states that a container can have.
pub record CrashedIsApart (s : InstanceStates) : Type 0 where
  pub ne_starting : s.starting ≢ s.crashed
  pub ne_running : s.running ≢ s.crashed
  pub ne_down : s.down ≢ s.crashed
  pub ne_unknown : s.unknown ≢ s.crashed

-- An error of the Kubernetes client: a StatusError with its code, or any other error.
pub data KubeError : Type 0 where
  status_error : ℕ → KubeError
  other_error : KubeError

-- `(*v1.PodList, error)`
pub record Listing : Type 0 where
  pub pods : Option (List Pod)
  pub error : Option KubeError

-- events.ContainerMetric; a float64 is its bit pattern.
pub record Metric : Type 0 where
  pub instance_index : ℤ
  pub cpu_percentage : ℕ
  pub memory_bytes : ℕ
  pub disk_bytes : ℕ

pub record Metrics : Type 0 where
  pub metrics : List Metric
  pub failed : Bool

-- A call to another system, in the order of the calls: a listing by a label and its value, and a
-- query of container metrics by log guid and token.
pub data Call : Type 0 where
  list_pods : Str → Str → Call
  container_metrics : Str → Str → Call

pub record Env (Guid : Type 0) : Type 0 where
  pub guids : GuidHelpers Guid
  pub states : InstanceStates
  pub list : Str → Str → Listing
  pub query : Str → Str → Metrics
  pub clock : ℕ → ℤ
  pub div100 : ℕ → ℕ
  pub marshal : Option (List LrpInstance) → Option Str

abbrev pub process_guid_label : Str
process_guid_label = bytes "cloudfoundry.org/process-guid"
