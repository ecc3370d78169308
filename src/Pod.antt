-- ===== src/Pod.antt =====
-- The fields of the Kubernetes API objects that the program reads (k8s.io/kubernetes, api/v1), and
-- the instance record of runtime-schema/cc_messages that it fills in.
use tps.Base.{ℕ, ℤ, pos, Str, str_eq, Bool, Option, none, List, [], ◌∷◌, if◌then◌else◌}

-- A Go map from strings to strings; a missing key reads as "".
abbrev pub StrMap : Type 0
StrMap = List (Str × Str)

unfoldable pub get : Str → StrMap → Str
get k [] = []
get k ((j, v) ∷ m) = if str_eq j k then v else get k m

-- v1.ContainerStatus; of the state's three pointers only whether they are nil is read.
pub record ContainerStatus : Type 0 where
  pub name : Str
  pub waiting : Bool
  pub running : Bool
  pub terminated : Bool

-- v1.Pod: the metadata's UID, labels and annotations, the status's start time (a pointer, in
-- nanoseconds since the epoch where it is not nil) and container statuses.
pub record Pod : Type 0 where
  pub uid : Str
  pub labels : StrMap
  pub annotations : StrMap
  pub start_time : Option ℤ
  pub container_statuses : List ContainerStatus

-- cc_messages.LRPInstanceStats, with the bit pattern of the percentage.
pub record Stats : Type 0 where
  pub time : ℤ
  pub cpu_percentage : ℕ
  pub memory_bytes : ℕ
  pub disk_bytes : ℕ

-- cc_messages.LRPInstance
pub record LrpInstance : Type 0 where
  pub process_guid : Str
  pub instance_guid : Str
  pub index : ℕ
  pub since : ℤ
  pub uptime : ℤ
  pub state : Str
  pub stats : Option Stats

-- The zero value, which `make` fills an array with.
abbrev pub zero_instance : LrpInstance
zero_instance = record {
  process_guid = [];
  instance_guid = [];
  index = 0;
  since = pos 0;
  uptime = pos 0;
  state = [];
  stats = none;
}
