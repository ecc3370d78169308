-- ===== src/Sample.antt =====
-- Pods and an environment at which the tests and the examples of the theorems run.
use tps.Base.{
  refl, str_ne_of, ◌+◌, ◌/◌, ℤ, pos, Str, bytes, str_eq, true, false, Option, none, some, List, [],
  ◌∷◌, if◌then◌else◌,
}
use tps.Pod.{Pod, ContainerStatus}
use tps.Api.{
  GuidHelpers, InstanceStates, AreNonempty, CrashedIsApart, status_error, other_error, Listing,
  Metrics, Env, process_guid_label,
}

abbrev pub states : InstanceStates
states = record {
  starting = bytes "STARTING";
  running = bytes "RUNNING";
  crashed = bytes "CRASHED";
  down = bytes "DOWN";
  unknown = bytes "UNKNOWN";
}

pub states-AreNonempty : AreNonempty states
states-AreNonempty = record {
  starting_ne = λ e. cc;
  running_ne = λ e. cc;
  crashed_ne = λ e. cc;
  down_ne = λ e. cc;
  unknown_ne = λ e. cc;
}

pub states-CrashedIsApart : CrashedIsApart states
unfolding str_eq
states-CrashedIsApart = record {
  ne_starting = str_ne_of _ _ refl;
  ne_running = str_ne_of _ _ refl;
  ne_down = str_ne_of _ _ refl;
  ne_unknown = str_ne_of _ _ refl;
}

abbrev pub container : Str → ContainerStatus
container name = record { name = name; waiting = false; running = true; terminated = false }

abbrev pub pod : Str → Str → Option ℤ → Pod
pod uid name start = record {
  uid = uid;
  labels = (process_guid_label, bytes "g") ∷ [];
  annotations = [];
  start_time = start;
  container_statuses = container name ∷ [];
}

abbrev pub started : Option ℤ
started = some (pos 2000000000)

-- Two pods of an application, in the wrong order, and one without an application container.
abbrev pub pod_a : Pod
pod_a = pod (bytes "a") (bytes "application") started

abbrev pub pod_b : Pod
pod_b = pod (bytes "b") (bytes "application") started

abbrev pub sidecar : Pod
sidecar = pod (bytes "ab") (bytes "sidecar") none

abbrev pub unstarted : Pod
unstarted = pod (bytes "c") (bytes "application") none

abbrev pub pods : List Pod
pods = pod_b ∷ sidecar ∷ pod_a ∷ []

-- An empty text is no guid; a guid is its own short form.
abbrev pub guids : GuidHelpers Str
guids = record {
  new_process_guid = λ s. elim s [ [] ↦ none | c ∷ r ↦ some (c ∷ r) ];
  shortened_guid = λ s. s;
  decode_process_guid = λ s. s;
  guid_string = λ s. s;
}

-- "g" has pods, "n" is not found, and the listing of any other guid fails.
abbrev pub listing : Str → Listing
listing value =
    if str_eq value (bytes "g")
    then record { pods = some pods; error = none }
    else if str_eq value (bytes "n")
    then record { pods = some []; error = some (status_error 404) }
    else record { pods = none; error = some other_error }

abbrev pub no_metrics : Metrics
no_metrics = record { metrics = []; failed = true }

abbrev pub env : Env Str
env = record {
  guids = guids;
  states = states;
  list = λ label value. listing value;
  query = λ log_guid token. no_metrics;
  clock = λ k. pos (7500000000 + k);
  div100 = λ x. x / 100;
  marshal = λ xs. elim xs [ none ↦ some (bytes "null") | some _ ↦ some (bytes "[…]") ];
}
