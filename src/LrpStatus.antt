-- ===== src/LrpStatus.antt =====
-- handler/lrpstatus/lrpstatus.go: the instances of a process, from the pods that carry its guid.
pub mod State
pub mod Fill
pub mod Order
pub mod Panics
pub mod Serve
pub mod Times
pub mod Reordered
mod Tests
use tps.Base.{
  ℕ, zero, suc, ◌+◌, ℤ, sub64, quot64, Str, bytes, str_eq, Bool, Option, none, some, List, [], ◌∷◌,
  Result, ok, panics, ◌>>=◌, deref, length, set, take, replicate, ltb, leb, if◌then◌else◌,
}
use tps.Pod.{Pod, ContainerStatus, LrpInstance, zero_instance, get}
use tps.PodUtil.{sort_pods}
use tps.Api.{GuidHelpers, InstanceStates, Env, Call, list_pods, Listing, process_guid_label}
use tps.Http.{ResponseWriter, write_header, encode, internal_server_error}

abbrev pub application : Str
application = bytes "application"

abbrev pub nanos_per_second : ℕ
nanos_per_second = 1000000000

-- The state of one container, by the first pointer that is not nil.
unfoldable pub container_state : InstanceStates → ContainerStatus → Str
container_state states c =
    if c.waiting
    then states.starting
    else if c.running
    then states.running
    else if c.terminated
    then states.down
    else states.unknown

-- `getApplicationContainerState`: the container called "application", or "" where there is none.
unfoldable pub get_application_container_state : InstanceStates → List ContainerStatus → Str
unfolding container_state
get_application_container_state states [] = []
get_application_container_state states (c ∷ cs) =
    if str_eq c.name application
    then container_state states c
    else get_application_container_state states cs

-- What is returned of the array: nil where nothing was written.
unfoldable pub first_of_array : List LrpInstance × ℕ → Option (List LrpInstance)
first_of_array (instances, j) = if leb 1 j then some (take j instances) else none

module _ {Guid : Type 0} (env : Env Guid) where
  abbrev pub state_of : Pod → Str
  state_of pod = get_application_container_state env.states pod.container_statuses

  -- One instance: `i` is the position of the pod, `start` its start time, `now` the clock's reading.
  unfoldable pub instance_of : Pod → ℕ → ℤ → ℤ → LrpInstance
  unfolding get
  instance_of pod i start now = record {
    process_guid =
        env.guids.guid_string (env.guids.decode_process_guid (get process_guid_label pod.labels));
    instance_guid = pod.uid;
    index = i;
    since = quot64 start nanos_per_second;
    uptime = quot64 (sub64 now start) nanos_per_second;
    state = state_of pod;
    stats = none;
  }

  -- `instances[j] = instance`: the start time is dereferenced, and the index is checked.
  unfoldable pub store : Pod → ℕ → ℕ → List LrpInstance → Result (List LrpInstance)
  unfolding instance_of
  store pod i j instances = do
    start ← deref pod.start_time
    if ltb j (length instances)
        then ok (set instances j (instance_of pod i start (env.clock j)))
        else panics

  -- The loop over the sorted pods, at position `i` with `j` instances written. The j-th instance is
  -- stamped with the j-th reading of the clock.
  unfoldable pub fill : List Pod → ℕ → ℕ → List LrpInstance → Result (List LrpInstance × ℕ)
  unfolding store
  fill [] i j instances = ok (instances, j)
  fill (pod ∷ pods) i j instances =
      let skipped = fill pods (suc i) j instances in
      let written = store pod i j instances >>= fill pods (suc i) (suc j) in
      if str_eq (state_of pod) [] then skipped else written

  -- `LRPInstances`
  unfoldable pub lrp_instances : List Pod → Result (Option (List LrpInstance))
  unfolding fill first_of_array
  lrp_instances pods = do
    filled ← fill (sort_pods pods) 0 0 (replicate (length pods) zero_instance)
    ok (first_of_array filled)

  -- The part of `ServeHTTP` behind the listing.
  unfoldable pub respond : ResponseWriter → Listing → Result ResponseWriter
  respond w listing = elim listing.error [
    | some _ ↦ ok (write_header w internal_server_error)
    | none ↦ (do
      pods ← deref listing.pods
      instances ← lrp_instances pods
      ok (encode w (env.marshal instances)))
  ]

  -- `ServeHTTP`, with the calls that it makes. The request's form gives the guid.
  unfoldable pub serve_http : ResponseWriter → Str → List Call × Result ResponseWriter
  unfolding respond
  serve_http w guid = elim (env.guids.new_process_guid guid) [
    | none ↦ ([], ok (write_header w internal_server_error))
    | some pg ↦
        let shortened = env.guids.shortened_guid pg in
        (
          list_pods process_guid_label shortened ∷ [],
          respond w (env.list process_guid_label shortened),
        )
  ]
