-- ===== src/LrpStats.antt =====
-- handler/lrpstats/lrpstats.go: the instances of a process for a holder of a token, with the
-- container metrics that noaa reports.
pub mod Status
pub mod Metrics
mod Tests
use tps.Base.{
  ℕ, suc, ◌-◌, ◌%◌, ◌==◌, ℤ, pos, negsuc, int64_mod, Str, bytes, str_eq, Bool, ◌&&◌, Option, none,
  some, List, [], ◌∷◌, map, Result, ok, panics, ◌>>=◌, if◌then◌else◌, false, true,
}
use mathlib.Core.Option
use tps.Pod.{Pod, Stats, LrpInstance, get}
use tps.Api.{
  GuidHelpers, InstanceStates, Env, Call, list_pods, container_metrics, KubeError, status_error,
  other_error, Listing, Metric, process_guid_label,
}
use tps.Http.{
  ResponseWriter, write_header, set_header, encode, content_type, application_json, ok_code,
  bad_request, unauthorized, not_found, internal_server_error,
}
use tps.LrpStatus.{lrp_instances}

abbrev pub log_guid_annotation : Str
log_guid_annotation = bytes "cloudfoundry.org/log-guid"

-- `responseCodeFromError`; nil is not a StatusError.
unfoldable pub response_code_from_error : Option KubeError → ℕ
response_code_from_error (some (status_error code)) =
    if code == not_found then not_found else internal_server_error
response_code_from_error (some other_error) = internal_server_error
response_code_from_error none = internal_server_error

-- models.PortMapping
pub record PortMapping : Type 0 where
  pub container_port : ℕ
  pub host_port : ℕ

-- `getDefaultPort`: the host port of the first mapping of the default port, cut to 16 bits.
unfoldable pub get_default_port : ℕ → List PortMapping → ℕ
get_default_port default_port [] = 0
get_default_port default_port (m ∷ ms) =
    if m.container_port == default_port
    then m.host_port % 65536
    else get_default_port default_port ms

-- `uint(i)`, for an int32 `i`
unfoldable pub uint_of : ℤ → ℕ
uint_of (pos n) = n
uint_of (negsuc n) = int64_mod - 1 - n

-- A write to the map of stats.
unfoldable pub put_stats : ℕ → Stats → List (ℕ × Stats) → List (ℕ × Stats)
put_stats k v [] = (k, v) ∷ []
put_stats k v ((j, u) ∷ m) = if j == k then (k, v) ∷ m else (j, u) ∷ put_stats k v m

-- The loop over the metrics, all stamped with one reading of the clock.
unfoldable pub metrics_by_instance_index :
    (ℕ → ℕ) → ℤ → List Metric → List (ℕ × Stats) → List (ℕ × Stats)
unfolding put_stats uint_of
metrics_by_instance_index div100 now [] m = m
metrics_by_instance_index div100 now (x ∷ xs) m = metrics_by_instance_index div100 now xs (
    put_stats (uint_of x.instance_index)
      (record {
        time = now;
        cpu_percentage = div100 x.cpu_percentage;
        memory_bytes = x.memory_bytes;
        disk_bytes = x.disk_bytes;
      })
      m)

-- What becomes of one instance in the last loop.
unfoldable pub clear_crashed : InstanceStates → LrpInstance → LrpInstance
clear_crashed states x =
    if str_eq x.state states.crashed
    then record x {
      uptime = pos 0;
      stats =
          Option.map
            (λ (s : Stats). record s { cpu_percentage = 0; memory_bytes = 0; disk_bytes = 0 })
            x.stats;
    }
    else x

abbrev pub is_empty_list : Option (List Pod) → Bool
is_empty_list (some []) = true
is_empty_list (some (_ ∷ _)) = false
is_empty_list none = false

module _ {Guid : Type 0} (env : Env Guid) where
  -- The clock behind the reading that stamps the metrics.
  abbrev pub later : Env Guid
  later = record env { clock = λ k. env.clock (suc k) }

  -- The response to a listing with at least one pod. The stats are computed and not used.
  unfoldable pub respond_instances : ResponseWriter → Str → Str → List Pod → Result ResponseWriter
  unfolding metrics_by_instance_index clear_crashed
  respond_instances w log_guid authorization pods =
      let stats =
        metrics_by_instance_index env.div100 (env.clock 0)
          (env.query log_guid authorization).metrics [] in
      do
        instances ← lrp_instances later pods
        let cleared = Option.map (map (clear_crashed env.states)) instances
        let w' = set_header (write_header w ok_code) content_type application_json
        ok (encode w' (env.marshal cleared))

  -- The part of `ServeHTTP` behind the listing, with the calls made from there.
  unfoldable pub respond : ResponseWriter → Str → Listing → List Call × Result ResponseWriter
  unfolding respond_instances response_code_from_error
  respond w authorization listing =
      if is_empty_list listing.pods && response_code_from_error listing.error == not_found
      then ([], ok (write_header w not_found))
      else elim listing.error [
        | some _ ↦ ([], ok (write_header w internal_server_error))
        | none ↦ elim listing.pods [
          | none ↦ ([], ok (write_header w internal_server_error))
          | some [] ↦ ([], ok (write_header w internal_server_error))
          | some (pod ∷ pods) ↦
              let log_guid = get log_guid_annotation pod.annotations in
              (
                container_metrics log_guid authorization ∷ [],
                respond_instances w log_guid authorization (pod ∷ pods),
              )
        ]
      ]

  -- `ServeHTTP`, with the calls that it makes. The request gives the token and the guid.
  unfoldable pub serve_http : ResponseWriter → Str → Str → List Call × Result ResponseWriter
  unfolding respond
  serve_http w authorization guid =
      if str_eq authorization []
      then ([], ok (write_header w unauthorized))
      else if str_eq guid []
      then ([], ok (write_header w bad_request))
      else elim (env.guids.new_process_guid guid) [
        | none ↦ ([], ok (write_header w internal_server_error))
        | some pg ↦
            let shortened = env.guids.shortened_guid pg in
            let (calls, response) =
              respond w authorization (env.list process_guid_label shortened) in
            (list_pods process_guid_label shortened ∷ calls, response)
      ]
