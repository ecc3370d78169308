-- ===== src/LrpStatus/Tests.antt =====
-- Runs of the status endpoint, and its theorems at concrete requests.
use tps.Base.{
  pos_part, neg_part, ℕ, suc, ◌*◌, ◌≤◌, ◌<◌, pos, sub64, quot64, bytes, str_eq, str_leb, none, some,
  List, [], ◌∷◌, ◌≡◌, ◌↔◌, inl, inr, refl, arith, ok, panics, All,
}
use tps.Pod.{Pod}
use tps.PodUtil.{sort_pods}
use tps.PodUtil.Rearranges.{Distinct}
use tps.PodUtil.Members.{Any}
use tps.Sample.{pod_a, pod_b, sidecar, unstarted, pods, env}
use tps.Http.{ResponseWriter, status_of, internal_server_error, ok_code, write_header}
use tps.LrpStatus.{
  get_application_container_state, instance_of, lrp_instances, serve_http, nanos_per_second,
}
use tps.LrpStatus.Fill.{IsStarted, report, nil_if_empty, lrp_instances-eq-report}
use tps.LrpStatus.Order.{instance_of-uptime}
use tps.LrpStatus.Panics.{IsUnstarted, lrp_instances-panics_iff, lrp_instances-panics_of_Repeats}
use mathlib.Core.List.Permᴰ
use tps.LrpStatus.Times.{instance_of-behind}
use tps.LrpStatus.Reordered.{lrp_instances-permᴰ}
use tps.LrpStatus.Serve.{Fails, Lists, serve_http-status_iff}

pods-Distinct : Distinct pods
unfolding str_eq
pods-Distinct = ((refl, (refl, tt)), ((refl, tt), (tt, tt)))

pods-IsStarted : All (IsStarted env) pods
unfolding get_application_container_state str_eq
pods-IsStarted = ((λ _ e. cc), ((λ h. absurd (cc)), ((λ _ e. cc), tt)))

-- The sidecar keeps its place in the numbering and is left out.
instances_of_pods :
    lrp_instances env pods
    ≡ ok (
        some (
          record {
            process_guid = bytes "g";
            instance_guid = bytes "a";
            index = 0;
            since = pos 2;
            uptime = pos 5;
            state = bytes "RUNNING";
            stats = none;
          }
          ∷ record {
            process_guid = bytes "g";
            instance_guid = bytes "b";
            index = 2;
            since = pos 2;
            uptime = pos 5;
            state = bytes "RUNNING";
            stats = none;
          }
          ∷ []))
unfolding lrp_instances get_application_container_state sort_pods str_eq str_leb sub64 quot64
instances_of_pods = refl

lrp_instances-eq-report_example :
    lrp_instances env pods ≡ ok (nil_if_empty (report env 0 0 (sort_pods pods)))
lrp_instances-eq-report_example = lrp_instances-eq-report env pods pods-Distinct pods-IsStarted

instance_of-uptime_example :
    (u : ℕ) × ((instance_of env pod_a 0 (pos 2000000000) (pos 7500000000)).uptime ≡ pos u)
    × (u * nanos_per_second ≤ 5500000000)
    × (5500000000 < suc u * nanos_per_second)
instance_of-uptime_example =
    instance_of-uptime env pod_a 0 5500000000 (pos 2000000000) (pos 7500000000) (omega arith) refl

lrp_instances-panics_iff_example :
    (lrp_instances env (unstarted ∷ pods) ≡ panics) ↔ Any (IsUnstarted env) (unstarted ∷ pods)
unfolding str_eq
lrp_instances-panics_iff_example =
    lrp_instances-panics_iff env (unstarted ∷ pods) ((refl, (refl, (refl, tt))), pods-Distinct)

lrp_instances-panics_of_Repeats_example : lrp_instances env (pod_a ∷ pod_b ∷ pod_a ∷ []) ≡ panics
unfolding get_application_container_state str_eq
lrp_instances-panics_of_Repeats_example =
    lrp_instances-panics_of_Repeats env (pod_a ∷ pod_b ∷ pod_a ∷ []) (inl (inr (inl refl)))
      (refl, (refl, (refl, tt)))

answered : ResponseWriter
answered = record { header = []; sent = some (record { status = 500; header = [] }); body = [] }

serve_http-status_iff_example :
    ((status_of answered ≡ internal_server_error) ↔ Fails env (bytes "x"))
    × ((status_of answered ≡ ok_code) ↔ ((ps : List Pod) × Lists env (bytes "x") ps))
unfolding serve_http str_eq answered write_header
serve_http-status_iff_example = serve_http-status_iff env (bytes "x") answered refl

-- A clock that is two seconds and a half behind the start.
instance_of-behind_example :
    (s : ℕ) × (u : ℕ) × ((instance_of env pod_a 0 (pos 7500000000) (pos 5000000000)).since ≡ pos s)
    × (s * nanos_per_second ≤ 7500000000)
    × (7500000000 < suc s * nanos_per_second)
    × (pos_part (instance_of env pod_a 0 (pos 7500000000) (pos 5000000000)).uptime ≡ 0)
    × (neg_part (instance_of env pod_a 0 (pos 7500000000) (pos 5000000000)).uptime ≡ u)
    × (u * nanos_per_second ≤ 2500000000)
    × (2500000000 < suc u * nanos_per_second)
instance_of-behind_example =
    instance_of-behind env pod_a 0 7500000000 2500000000 (pos 5000000000) (omega arith) refl

lrp_instances-permᴰ_example :
    lrp_instances env pods ≡ lrp_instances env (sidecar ∷ pod_b ∷ pod_a ∷ [])
lrp_instances-permᴰ_example = lrp_instances-permᴰ env (Permᴰ.swap refl refl) pods-Distinct
