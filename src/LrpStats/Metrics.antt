-- ===== src/LrpStats/Metrics.antt =====
-- What becomes of the metrics, of the crashed instances and of the content type.
use tps.Base.{
  ℕ, suc, Str, str_eq_iff, none, some, List, [], ◌∷◌, map, ◌≡◌, ◌≢◌, inl, inr, refl, ap, arith, ok,
  ◌>>=◌, All, Option-cases, Bool-cases,
}
use mathlib.Core.Option
use tps.Pod.{Pod, LrpInstance, get}
use tps.PodUtil.{sort_pods}
use tps.PodUtil.Rearranges.{Distinct}
use tps.Api.{Env, AreNonempty, CrashedIsApart, Metrics}
use tps.Http.{
  ResponseWriter, new_writer, write_header, set_header, sent_header, sniffed, header_of, encode,
  content_type, application_json, ok_code,
}
use tps.Http.Laws.{header_of-sniffed}
use tps.LrpStatus.{instance_of, lrp_instances}
use tps.LrpStatus.State.{get_application_container_state-ne-crashed}
use tps.LrpStatus.Fill.{
  is_hidden, report, report-hidden, report-shown, nil_if_empty, lrp_instances-eq-report,
}
use tps.LrpStatus.Panics.{IsStarted-or_not, lrp_instances-panics}
use tps.LrpStats.{log_guid_annotation, clear_crashed, later, respond_instances, respond, serve_http}
use tps.LrpStats.Status.{respond_instances-sent, Asks}

module _ {Guid : Type 0} (env : Env Guid) where
  -- The same environment, with other answers from noaa.
  abbrev pub with_metrics : (Str → Str → Metrics) → Env Guid
  with_metrics query = record env { query = query }

  -- The answer of the stats endpoint does not depend on what noaa reports: no metric reaches it.
  serve_http-ignores_metrics :
      (query query' : Str → Str → Metrics) (w : ResponseWriter) (authorization guid : Str)
      → serve_http (with_metrics query) w authorization guid
        ≡ serve_http (with_metrics query') w authorization guid
  unfolding serve_http respond_instances lrp_instances
  serve_http-ignores_metrics query query' w authorization guid = refl

  sent_header-listed :
      (authorization guid : Str) (pod : Pod) (pods : List Pod) (w : ResponseWriter)
      → Asks env authorization guid none (some (pod ∷ pods))
      → (serve_http env new_writer authorization guid).1 ≡ ok w
      → sent_header w ≡ []
  unfolding serve_http respond
  sent_header-listed authorization guid pod pods w a h =
      let log_guid = get log_guid_annotation pod.annotations in
      ground (
        arith,
        a.token,
        a.named,
        a.valid,
        a.error_is,
        a.pods_is,
        str_eq_iff authorization [],
        str_eq_iff guid [],
        respond_instances-sent env log_guid authorization (pod ∷ pods) w,
      )

  -- Where the pods are listed, the Content-Type that the handler sets does not reach the client, since
  -- it is set after the status line has gone out: the client gets the type that net/http detects in
  -- the body, whatever it detects, and none where there is no body.
  pub serve_http-detected_type :
      (detect : Str → Str) (authorization guid : Str) (pod : Pod) (pods : List Pod)
      (w : ResponseWriter)
      → Asks env authorization guid none (some (pod ∷ pods))
      → (serve_http env new_writer authorization guid).1 ≡ ok w
      → header_of detect w ≡ sniffed detect w.body
  serve_http-detected_type detect authorization guid pod pods w a h =
      header_of-sniffed detect w (sent_header-listed authorization guid pod pods w a h)

  report-not_crashed :
      (pods : List Pod) (i j : ℕ)
      → AreNonempty env.states
      → CrashedIsApart env.states
      → All (λ x. x.state ≢ env.states.crashed) (report (later env) i j pods)
  unfolding report instance_of
  report-not_crashed [] i j h k = tt
  report-not_crashed (pod ∷ pods) i j h k = elim (Bool-cases (is_hidden (later env) pod)) [
    | inl hidden ↦
        rw (report-hidden (later env) pod pods i j hidden) (report-not_crashed pods (suc i) j h k)
    | inr shown ↦ elim (Option-cases pod.start_time) [
      | inl missing ↦ ground arith
      | inr (start, e) ↦ rw (report-shown (later env) pod pods i j start shown e) (
        get_application_container_state-ne-crashed env.states pod.container_statuses h k,
        report-not_crashed pods (suc i) (suc j) h k,
      )
    ]
  ]

  clear_crashed-keeps :
      (xs : List LrpInstance)
      → All (λ x. x.state ≢ env.states.crashed) xs
      → map (clear_crashed env.states) xs ≡ xs
  unfolding clear_crashed
  clear_crashed-keeps [] h = refl
  clear_crashed-keeps (x ∷ xs) h =
      ground (arith, h.0, str_eq_iff x.state env.states.crashed, clear_crashed-keeps xs h.1)

  clear_crashed-nil_if_empty :
      (xs : List LrpInstance)
      → All (λ x. x.state ≢ env.states.crashed) xs
      → Option.map (map (clear_crashed env.states)) (nil_if_empty xs) ≡ nil_if_empty xs
  clear_crashed-nil_if_empty [] h = refl
  clear_crashed-nil_if_empty (x ∷ xs) h = ap some (clear_crashed-keeps (x ∷ xs) h)

  respond_instances-eq :
      (w : ResponseWriter) (log_guid authorization : Str) (pods : List Pod)
      → AreNonempty env.states
      → CrashedIsApart env.states
      → Distinct pods
      → respond_instances env w log_guid authorization pods ≡ (
          lrp_instances (later env) pods >>= λ xs. ok (
            encode
              (set_header (write_header w ok_code) content_type application_json)
              (env.marshal xs)))
  unfolding respond_instances
  respond_instances-eq w log_guid authorization pods h k distinct =
      elim (IsStarted-or_not (later env) pods) [
        | inr missing ↦ rw (lrp_instances-panics (later env) pods missing)
        | inl started ↦ rw (
          lrp_instances-eq-report (later env) pods distinct started,
          clear_crashed-nil_if_empty (report (later env) 0 0 (sort_pods pods))
              (report-not_crashed (sort_pods pods) 0 0 h k),
        )
      ]

  -- The stats endpoint answers with the very instances that `LRPInstances` gives for the pods: its
  -- treatment of crashed instances changes nothing, since a container is never reported as crashed.
  -- The pods have different UIDs, and the state names are not empty and `crashed` is apart from them.
  pub serve_http-eq-instances :
      (w : ResponseWriter) (authorization guid : Str) (pod : Pod) (pods : List Pod)
      → AreNonempty env.states
      → CrashedIsApart env.states
      → Distinct (pod ∷ pods)
      → Asks env authorization guid none (some (pod ∷ pods))
      → (serve_http env w authorization guid).1 ≡ (
          lrp_instances (later env) (pod ∷ pods) >>= λ xs. ok (
            encode
              (set_header (write_header w ok_code) content_type application_json)
              (env.marshal xs)))
  unfolding serve_http respond
  serve_http-eq-instances w authorization guid pod pods h k distinct a =
      let log_guid = get log_guid_annotation pod.annotations in
      ground (
        arith,
        a.token,
        a.named,
        a.valid,
        a.error_is,
        a.pods_is,
        str_eq_iff authorization [],
        str_eq_iff guid [],
        respond_instances-eq w log_guid authorization (pod ∷ pods) h k distinct,
      )
