-- ===== src/CcClient/Reports.antt =====
-- watcher/watcher.go: the jobs of the work pool, which call the client of the Cloud Controller.
use mathlib.Core.Path.{subst}
use mathlib.Core.List.{append-nil, Permᴰ}
use tps.Base.{
  map-permᴰ, All-permᴰ, Str, Bool, true, Option, none, some, List, [], ◌∷◌, ◌++◌, map, ◌≡◌, ◌≢◌,
  refl, sym, ap, ◌∙◌, arith, All,
}
use tps.Format.{percent}
use tps.Watcher.{State, init, Action, CrashedEvent, AppCrashedRequest, Job, request_of, run}
use tps.Watcher.Delivery.{waiting, crashes, run-init-Delivers}
use tps.CcClient.{
  app_crashed_path, Client, new_cc_client, HttpRequest, Network, request_for, deliver, app_crashed,
}
use tps.CcClient.Deliver.{crashed_url, app_crashed-eq-deliver}

-- The function that `handleEvent` submits, and the requests that it sends, which are at most one; an
-- error is only logged.
unfoldable pub run_job : Network → Client → Job → Option (List HttpRequest)
run_job net cc job = elim (app_crashed net cc job.guid job.app_crashed) [
  | none ↦ none
  | some (requests, err) ↦ some requests
]

-- The requests of the pool's jobs, for jobs in the order in which their requests go out.
unfoldable pub run_jobs : Network → Client → List Job → Option (List HttpRequest)
unfolding run_job
run_jobs net cc [] = some []
run_jobs net cc (job ∷ jobs) =
    let rest = run_jobs net cc jobs in
    elim (run_job net cc job) [
      | none ↦ none
      | some requests ↦ elim rest [ none ↦ none | some more ↦ some (requests ++ more) ]
    ]

module _ (net : Network) (join : Str → Str → Str) (base_uri username password : Str) (skip : Bool)
    (payload : AppCrashedRequest → Str) where
  abbrev client : Client
  client = new_cc_client join base_uri username password skip

  abbrev request_of_job : Job → HttpRequest
  request_of_job job = request_for client (crashed_url base_uri job.guid) (payload job.app_crashed)

  -- The request that reports a crash.
  abbrev pub report_of : CrashedEvent → HttpRequest
  report_of e =
      request_for client (crashed_url base_uri e.process_guid) (payload (request_of e).app_crashed)

  -- The base URI has no percent sign and stands in front of the path, and every report has an
  -- encoding.
  pub record IsUsable : Type 0 where
    pub plain : All (λ c. c ≢ percent) base_uri
    pub joined : join base_uri app_crashed_path ≡ base_uri ++ app_crashed_path
    pub encoded : (crash : AppCrashedRequest) → net.marshal crash ≡ some (payload crash)

  -- net/http accepts the URL for a process guid.
  abbrev pub Accepts : Str → Type 0
  Accepts guid = net.accepts_url (crashed_url base_uri guid) ≡ true

  run_job-request :
      IsUsable
      → (job : Job) → Accepts job.guid
      → run_job net client job ≡ some (request_of_job job ∷ [])
  unfolding run_job deliver
  run_job-request u job accepted =
      let sent =
        app_crashed-eq-deliver net join base_uri username password job.guid
          (payload job.app_crashed) skip job.app_crashed u.plain u.joined (u.encoded _) in
      ground (arith, sent, accepted)

  run_jobs-requests :
      IsUsable
      → (jobs : List Job) → All (λ job. Accepts job.guid) jobs
      → run_jobs net client jobs ≡ some (map request_of_job jobs)
  unfolding run_jobs
  run_jobs-requests u [] h = refl
  run_jobs-requests u (job ∷ jobs) h =
      ground (arith, run_job-request u job h.0, run_jobs-requests u jobs h.1)

  jobs_of-Accepts :
      (es : List CrashedEvent)
      → All (λ e. Accepts e.process_guid) es
      → All (λ job. Accepts job.guid) (map request_of es)
  unfolding request_of
  jobs_of-Accepts [] h = tt
  jobs_of-Accepts (e ∷ es) h = (h.0, jobs_of-Accepts es h.1)

  requests_of_jobs :
      (es : List CrashedEvent) → map request_of_job (map request_of es) ≡ map report_of es
  unfolding request_of
  requests_of_jobs [] = refl
  requests_of_jobs (e ∷ es) = ap (λ rs. report_of e ∷ rs) (requests_of_jobs es)

  pub run_jobs-crashes :
      (app_lrp_domain : Str) (t : State) (schedule : List Action) (order : List Job)
      → IsUsable
      → All (λ e. Accepts e.process_guid) (crashes app_lrp_domain schedule)
      → run app_lrp_domain init schedule ≡ some t
      → t.event_chan ≡ []
      → Permᴰ t.submitted order
      → (sent : List HttpRequest) × (run_jobs net client order ≡ some sent)
        × Permᴰ (map report_of (crashes app_lrp_domain schedule)) sent
  unfolding waiting
  run_jobs-crashes app_lrp_domain t schedule order u accepted e idle p =
      let es = crashes app_lrp_domain schedule in
      let settled =
        ap (λ xs. t.submitted ++ map request_of (waiting app_lrp_domain xs)) (sym idle) in
      let submitted : t.submitted ≡ map request_of es =
        sym (append-nil t.submitted) ∙ settled ∙ run-init-Delivers app_lrp_domain t schedule e in
      let q : Permᴰ (map request_of es) order = subst (λ jobs. Permᴰ jobs order) submitted p in
      (
        map request_of_job order,
        run_jobs-requests u order
            (All-permᴰ (λ job. Accepts job.guid) q (jobs_of-Accepts es accepted)),
        subst (λ rs. Permᴰ rs (map request_of_job order)) (requests_of_jobs es)
            (map-permᴰ request_of_job q),
      )
