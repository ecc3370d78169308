-- ===== src/Handler/Service.antt =====
-- handler/handler.go, with the three endpoints: what becomes of a request on one of the routes.
use tps.Base.{
  ℤ, ◌∙◌, ap, ℕ, ltb, Str, bytes, str_eq, Bool, Option, none, some, List, [], ◌∷◌, ◌≡◌, refl,
  Result, ok, panics, if◌then◌else◌,
}
use tps.Api.{Env}
use tps.Http.{ResponseWriter, new_writer, write_header, service_unavailable}
use tps.Routes.{Route, routes, get_method}
use tps.BulkLrpStatus.{Work, Bundle}
use tps.LrpStatus
use tps.LrpStats
use tps.BulkLrpStatus
use tps.Handler.{Semaphore, LogLine, serving, done, log_wrap, serve_http}
use tps.Handler.Limit.{serve_http-restores}
use tps.Handler.Table.{Endpoint, status, stats, bulk, TpsHandler, handlers, lookup}

-- The parts of a request that the endpoints read: the route's parameter `:guid`, and the parameter
-- `guids` of the form.
pub record Request : Type 0 where
  pub method : Str
  pub url : Str
  pub authorization : Str
  pub guid : Str
  pub guids : Str

-- What the endpoints call, as their own modules take it.
pub record Systems (Guid : Type 0) : Type 0 where
  pub env : Env Guid
  pub new_throttler : ℤ → Bool
  pub schedule : List Str → List (Work Guid)
  pub marshal : Bundle → Option Str
  pub workers : ℤ

-- The two lines around a request; the last is missing where the endpoint panics.
abbrev pub lines_of : Request → Result ResponseWriter → List LogLine
lines_of r result =
    serving r.method r.url ∷ (elim result [ ok _ ↦ done r.method r.url ∷ [] | panics ↦ [] ])

-- The path and the name of each endpoint.
unfoldable pub route_of : Endpoint → Route
route_of status = record {
  path = bytes "/v1/actual_lrps/:guid";
  method = get_method;
  name = bytes "LRPStatus";
}
route_of stats = record {
  path = bytes "/v1/actual_lrps/:guid/stats";
  method = get_method;
  name = bytes "LRPStats";
}
route_of bulk = record {
  path = bytes "/v1/bulk_actual_lrp_status";
  method = get_method;
  name = bytes "BulkLRPStatus";
}

module _ {Guid : Type 0} (systems : Systems Guid) where
  open systems use {env, new_throttler, schedule, marshal, workers}

  -- The handlers that `New` wraps.
  unfoldable pub serve_endpoint : Endpoint → Request → ResponseWriter → Result ResponseWriter
  serve_endpoint status r w = (LrpStatus.serve_http env w r.guid).1
  serve_endpoint stats r w = (LrpStats.serve_http env w r.authorization r.guid).1
  serve_endpoint bulk r w =
      BulkLrpStatus.serve_http new_throttler schedule marshal w workers r.guids

  -- `tpsHandler.ServeHTTP` of an entry of the table; the endpoint's own log lines are left out.
  unfoldable pub serve_handler :
      TpsHandler
      → Request
      → ResponseWriter
      → Option (Semaphore × (List LogLine × Result ResponseWriter))
  unfolding serve_http log_wrap
  serve_handler h r w =
      serve_http h.semaphore
        (log_wrap (λ w'. ([], serve_endpoint h.delegate_handler r w')) r.method r.url) w

  -- The handler that the table has for a route, while `inside` other requests hold the semaphore of
  -- the table; none if it has no handler.
  unfoldable pub serve_route :
      ℕ → ℕ → Route → Request → Option (Semaphore × (List LogLine × Result ResponseWriter))
  unfolding serve_handler lookup handlers
  serve_route max_in_flight inside route r = elim (lookup route.name (handlers max_in_flight)) [
    | none ↦ none
    | some h ↦
        serve_handler (record h { semaphore = record h.semaphore { taken = inside } }) r new_writer
  ]

  log_wrap-lines :
      (r : Request) (result : Result ResponseWriter)
      → log_wrap (λ w. ([], result)) r.method r.url new_writer ≡ (lines_of r result, result)
  unfolding log_wrap
  log_wrap-lines r (ok w) = refl
  log_wrap-lines r panics = refl

  serve_handler-lines :
      (h : TpsHandler) (r : Request)
      → let result = serve_endpoint h.delegate_handler r new_writer in
        serve_handler h r new_writer
        ≡ some (
          h.semaphore,
          if ltb h.semaphore.taken h.semaphore.capacity
              then (lines_of r result, result)
              else ([], ok (write_header new_writer service_unavailable)),
        )
  unfolding serve_handler
  serve_handler-lines h r =
      let result = serve_endpoint h.delegate_handler r new_writer in
      serve_http-restores h.semaphore
        (log_wrap (λ w. ([], serve_endpoint h.delegate_handler r w)) r.method r.url) new_writer
      ∙ ap
          (λ answer. some (
            h.semaphore,
            if ltb h.semaphore.taken h.semaphore.capacity
                then answer
                else ([], ok (write_header new_writer service_unavailable)),
          ))
          (log_wrap-lines r result)

  -- The routes are those of the three endpoints. A request on one of them, while `inside` other
  -- requests hold the semaphore, gets the answer of its endpoint and leaves the two lines around it in
  -- the log, the last only if the endpoint does not panic; it gets status 503 and leaves no line where
  -- they are as many as the limit `m` or more. In all cases the semaphore is as before.
  pub serve_route-endpoint :
      (m inside : ℕ) (e : Endpoint) (r : Request)
      → (routes ≡ route_of bulk ∷ route_of status ∷ route_of stats ∷ [])
        × (let result = serve_endpoint e r new_writer in
            serve_route m inside (route_of e) r
            ≡ some (
              record { capacity = m; taken = inside },
              if ltb inside m
                  then (lines_of r result, result)
                  else ([], ok (write_header new_writer service_unavailable)),
            ))
  unfolding serve_route lookup handlers str_eq routes route_of
  serve_route-endpoint m inside status r = (
    refl,
    serve_handler-lines
        (record { semaphore = record { capacity = m; taken = inside }; delegate_handler = status })
        r,
  )
  serve_route-endpoint m inside stats r = (
    refl,
    serve_handler-lines
        (record { semaphore = record { capacity = m; taken = inside }; delegate_handler = stats })
        r,
  )
  serve_route-endpoint m inside bulk r = (
    refl,
    serve_handler-lines
        (record { semaphore = record { capacity = m; taken = inside }; delegate_handler = bulk }) r,
  )
