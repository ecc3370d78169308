-- ===== src/Listener/Serving.antt =====
-- cmd/tps-listener/main.go with handler/handler.go: what the server of the group answers.
use tps.Base.{
  ℕ, ℤ, ltb, pos, Str, str_eq, Bool-cases, Option, some, List, [], ◌≡◌, sym, ap, inl, inr, ◌∙◌,
  arith, Result, ok, if◌then◌else◌,
}
use mathlib.Core.Path.{subst}
use tps.PodUtil.Members.{Any}
use tps.Flags.{Flag, text_of, number_of}
use tps.Http.{ResponseWriter, new_writer, write_header, service_unavailable}
use tps.Routes.{Route}
use tps.Handler.{Semaphore, LogLine}
use tps.Handler.Table.{Endpoint}
use tps.Handler.Service.{
  Request, Systems, serve_endpoint, serve_route, lines_of, route_of, serve_route-endpoint,
}
use tps.Listener.{
  max_in_flight_requests, listen_addr, bulk_lrp_status_workers, starts, System, Member, api,
  ApiHandler, start,
}
use tps.Listener.Start.{group_of, start-starts_iff}

module _ {Guid : Type 0} (systems : Systems Guid) where
  -- The systems of a listener whose throttler has that many workers.
  abbrev pub with_workers : ℤ → Systems Guid
  with_workers workers = record systems { workers = workers }

  -- A request at the server of the group, while `inside` others hold its semaphore.
  unfoldable pub serve_api :
      ApiHandler → ℕ → Route → Request → Option (Semaphore × (List LogLine × Result ResponseWriter))
  unfolding serve_route
  serve_api handler inside route r =
      serve_route (with_workers handler.bulk_lrp_status_workers) handler.max_in_flight inside route
        r

-- The server at an address with a handler.
abbrev pub IsApi : Str → ApiHandler → Member → Type 0
IsApi addr handler m = m ≡ api addr handler

module _ {Router : Type 0} (system : System Router) (flags : List Flag) where
  group_of-api :
      (m port : ℕ) (addr : Str) (handler : ApiHandler)
      → Any (IsApi addr handler) (group_of system flags m port)
      → (text_of listen_addr flags ≡ addr)
        × (m ≡ handler.max_in_flight)
        × (number_of bulk_lrp_status_workers flags ≡ handler.bulk_lrp_status_workers)
  group_of-api m port addr handler h = elim (Bool-cases (str_eq (system.debug_address flags) [])) [
    | inl quiet ↦ ground arith
    | inr debugged ↦ ground arith
  ]

  -- Every server of the group that the listener starts listens at the address of the flags, and a
  -- request on the route of an endpoint, while `inside` other requests hold its semaphore, gets the
  -- endpoint's answer, with as many workers as the flags say, if they are fewer than the limit of the
  -- flags, and status 503 otherwise.
  pub start-serves :
      {Guid : Type 0} (systems : Systems Guid) (ms : List Member) (addr : Str)
      (handler : ApiHandler) (inside : ℕ) (e : Endpoint) (r : Request)
      → start system flags ≡ starts ms
      → Any (IsApi addr handler) ms
      → let given = with_workers systems (number_of bulk_lrp_status_workers flags) in
        let result = serve_endpoint given e r new_writer in
        (addr ≡ text_of listen_addr flags)
        × (number_of max_in_flight_requests flags ≡ pos handler.max_in_flight)
        × (serve_api systems handler inside (route_of e) r
            ≡ some (
              record { capacity = handler.max_in_flight; taken = inside },
              if ltb inside handler.max_in_flight
                  then (lines_of r result, result)
                  else ([], ok (write_header new_writer service_unavailable)),
            ))
  unfolding serve_api
  start-serves systems ms addr handler inside e r started served =
      let (m, port, ready, group) = (start-starts_iff system flags ms).0 started in
      let (at, limit, workers) =
        group_of-api m port addr handler (subst (Any (IsApi addr handler)) group served) in
      let given = with_workers systems (number_of bulk_lrp_status_workers flags) in
      (
        sym at,
        ready.limit ∙ ap pos limit,
        ap (λ n. serve_route (with_workers systems n) handler.max_in_flight inside (route_of e) r)
              (sym workers)
            ∙ (serve_route-endpoint given handler.max_in_flight inside e r).1,
      )
