-- ===== src/Handler/Tests.antt =====
-- Requests at a listener that lets one in at a time, and the theorems at concrete traffic.
use tps.Base.{
  map, pos, negsuc, false, bytes, str_eq, suc, ◌≤◌, ◌<◌, ltb, Str, some, List, [], ◌∷◌, ◌≡◌, ◌↔◌,
  refl, Result, ok, panics, length,
}
use tps.Http.{unauthorized, ResponseWriter, new_writer, write_header, service_unavailable}
use tps.Handler.{
  LogLine, serving, new_semaphore, Server, new_server, admitted, refused, enter, remove, leave,
  Event, arrives, leaves, run, serve_http,
}
use tps.Handler.Limit.{run-limit, run-leaves}
use tps.Handler.Table.{stats}
use tps.Handler.Service.{Request, Systems, serve_endpoint, serve_route, lines_of, route_of}
use tps.LrpStats
use tps.Sample.{env}

abbrev traffic : List Event
traffic = arrives 1 ∷ arrives 2 ∷ leaves 1 ∷ arrives 3 ∷ []

abbrev full : Server
full = record { semaphore = record { capacity = 1; taken = 1 }; inside = 3 ∷ [] }

-- The second request is refused, the third gets in when the first has left.
run_of_traffic : run (new_server 1) traffic ≡ some full
unfolding run
run_of_traffic = refl

run-limit_example :
    (length full.inside ≤ 1)
    × ((enter full new_writer 4 ≡ refused (write_header new_writer service_unavailable))
        ↔ (length full.inside ≡ 1))
    × (((u : Server) × (enter full new_writer 4 ≡ admitted u)) ↔ (length full.inside < 1))
run-limit_example = run-limit 1 full traffic 4 run_of_traffic

run-leaves_example :
    (u : Server) × (leave full 3 ≡ some u) × (suc (length u.inside) ≡ length full.inside)
unfolding remove
run-leaves_example = run-leaves 1 full traffic 3 run_of_traffic (λ e. cc)

abbrev panicking : ResponseWriter → List LogLine × Result ResponseWriter
panicking w = (serving (bytes "GET") (bytes "/") ∷ [], panics)

-- A delegate that panics frees the semaphore.
run_of_panicking :
    serve_http (new_semaphore 2) panicking new_writer ≡ some (new_semaphore 2, panicking new_writer)
unfolding serve_http
run_of_panicking = refl

abbrev systems : Systems Str
systems = record {
  env = env;
  new_throttler = λ workers. elim workers [ pos n ↦ ltb 0 n | negsuc _ ↦ false ];
  schedule = λ given. map (λ guid. (guid, env)) given;
  marshal = λ bundle. some (bytes "{}");
  workers = pos 2;
}

abbrev stats_request : Request
stats_request = record {
  method = bytes "GET";
  url = bytes "/v1/actual_lrps/g/stats";
  authorization = [];
  guid = bytes "g";
  guids = [];
}

-- Without a token the stats endpoint answers 401, through the whole stack.
unauthorized_stats :
    serve_route systems 3 1 (route_of stats) stats_request
    ≡ some (
      record { capacity = 3; taken = 1 },
      (
        lines_of stats_request (ok (write_header new_writer unauthorized)),
        ok (write_header new_writer unauthorized),
      ),
    )
unfolding serve_route serve_endpoint LrpStats.serve_http str_eq route_of
unauthorized_stats = refl
