-- ===== src/Listener/Tests.antt =====
-- The start of a listener at concrete flags.
use tps.Base.{
  map, negsuc, false, ltb, some, inl, Str, Result, List, pos, true, ℕ, bytes, str_eq, [], ◌∷◌, ◌≡◌,
  ◌↔◌, refl,
}
use tps.Flags.{number_of, Flag, text_of, value_of}
use tps.ProcessSample.{listener_system}
use tps.Listener.{
  max_in_flight_requests, listen_addr, ApiHandler, Outcome, starts, listener_flags, Member, api,
  registration_runner, start, main, start_parsed,
}
use tps.Handler.Table.{new}
use tps.Handler.Table.{bulk}
use tps.Handler.Service.{Request, Systems, serve_endpoint, lines_of, route_of}
use tps.Http.{ResponseWriter, new_writer}
use tps.Sample.{env}
use tps.Listener.Serving.{with_workers, serve_api, start-serves}
use tps.Listener.Start.{IsReady, group_of, start-starts_iff}

-- An argument that is no flag of the listener ends it.
main_of_unknown :
    main listener_system (bytes "-bogus" ∷ bytes "1" ∷ [])
    ≡ record { logged = []; outcome = Outcome.usage_error }
unfolding start_parsed listener_flags str_eq tps.Flags.parse
main_of_unknown = refl

-- The group that the defaults start.
abbrev default_handler : ApiHandler
default_handler = record {
  kube = record { host = []; cert_file = []; key_file = []; ca_file = [] };
  noaa = record { traffic_controller_url = []; insecure_skip_verify = true };
  max_in_flight = 200;
  bulk_lrp_status_workers = pos 15;
}

abbrev default_group : List Member
default_group =
    api (bytes "0.0.0.0:1518") default_handler
    ∷ registration_runner (record { name = bytes "tps"; port = 1518; ttl = bytes "3s" }) []
        (pos 5000000000)
    ∷ []

start_of_defaults : start listener_system listener_flags ≡ starts default_group
unfolding start listener_flags str_eq value_of new
start_of_defaults = refl

start-starts_iff_example : (start listener_system listener_flags ≡ starts default_group) ↔ (
    (m : ℕ) × (port : ℕ) × IsReady listener_system listener_flags m port
    × (default_group ≡ group_of listener_system listener_flags m port))
start-starts_iff_example = start-starts_iff listener_system listener_flags default_group

abbrev systems : Systems Str
systems = record {
  env = env;
  new_throttler = λ workers. elim workers [ pos n ↦ ltb 0 n | negsuc _ ↦ false ];
  schedule = λ given. map (λ guid. (guid, env)) given;
  marshal = λ bundle. some (bytes "{}");
  workers = pos 1;
}

abbrev request : Request
request = record {
  method = bytes "GET";
  url = bytes "/v1/bulk_actual_lrp_status";
  authorization = [];
  guid = [];
  guids = bytes "g";
}

abbrev answer : Result ResponseWriter
answer = serve_endpoint (with_workers systems (pos 15)) bulk request new_writer

start-serves_example :
    (bytes "0.0.0.0:1518" ≡ text_of listen_addr listener_flags)
    × (number_of max_in_flight_requests listener_flags ≡ pos 200)
    × (serve_api systems default_handler 199 (route_of bulk) request
        ≡ some (record { capacity = 200; taken = 199 }, (lines_of request answer, answer)))
unfolding number_of listener_flags value_of str_eq
start-serves_example =
    start-serves listener_system listener_flags systems default_group (bytes "0.0.0.0:1518")
      default_handler 199 bulk request start_of_defaults (inl refl)
