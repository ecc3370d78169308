-- ===== src/LrpStats/Tests.antt =====
-- Runs of the stats endpoint, and its theorems at concrete requests.
use tps.Base.{
  Str, bytes, str_eq, str_leb, sub64, quot64, none, some, [], ◌∷◌, ◌++◌, ◌≡◌, refl, ok, ◌>>=◌,
}
use tps.PodUtil.{sort_pods}
use tps.Sample.{states-AreNonempty, states-CrashedIsApart, pod_a, pod_b, sidecar, pods, env}
use tps.Http.{
  ResponseWriter, new_writer, header_of, sniffed, write_header, set_header, encode, content_type,
  application_json, ok_code,
}
use tps.LrpStatus.{lrp_instances, get_application_container_state}
use tps.LrpStats.{get_default_port, later, serve_http}
use tps.LrpStats.Status.{Asks}
use tps.LrpStats.Metrics.{serve_http-detected_type, serve_http-eq-instances}

abbrev token : Str
token = bytes "t"

abbrev guid : Str
guid = bytes "g"

first_port :
    get_default_port 8080 (
      record { container_port = 22; host_port = 5 }
      ∷ record { container_port = 8080; host_port = 65537 }
      ∷ [])
    ≡ 1
unfolding get_default_port
first_port = refl

asks : Asks env token guid none (some pods)
unfolding str_eq
asks = record {
  token = λ e. cc;
  named = λ e. cc;
  pg = guid;
  valid = refl;
  error_is = refl;
  pods_is = refl;
}

-- The response to the sample's pods: the content type is set too late to be sent.
abbrev answered : ResponseWriter
answered = record {
  header = (content_type, application_json) ∷ [];
  sent = some (record { status = 200; header = [] });
  body = bytes "[…]" ++ 10 ∷ [];
}

serve_sample : (serve_http env new_writer token guid).1 ≡ ok answered
unfolding serve_http lrp_instances get_application_container_state sort_pods str_eq str_leb sub64
    quot64 write_header set_header encode
serve_sample = refl

-- A body that looks like plain text to net/http.
abbrev plain_text : Str → Str
plain_text body = bytes "text/plain; charset=utf-8"

-- The client of the sample's response gets that type, and not that of the handler.
header_of-answered :
    header_of plain_text answered ≡ (content_type, bytes "text/plain; charset=utf-8") ∷ []
unfolding header_of
header_of-answered = refl

serve_http-detected_type_example : header_of plain_text answered ≡ sniffed plain_text answered.body
serve_http-detected_type_example =
    serve_http-detected_type env plain_text token guid pod_b (sidecar ∷ pod_a ∷ []) answered asks
      serve_sample

serve_http-eq-instances_example : (serve_http env new_writer token guid).1 ≡ (
    lrp_instances (later env) pods >>= λ xs. ok (
      encode
        (set_header (write_header new_writer ok_code) content_type application_json)
        (env.marshal xs)))
unfolding str_eq
serve_http-eq-instances_example =
    serve_http-eq-instances env new_writer token guid pod_b (sidecar ∷ pod_a ∷ [])
      states-AreNonempty states-CrashedIsApart ((refl, (refl, tt)), ((refl, tt), (tt, tt))) asks
