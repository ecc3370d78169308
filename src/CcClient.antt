-- ===== src/CcClient.antt =====
-- cc_client/cc_client.go: the report of a crash to the Cloud Controller.
pub mod Deliver
pub mod Reports
mod Tests
use tps.Base.{
  ℕ, ◌==◌, Str, bytes, Bool, true, false, Option, none, some, List, [], ◌∷◌, if◌then◌else◌, ◌++◌,
}
use tps.Decimal.{decimal}
use tps.Format.{sprintf}
use tps.Http.{ok_code, application_json}
use tps.Watcher.{AppCrashedRequest}

abbrev pub app_crashed_path : Str
app_crashed_path = bytes "/internal/apps/%s/crashed"

abbrev pub app_crashed_request_timeout : ℕ
app_crashed_request_timeout = 5

-- The settings of the http.Client, with times in seconds.
pub record HttpClient : Type 0 where
  pub timeout : ℕ
  pub dial_timeout : ℕ
  pub keep_alive : ℕ
  pub tls_handshake_timeout : ℕ
  pub insecure_skip_verify : Bool

pub record Client : Type 0 where
  pub cc_uri : Str
  pub username : Str
  pub password : Str
  pub http_client : HttpClient

-- `NewCcClient`; `join` is gunk's `urljoiner.Join`.
unfoldable pub new_cc_client : (Str → Str → Str) → Str → Str → Str → Bool → Client
new_cc_client join base_uri username password skip_cert_verify = record {
  cc_uri = join base_uri app_crashed_path;
  username = username;
  password = password;
  http_client = record {
    timeout = app_crashed_request_timeout;
    dial_timeout = 10;
    keep_alive = 30;
    tls_handshake_timeout = 10;
    insecure_skip_verify = skip_cert_verify;
  };
}

pub record HttpRequest : Type 0 where
  pub method : Str
  pub url : Str
  pub username : Str
  pub password : Str
  pub content_type : Str
  pub body : Str

-- The error that `AppCrashed` returns; `bad_response` is BadResponseError with its status code.
pub data CcError : Type 0 where
  marshal_error request_error transport_error : CcError
  bad_response : ℕ → CcError

-- `BadResponseError.Error`, for its status code.
unfoldable pub error_text : ℕ → Str
error_text status_code = bytes "Crashed response POST failed with " ++ decimal status_code

-- What the client uses: the JSON encoding of a request, whether net/http accepts a URL, and the
-- exchange of a request for a status code (none is an error of the transport).
pub record Network : Type 0 where
  pub marshal : AppCrashedRequest → Option Str
  pub accepts_url : Str → Bool
  pub exchange : HttpRequest → Option ℕ

abbrev pub post_method : Str
post_method = bytes "POST"

-- The request, from its URL and payload on.
unfoldable pub request_for : Client → Str → Str → HttpRequest
request_for cc url payload = record {
  method = post_method;
  url = url;
  username = cc.username;
  password = cc.password;
  content_type = application_json;
  body = payload;
}

-- The requests that went out, and the error.
unfoldable pub deliver : Network → Client → Str → Str → List HttpRequest × Option CcError
unfolding request_for
deliver net cc url payload =
    if net.accepts_url url
    then (
      request_for cc url payload ∷ [],
      elim (net.exchange (request_for cc url payload)) [
        | none ↦ some transport_error
        | some code ↦ if code == ok_code then none else some (bad_response code)
      ],
    )
    else ([], some request_error)

-- `AppCrashed`. None stands for a URI whose format `sprintf` does not cover.
unfoldable pub app_crashed :
    Network → Client → Str → AppCrashedRequest → Option (List HttpRequest × Option CcError)
unfolding deliver
app_crashed net cc guid crash = elim (net.marshal crash) [
  | none ↦ some ([], some marshal_error)
  | some payload ↦ elim (sprintf cc.cc_uri (some guid)) [
    | none ↦ none
    | some url ↦ some (deliver net cc url payload)
  ]
]
