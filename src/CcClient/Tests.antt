-- ===== src/CcClient/Tests.antt =====
-- A report to a Cloud Controller that answers with status 503.
use tps.Base.{
  false, if◌then◌else◌, List, [], ◌∷◌, str_eq, ℕ, pos, Str, bytes, true, none, some, ◌++◌, ◌≡◌, ◌≢◌,
  ◌↔◌, refl,
}
use tps.Http.{ok_code}
use tps.Watcher.{
  AppCrashedRequest, CrashedEvent, crashed, State, running, request_of, Action, subscribes, nexts,
  takes_subscription, takes_event,
}
use tps.Decimal.{decimal}
use tps.CcClient.{Client, new_cc_client, bad_response, Network, error_text, request_for, deliver}
use tps.CcClient.Deliver.{deliver-none_iff}

abbrev network : Network
network = record {
  marshal = λ crash. some (bytes "{}");
  accepts_url = λ url. if str_eq url [] then false else true;
  exchange = λ request. some 503;
}

abbrev joined : Str → Str → Str
joined base path = base ++ path

abbrev base : Str
base = bytes "cc"

abbrev user : Str
user = bytes "u"

abbrev crash : AppCrashedRequest
crash = record {
  instance_guid = bytes "i";
  index = pos 1;
  reason = bytes "CRASHED";
  exit_description = bytes "out of memory";
  crash_count = pos 2;
  crash_timestamp = pos 3;
}

abbrev client : Client
client = new_cc_client joined base user user true

deliver-none_iff_example :
    (((deliver network client base user).1 ≡ none) ↔ (
      (network.accepts_url base ≡ true)
      × (network.exchange (request_for client base user) ≡ some ok_code)))
    × ((code : ℕ)
        → ((deliver network client base user).1 ≡ some (bad_response code)) ↔ (
            (network.accepts_url base ≡ true)
            × (network.exchange (request_for client base user) ≡ some code)
            × (code ≢ ok_code)))
deliver-none_iff_example = deliver-none_iff network client base user

error_text_of_503 : error_text 503 ≡ bytes "Crashed response POST failed with 503"
unfolding error_text decimal
error_text_of_503 = refl

abbrev apps : Str
apps = bytes "cf-apps"

abbrev crashed_event : CrashedEvent
crashed_event = record {
  process_guid = bytes "g";
  index = pos 1;
  domain = apps;
  instance_guid = bytes "i";
  crash_count = pos 2;
  crash_reason = bytes "out of memory";
  since = pos 3;
}

abbrev later_event : CrashedEvent
later_event = record crashed_event { process_guid = bytes "h" }

-- Two crashes, whose requests the pool sends in the other order.
abbrev schedule : List Action
schedule =
    subscribes (some 4)
    ∷ takes_subscription
    ∷ nexts (some (crashed crashed_event)) none
    ∷ takes_event
    ∷ nexts (some (crashed later_event)) none
    ∷ takes_event
    ∷ []

abbrev reached : State
reached = record {
  phase = running;
  subscription = some 4;
  next_err_count = 0;
  subscribers = 0;
  readers = some 4 ∷ [];
  subscription_chan = [];
  event_chan = [];
  error_chan = [];
  submitted = request_of crashed_event ∷ request_of later_event ∷ [];
  closed = [];
}

abbrev no_payload : AppCrashedRequest → Str
no_payload request = bytes "{}"
