-- ===== src/Fakes.antt =====
-- cc_client/fakes/fake_cc_client.go and handler/lrpstats/fakes/fake_noaaclient.go: the doubles of the
-- two clients, which record their calls. Each of their functions is one
-- step, which leaves out a test that sets a stub or an answer while a call runs.
pub mod Records
pub mod Table
pub mod Kube
pub mod Pods
pub mod Namespaces
pub mod ReplicationControllers
pub mod KubeClient
pub mod Delegates
mod Tests
use tps.Base.{
  ℕ, zero, suc, Str, bytes, str_eq, Option, none, some, List, [], ◌∷◌, ◌++◌, length, Result, ok,
  panics, if◌then◌else◌,
}
use tps.Watcher.{AppCrashedRequest}
use tps.CcClient.{CcError}
use tps.Api.{Metrics}

-- One method of a fake: its stub, the arguments of its calls, and what it returns without a stub.
pub record Method (Args Answer : Type 0) : Type 0 where
  pub stub : Option (Args → Answer)
  pub args_for_call : List Args
  pub returns : Answer

-- The index of a slice.
unfoldable pub at : {A : Type 0} → List A → ℕ → Result A
at [] i = panics
at (x ∷ xs) zero = ok x
at (x ∷ xs) (suc i) = at xs i

module _ {Args Answer : Type 0} where
  -- The method is called: the arguments are recorded, and the stub or the set value answers.
  unfoldable pub call : Method Args Answer → Args → Method Args Answer × Answer
  call m args = (
    record m { args_for_call = m.args_for_call ++ args ∷ [] },
    elim m.stub [ none ↦ m.returns | some f ↦ f args ],
  )

  -- A value to return takes the stub's place.
  unfoldable pub set_returns : Method Args Answer → Answer → Method Args Answer
  set_returns m answer = record m { stub = none; returns = answer }

-- `FakeCcClient`
abbrev pub FakeCcClient : Type 0
FakeCcClient = Method (Str × AppCrashedRequest) (Option CcError)

unfoldable pub app_crashed : FakeCcClient → Str → AppCrashedRequest → FakeCcClient × Option CcError
unfolding call
app_crashed fake guid crash = call fake (guid, crash)

unfoldable pub app_crashed_call_count : FakeCcClient → ℕ
app_crashed_call_count fake = length fake.args_for_call

unfoldable pub app_crashed_args_for_call : FakeCcClient → ℕ → Result (Str × AppCrashedRequest)
unfolding at
app_crashed_args_for_call fake i = at fake.args_for_call i

unfoldable pub app_crashed_returns : FakeCcClient → Option CcError → FakeCcClient
unfolding set_returns
app_crashed_returns fake err = set_returns fake err

-- `FakeNoaaClient`; an error of `Close` is a text. A nil map or slice reads as empty.
pub record FakeNoaaClient : Type 0 where
  pub container_metrics : Method (Str × Str) Metrics
  pub close : Method (Unit {0}) (Option Str)
  pub invocations : Str → List (List Str)

-- `recordInvocation`, for one type of values. A nil map or slice reads as empty.
unfoldable pub record_invocation :
    {A : Type 0} → (Str → List (List A)) → Str → List A → Str → List (List A)
record_invocation invocations key args k =
    if str_eq key k then invocations k ++ args ∷ [] else invocations k

abbrev pub container_metrics_key : Str
container_metrics_key = bytes "ContainerMetrics"

abbrev pub close_key : Str
close_key = bytes "Close"

-- `ContainerMetrics`
unfoldable pub call_container_metrics : FakeNoaaClient → Str → Str → FakeNoaaClient × Metrics
unfolding call record_invocation
call_container_metrics fake app_guid auth_token =
    let (method, answer) = call fake.container_metrics (app_guid, auth_token) in
    (
      record fake {
        container_metrics = method;
        invocations =
            record_invocation fake.invocations container_metrics_key (app_guid ∷ auth_token ∷ []);
      },
      answer,
    )

unfoldable pub container_metrics_call_count : FakeNoaaClient → ℕ
container_metrics_call_count fake = length fake.container_metrics.args_for_call

unfoldable pub container_metrics_args_for_call : FakeNoaaClient → ℕ → Result (Str × Str)
unfolding at
container_metrics_args_for_call fake i = at fake.container_metrics.args_for_call i

unfoldable pub container_metrics_returns : FakeNoaaClient → Metrics → FakeNoaaClient
unfolding set_returns
container_metrics_returns fake answer = record fake {
  container_metrics = set_returns fake.container_metrics answer;
}

-- `Close`
unfoldable pub call_close : FakeNoaaClient → FakeNoaaClient × Option Str
unfolding call record_invocation
call_close fake =
    let (method, answer) = call fake.close tt in
    (
      record fake { close = method; invocations = record_invocation fake.invocations close_key [] },
      answer,
    )

unfoldable pub close_call_count : FakeNoaaClient → ℕ
close_call_count fake = length fake.close.args_for_call

unfoldable pub close_returns : FakeNoaaClient → Option Str → FakeNoaaClient
unfolding set_returns
close_returns fake err = record fake { close = set_returns fake.close err }

-- What a test does with the fake.
pub data NoaaAction : Type 0 where
  fetches : Str → Str → NoaaAction
  closes : NoaaAction
  returns_metrics : Metrics → NoaaAction
  returns_error : Option Str → NoaaAction

unfoldable pub act : FakeNoaaClient → NoaaAction → FakeNoaaClient
unfolding call_container_metrics call_close container_metrics_returns close_returns
act fake (fetches app_guid auth_token) = (call_container_metrics fake app_guid auth_token).0
act fake closes = (call_close fake).0
act fake (returns_metrics answer) = container_metrics_returns fake answer
act fake (returns_error err) = close_returns fake err

unfoldable pub run : FakeNoaaClient → List NoaaAction → FakeNoaaClient
unfolding act
run fake [] = fake
run fake (a ∷ rest) = run (act fake a) rest
