-- ===== src/Fakes/Records.antt =====
-- What the fakes record of their calls.
use mathlib.Core.List.{append_assoc, append-nil}
use tps.Base.{
  ℕ, suc, ◌+◌, Str, str_eq, List, [], ◌∷◌, ◌++◌, map, length, ◌≡◌, refl, ap, sym, ◌∙◌, arith, ok,
}
use tps.Watcher.{AppCrashedRequest}
use tps.Fakes.{
  call, at, set_returns, FakeCcClient, app_crashed, app_crashed_args_for_call,
  app_crashed_call_count, FakeNoaaClient, record_invocation, container_metrics_key,
  call_container_metrics, call_close, container_metrics_returns, close_returns, close_call_count,
  NoaaAction, fetches, closes, returns_metrics, returns_error, act, run,
}

-- The queries of metrics among the actions.
pub fetched : List NoaaAction → List (Str × Str)
fetched [] = []
fetched (fetches g t ∷ rest) = (g, t) ∷ fetched rest
fetched (closes ∷ rest) = fetched rest
fetched (returns_metrics m ∷ rest) = fetched rest
fetched (returns_error e ∷ rest) = fetched rest

pub closed : List NoaaAction → ℕ
closed [] = 0
closed (fetches g t ∷ rest) = closed rest
closed (closes ∷ rest) = suc (closed rest)
closed (returns_metrics m ∷ rest) = closed rest
closed (returns_error e ∷ rest) = closed rest

abbrev pub as_list : Str × Str → List Str
as_list (g, t) = g ∷ t ∷ []

length-snoc : {A : Type 0} (xs : List A) (x : A) → length (xs ++ x ∷ []) ≡ suc (length xs)
length-snoc [] x = refl
length-snoc (y ∷ xs) x = ap suc (length-snoc xs x)

at-length : {A : Type 0} (xs : List A) (x : A) → at (xs ++ x ∷ []) (length xs) ≡ ok x
unfolding at
at-length [] x = refl
at-length (y ∷ xs) x = at-length xs x

-- A call of the Cloud Controller's fake is recorded behind those before it: the count grows by one,
-- and the arguments at the old count are those of the call.
app_crashed-is_recorded :
    (fake : FakeCcClient) (guid : Str) (crash : AppCrashedRequest)
    → let after = (app_crashed fake guid crash).0 in
      (app_crashed_call_count after ≡ suc (app_crashed_call_count fake))
      × (app_crashed_args_for_call after (app_crashed_call_count fake) ≡ ok (guid, crash))
unfolding app_crashed call app_crashed_call_count app_crashed_args_for_call
app_crashed-is_recorded fake guid crash =
    (length-snoc fake.args_for_call (guid, crash), at-length fake.args_for_call (guid, crash))

run-fetched :
    (fake : FakeNoaaClient) (actions : List NoaaAction)
    → (run fake actions).container_metrics.args_for_call
      ≡ fake.container_metrics.args_for_call ++ fetched actions
unfolding run act call_container_metrics call_close container_metrics_returns close_returns call
    set_returns fetched
run-fetched fake [] = sym (append-nil _)
run-fetched fake (fetches g t ∷ rest) =
    run-fetched (act fake (fetches g t)) rest
    ∙ append_assoc fake.container_metrics.args_for_call ((g, t) ∷ []) (fetched rest)
run-fetched fake (closes ∷ rest) = run-fetched (act fake closes) rest
run-fetched fake (returns_metrics m ∷ rest) = run-fetched (act fake (returns_metrics m)) rest
run-fetched fake (returns_error e ∷ rest) = run-fetched (act fake (returns_error e)) rest

run-invocations :
    (fake : FakeNoaaClient) (actions : List NoaaAction)
    → (run fake actions).invocations container_metrics_key
      ≡ fake.invocations container_metrics_key ++ map as_list (fetched actions)
unfolding run act call_container_metrics call_close container_metrics_returns close_returns call
    set_returns fetched record_invocation str_eq
run-invocations fake [] = sym (append-nil _)
run-invocations fake (fetches g t ∷ rest) =
    run-invocations (act fake (fetches g t)) rest
    ∙ append_assoc (fake.invocations container_metrics_key) ((g ∷ t ∷ []) ∷ [])
        (map as_list (fetched rest))
run-invocations fake (closes ∷ rest) = run-invocations (act fake closes) rest
run-invocations fake (returns_metrics m ∷ rest) =
    run-invocations (act fake (returns_metrics m)) rest
run-invocations fake (returns_error e ∷ rest) = run-invocations (act fake (returns_error e)) rest

run-closed :
    (fake : FakeNoaaClient) (actions : List NoaaAction)
    → close_call_count (run fake actions) ≡ close_call_count fake + closed actions
unfolding run act call_container_metrics call_close container_metrics_returns close_returns call
    set_returns closed close_call_count
run-closed fake [] = omega arith
run-closed fake (fetches g t ∷ rest) = run-closed (act fake (fetches g t)) rest
run-closed fake (closes ∷ rest) =
    run-closed (act fake closes) rest ∙ rw (length-snoc fake.close.args_for_call tt) (omega arith)
run-closed fake (returns_metrics m ∷ rest) = run-closed (act fake (returns_metrics m)) rest
run-closed fake (returns_error e ∷ rest) = run-closed (act fake (returns_error e)) rest

-- A fresh fake of the metrics client records, whatever it is told to return in between, the queries
-- of metrics in their order, the same among its invocations, and the number of calls of `Close`.
pub run-Recorded :
    (fake : FakeNoaaClient) (actions : List NoaaAction)
    → fake.container_metrics.args_for_call ≡ []
    → fake.close.args_for_call ≡ []
    → fake.invocations container_metrics_key ≡ []
    → ((run fake actions).container_metrics.args_for_call ≡ fetched actions)
      × ((run fake actions).invocations container_metrics_key ≡ map as_list (fetched actions))
      × (close_call_count (run fake actions) ≡ closed actions)
unfolding close_call_count
run-Recorded fake actions m c i = (
  run-fetched fake actions ∙ ap (λ xs. xs ++ fetched actions) m,
  run-invocations fake actions ∙ ap (λ xs. xs ++ map as_list (fetched actions)) i,
  run-closed fake actions ∙ ap (λ xs. length xs + closed actions) c ∙ omega arith,
)
