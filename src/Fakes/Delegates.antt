-- ===== src/Fakes/Delegates.antt =====
-- handler/handler_fakes/fake_handler.go: the delegate handler of a test.
use tps.Base.{ℕ, Option, none, some, List, [], ◌∷◌, ◌++◌, length, Result}
use tps.Http.{ResponseWriter}
use tps.Fakes.{at}

-- `FakeHandler`: what its stub does to the writer, and the arguments of its calls.
pub record FakeHandler (Request : Type 0) : Type 0 where
  pub stub : Option (ResponseWriter → Request → ResponseWriter)
  pub args_for_call : List (ResponseWriter × Request)

module _ {Request : Type 0} where
  -- `ServeHTTP`: without a stub the writer is left alone.
  unfoldable pub serve_http :
      FakeHandler Request → ResponseWriter → Request → FakeHandler Request × ResponseWriter
  serve_http fake w r = (
    record fake { args_for_call = fake.args_for_call ++ (w, r) ∷ [] },
    elim fake.stub [ none ↦ w | some f ↦ f w r ],
  )

  -- `ServeHTTPCallCount`
  unfoldable pub serve_http_call_count : FakeHandler Request → ℕ
  serve_http_call_count fake = length fake.args_for_call

  -- `ServeHTTPArgsForCall`
  unfoldable pub serve_http_args_for_call :
      FakeHandler Request → ℕ → Result (ResponseWriter × Request)
  unfolding at
  serve_http_args_for_call fake i = at fake.args_for_call i
