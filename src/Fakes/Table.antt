-- ===== src/Fakes/Table.antt =====
-- What counterfeiter makes of an interface, for any table of its methods: their arguments, answers
-- and keys. Each operation is one step; the mutexes guard the records of the calls, so this leaves out
-- a test that sets a stub or an answer while a call runs.
pub mod Laws
pub mod Answers
mod Tests
use mathlib.Mathlib.Logic.Function.Basic.{update}
use tps.Base.{
  str_eq, Bool, true, false, if◌then◌else◌, ℕ, Str, Option, none, some, List, [], ◌∷◌, length,
  Result, ◌≡◌,
}
use tps.Fakes.{Method, call, at, set_returns, record_invocation}

-- The first method with a key.
unfoldable pub find_key : {Name : Type 0} → (Name → Str) → List Name → Str → Option Name
find_key key [] s = none
find_key key (m ∷ methods) s = if str_eq (key m) s then some m else find_key key methods s

-- The methods of an interface. `Boxed` is what `interface{}` holds of their arguments, `zero` the zero
-- value of an answer, and `named` finds a method by its key.
pub record Interface : Type 1 where
  pub Name : Type 0
  pub discrete : Discrete Name
  pub Args : Name → Type 0
  pub Answer : Name → Type 0
  pub Boxed : Type 0
  pub zero : (m : Name) → Answer m
  pub key : Name → Str
  pub box : (m : Name) → Args m → List Boxed
  pub named : Str → Option Name
  pub named-key : (m : Name) → named (key m) ≡ some m

-- The struct of the fake: stub, arguments and answer of each method, and the invocations by key.
pub record Fake (i : Interface) : Type 0 where
  pub methods : (m : i.Name) → Method (i.Args m) (i.Answer m)
  pub invocations : Str → List (List i.Boxed)

module _ (i : Interface) where
  -- `new(Fake…)`
  abbrev pub new_fake : Fake i
  new_fake = record {
    methods = λ m. record { stub = none; args_for_call = []; returns = i.zero m };
    invocations = λ key. [];
  }

  abbrev pub put : Fake i → (m : i.Name) → Method (i.Args m) (i.Answer m) → Fake i
  put fake m method = record fake { methods = update i.discrete fake.methods m method }

  -- A call of the method: it is recorded twice, and the stub or the set value answers.
  unfoldable pub call_method : Fake i → (m : i.Name) → i.Args m → Fake i × i.Answer m
  unfolding call record_invocation
  call_method fake m args =
      let (method, answer) = call (fake.methods m) args in
      (
        record (put fake m method) {
          invocations = record_invocation fake.invocations (i.key m) (i.box m args);
        },
        answer,
      )

  -- `…CallCount`
  unfoldable pub call_count : Fake i → (m : i.Name) → ℕ
  call_count fake m = length (fake.methods m).args_for_call

  -- `…ArgsForCall`
  unfoldable pub args_for_call : Fake i → (m : i.Name) → ℕ → Result (i.Args m)
  unfolding at
  args_for_call fake m k = at (fake.methods m).args_for_call k

  -- `…Returns`
  unfoldable pub set_method_returns : Fake i → (m : i.Name) → i.Answer m → Fake i
  unfolding set_returns
  set_method_returns fake m answer = put fake m (set_returns (fake.methods m) answer)

  -- The assignment of a test to the stub of a method.
  unfoldable pub set_stub : Fake i → (m : i.Name) → (i.Args m → i.Answer m) → Fake i
  set_stub fake m f = put fake m (record (fake.methods m) { stub = some f })

  -- What a test does with the fake.
  pub data Action : Type 0 where
    calls : (m : i.Name) → i.Args m → Action
    returns : (m : i.Name) → i.Answer m → Action
    stubs : (m : i.Name) → (i.Args m → i.Answer m) → Action

  unfoldable pub act : Fake i → Action → Fake i
  unfolding call_method set_method_returns set_stub
  act fake (calls m args) = (call_method fake m args).0
  act fake (returns m answer) = set_method_returns fake m answer
  act fake (stubs m f) = set_stub fake m f

  unfoldable pub run : Fake i → List Action → Fake i
  unfolding act
  run fake [] = fake
  run fake (a ∷ actions) = run (act fake a) actions

-- The four functions that counterfeiter writes for one method; a method without arguments has no
-- `…ArgsForCall`, and its field is not used.
pub record Operations (i : Interface) (m : i.Name) : Type 0 where
  pub call : Fake i → i.Args m → Fake i × i.Answer m
  pub call_count : Fake i → ℕ
  pub args_for_call : Fake i → ℕ → Result (i.Args m)
  pub returns : Fake i → i.Answer m → Fake i

unfoldable pub operations : (i : Interface) (m : i.Name) → Operations i m
unfolding call_method call_count args_for_call set_method_returns
operations i m = record {
  call = λ fake args. call_method i fake m args;
  call_count = λ fake. call_count i fake m;
  args_for_call = λ fake k. args_for_call i fake m k;
  returns = λ fake answer. set_method_returns i fake m answer;
}
