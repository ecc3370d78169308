-- ===== src/Fakes/Table/Answers.antt =====
-- Any fake of counterfeiter: what decides the answer to a call.
use mathlib.Mathlib.Logic.Function.Basic.{update_self, update_of_ne, forall_update_iff}
use tps.Base.{some, List, [], ◌∷◌, All, ◌≡◌, refl, sym, ap, ◌∙◌}
use tps.Fakes.{Method, call, set_returns}
use tps.Fakes.Table.{
  operations, Interface, Fake, call_method, set_method_returns, set_stub, Action, calls, returns,
  stubs, act, run,
}

module _ (i : Interface) where
  -- The action sets what the method answers.
  abbrev pub Sets : i.Name → Action i → Type 0
  Sets m (calls n args) = ⊥
  Sets m (returns n answer) = n ≡ m
  Sets m (stubs n f) = n ≡ m

  answer_of : (m : i.Name) → Method (i.Args m) (i.Answer m) → i.Args m → i.Answer m
  answer_of m method args = (call method args).1

  act-answer_of :
      (fake : Fake i) (m : i.Name) (a : Action i) (args : i.Args m)
      → ¬ Sets m a
      → answer_of m ((act i fake a).methods m) args ≡ answer_of m (fake.methods m) args
  unfolding act call_method call answer_of set_method_returns set_stub
  act-answer_of fake m (calls n given) args h =
      (forall_update_iff i.discrete fake.methods
          (λ k method. (x : i.Args k) → answer_of k method x ≡ answer_of k (fake.methods k) x)).1
        ((λ x. refl), λ k apart x. refl) m args
  act-answer_of fake m (returns n answer) args h =
      ap (λ method. answer_of m method args)
        (update_of_ne i.discrete (λ e. h (sym e)) (set_returns (fake.methods n) answer)
          fake.methods)
  act-answer_of fake m (stubs n f) args h =
      ap (λ method. answer_of m method args)
        (update_of_ne i.discrete (λ e. h (sym e)) (record (fake.methods n) { stub = some f })
          fake.methods)

  run-answer_of :
      (fake : Fake i) (m : i.Name) (actions : List (Action i)) (args : i.Args m)
      → All (λ a. ¬ Sets m a) actions
      → answer_of m ((run i fake actions).methods m) args ≡ answer_of m (fake.methods m) args
  unfolding run
  run-answer_of fake m [] args h = refl
  run-answer_of fake m (a ∷ actions) args h =
      run-answer_of (act i fake a) m actions args h.1 ∙ act-answer_of fake m a args h.0

  -- The value or the stub that was set last for a method answers its calls, whatever other actions
  -- come in between: calls of any method, and settings of the other methods.
  pub call_method-answers :
      (fake : Fake i) (m : i.Name) (answer : i.Answer m) (f : i.Args m → i.Answer m)
      (actions : List (Action i)) (args : i.Args m)
      → All (λ a. ¬ Sets m a) actions
      → let o = operations i m in
        ((o.call (run i (o.returns fake answer) actions) args).1 ≡ answer)
        × ((o.call (run i (set_stub i fake m f) actions) args).1 ≡ f args)
  unfolding operations call_method set_method_returns set_stub set_returns call answer_of
  call_method-answers fake m answer f actions args h = (
    run-answer_of (set_method_returns i fake m answer) m actions args h
        ∙ ap (λ method. answer_of m method args)
            (update_self i.discrete m (set_returns (fake.methods m) answer) fake.methods),
    run-answer_of (set_stub i fake m f) m actions args h
        ∙ ap (λ method. answer_of m method args)
            (update_self i.discrete m (record (fake.methods m) { stub = some f }) fake.methods),
  )
