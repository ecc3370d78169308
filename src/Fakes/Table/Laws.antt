-- ===== src/Fakes/Table/Laws.antt =====
-- Any fake of counterfeiter, over any sequence of calls and settings.
use mathlib.Core.List.{append_assoc, append-nil, map-append}
use mathlib.Core.Option.{some-injective}
use mathlib.Mathlib.Logic.Function.Basic.{update_self, forall_update_iff}
use tps.Base.{
  Str, str_eq, str_eq_iff, str_eq_refl, false, Bool-cases, some, List, [], ◌∷◌, ◌++◌, map, length,
  ok, ◌≡◌, ◌≢◌, inl, inr, refl, sym, ap, ◌∙◌,
}
use tps.Fakes.{Method, call, at, set_returns, record_invocation}
use tps.Fakes.Table.{
  operations, Interface, Fake, new_fake, put, call_method, call_count, args_for_call,
  set_method_returns, set_stub, Action, calls, returns, stubs, act, run,
}

at-append : {A : Type 0} (xs : List A) (x : A) (ys : List A) → at (xs ++ x ∷ ys) (length xs) ≡ ok x
unfolding at
at-append [] x ys = refl
at-append (z ∷ xs) x ys = at-append xs x ys

module _ (i : Interface) where
  -- No two methods share a key.
  key_injective : (m n : i.Name) → i.key m ≡ i.key n → m ≡ n
  key_injective m n e = some-injective _ _ (sym (i.named-key m) ∙ ap i.named e ∙ i.named-key n)

  key_apart : (m n : i.Name) → n ≢ m → str_eq (i.key m) (i.key n) ≡ false
  key_apart m n h = elim (Bool-cases (str_eq (i.key m) (i.key n))) [
    | inr e ↦ e
    | inl e ↦ absurd (h (sym (key_injective m n ((str_eq_iff _ _).0 e))))
  ]

  -- The two records of the calls of a method say the same.
  pub AgreesAt :
      (Str → List (List i.Boxed)) → (m : i.Name) → Method (i.Args m) (i.Answer m) → Type 0
  AgreesAt invocations m method = invocations (i.key m) ≡ map (i.box m) method.args_for_call

  pub Agrees : Fake i → Type 0
  unfolding AgreesAt
  Agrees fake = (m : i.Name) → AgreesAt fake.invocations m (fake.methods m)

  call-Agrees :
      (fake : Fake i) (m : i.Name) (args : i.Args m)
      → Agrees fake
      → Agrees (call_method i fake m args).0
  unfolding call_method call record_invocation Agrees
  call-Agrees fake m args h =
      (forall_update_iff i.discrete fake.methods (λ n method.
          AgreesAt (record_invocation fake.invocations (i.key m) (i.box m args)) n method)).1
        (
          rw (str_eq_refl (i.key m))
              (ap (λ xs. xs ++ i.box m args ∷ []) (h m) ∙ sym (map-append _ _ _)),
          λ n apart. rw (key_apart m n apart) (h n),
        )

  put-Agrees :
      (fake : Fake i) (m : i.Name) (method : Method (i.Args m) (i.Answer m))
      → method.args_for_call ≡ (fake.methods m).args_for_call
      → Agrees fake
      → Agrees (put i fake m method)
  unfolding Agrees
  put-Agrees fake m method same h =
      (forall_update_iff i.discrete fake.methods (AgreesAt fake.invocations)).1
        (h m ∙ ap (map (i.box m)) (sym same), λ n apart. h n)

  act-Agrees : (fake : Fake i) (a : Action i) → Agrees fake → Agrees (act i fake a)
  unfolding act set_method_returns set_stub set_returns
  act-Agrees fake (calls m args) h = call-Agrees fake m args h
  act-Agrees fake (returns m answer) h =
      put-Agrees fake m (set_returns (fake.methods m) answer) refl h
  act-Agrees fake (stubs m f) h =
      put-Agrees fake m (record (fake.methods m) { stub = some f }) refl h

  run-Agrees :
      (fake : Fake i) (actions : List (Action i)) → Agrees fake → Agrees (run i fake actions)
  unfolding run
  run-Agrees fake [] h = h
  run-Agrees fake (a ∷ actions) h = run-Agrees (act i fake a) actions (act-Agrees fake a h)

  -- However a fresh fake is used, its two records of the calls agree: under the key of each method the
  -- invocations hold the arguments of that method's calls, in their order, and those of no other.
  pub run-new_fake-Agrees : (actions : List (Action i)) → Agrees (run i (new_fake i) actions)
  unfolding Agrees
  run-new_fake-Agrees actions = run-Agrees (new_fake i) actions (λ m. refl)

  -- A method's recorded arguments, behind which more may stand.
  Extends : (m : i.Name) → List (i.Args m) → Fake i → Type 0
  Extends m xs fake = (ys : List (i.Args m)) × ((fake.methods m).args_for_call ≡ xs ++ ys)

  put-Extends :
      (m n : i.Name) (xs : List (i.Args m)) (fake : Fake i)
      (method : Method (i.Args n) (i.Answer n))
      → ((ys : List (i.Args n)) × (method.args_for_call ≡ (fake.methods n).args_for_call ++ ys))
      → Extends m xs fake
      → Extends m xs (put i fake n method)
  unfolding Extends
  put-Extends m n xs fake method (zs, more) (ys, h) =
      let (rest, e) =
        (forall_update_iff i.discrete fake.methods (λ k method'.
            (rest : List (i.Args k)) × (method'.args_for_call
              ≡ (fake.methods k).args_for_call ++ rest))).1
          ((zs, more), λ k apart. ([], sym (append-nil (fake.methods k).args_for_call))) m in
      (ys ++ rest, e ∙ ap (λ l. l ++ rest) h ∙ append_assoc xs ys rest)

  act-Extends :
      (m : i.Name) (xs : List (i.Args m)) (fake : Fake i) (a : Action i)
      → Extends m xs fake
      → Extends m xs (act i fake a)
  unfolding act call_method call set_method_returns set_stub set_returns Extends
  act-Extends m xs fake (calls n args) h =
      put-Extends m n xs fake (call (fake.methods n) args).0 (args ∷ [], refl) h
  act-Extends m xs fake (returns n answer) h =
      put-Extends m n xs fake (set_returns (fake.methods n) answer)
        ([], sym (append-nil (fake.methods n).args_for_call)) h
  act-Extends m xs fake (stubs n f) h =
      put-Extends m n xs fake (record (fake.methods n) { stub = some f })
        ([], sym (append-nil (fake.methods n).args_for_call)) h

  run-Extends :
      (m : i.Name) (xs : List (i.Args m)) (fake : Fake i) (actions : List (Action i))
      → Extends m xs fake
      → Extends m xs (run i fake actions)
  unfolding run
  run-Extends m xs fake [] h = h
  run-Extends m xs fake (a ∷ actions) h =
      run-Extends m xs (act i fake a) actions (act-Extends m xs fake a h)

  -- A call can be read back: whatever is done with the fake before and after it, the arguments under
  -- the number that the calls of its method had before are those of the call.
  pub args_for_call-call_method :
      (fake : Fake i) (m : i.Name) (args : i.Args m) (after : List (Action i))
      → let o = operations i m in
        o.args_for_call (run i (o.call fake args).0 after) (o.call_count fake) ≡ ok args
  unfolding operations args_for_call call_count call_method call Extends
  args_for_call-call_method fake m args after =
      let called = (call_method i fake m args).0 in
      let start : (called.methods m).args_for_call
          ≡ ((fake.methods m).args_for_call ++ args ∷ []) ++ [] =
        ap (λ (x : Method (i.Args m) (i.Answer m)). x.args_for_call)
          (update_self i.discrete m (call (fake.methods m) args).0 fake.methods)
        ∙ sym (append-nil _) in
      let (ys, e) =
        run-Extends m ((fake.methods m).args_for_call ++ args ∷ []) called after ([], start) in
      ap (λ xs. at xs (length (fake.methods m).args_for_call))
        (e ∙ append_assoc (fake.methods m).args_for_call (args ∷ []) ys)
      ∙ at-append (fake.methods m).args_for_call args ys
