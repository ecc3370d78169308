-- ===== src/Watcher/Ends.antt =====
-- watcher/watcher.go: the end of the loop of `Run`.
use tps.Base.{
  Option, ◌⊎◌, ◌↔◌, ap, ℕ, Str, none, some, Option-cases, List, [], ◌∷◌, ◌++◌, ◌≡◌, ◌≢◌, inl, inr,
  refl, arith,
}
use mathlib.Core.Path.{subst}
use mathlib.Core.Option.{some-injective}
use tps.Watcher.Invariant.{step-act}
use tps.Watcher.{
  init, subscribes, nexts, takes_subscription, takes_event, takes_error, stopped, panicked,
  source_closed, unrecognized_event_type, other_error, State, running, Action, takes_signal, act,
  on_signal, step, run,
}

-- The sources that are closed at the end: the subscription, after a signal that ends the watcher
-- cleanly.
abbrev pub closed_by : State → List ℕ
closed_by s = elim s.phase [
  | running ↦ []
  | stopped ↦ elim s.subscription [ none ↦ [] | some source ↦ source ∷ [] ]
  | panicked ↦ []
]

-- What the loop has for its subscription after a schedule: the answer to the last call of
-- `subscribeToEvents` that it has taken, from the one it has and the last answer.
abbrev pub subscription_after : Option ℕ → Option ℕ → List Action → Option ℕ
subscription_after current answer [] = current
subscription_after current answer (subscribes source ∷ rest) =
    subscription_after current source rest
subscription_after current answer (takes_subscription ∷ rest) =
    subscription_after answer answer rest
subscription_after current answer (nexts event err ∷ rest) = subscription_after current answer rest
subscription_after current answer (takes_event ∷ rest) = subscription_after current answer rest
subscription_after current answer (takes_error ∷ rest) = subscription_after current answer rest
subscription_after current answer (takes_signal ∷ rest) = subscription_after current answer rest

-- The state has that subscription, and its channel holds at most that answer.
Has : State → Option ℕ → Option ℕ → Type 0
Has s current answer =
    (s.subscription ≡ current) × ((s.subscription_chan ≡ []) ⊎ (s.subscription_chan ≡ answer ∷ []))

module _ (app_lrp_domain : Str) where
  run-append_none :
      (xs ys : List Action) (s : State)
      → ((t : State) → run app_lrp_domain s xs ≡ some t → run app_lrp_domain t ys ≡ none)
      → run app_lrp_domain s (xs ++ ys) ≡ none
  unfolding run
  run-append_none [] ys s h = h s refl
  run-append_none (x ∷ xs) ys s h = elim (Option-cases (step app_lrp_domain s x)) [
    | inl e ↦ ground arith
    | inr (t, e) ↦ ground (arith, run-append_none xs ys t (λ u r. h u (ground arith)))
  ]

  signal_ends :
      (s : State) (a : Action) (rest : List Action)
      → run app_lrp_domain s (takes_signal ∷ a ∷ rest) ≡ none
  unfolding run step act on_signal
  signal_ends s a rest = ground arith

  act-subscription :
      (s t : State) (a : Action) (rest : List Action) (current answer final : Option ℕ)
      → Has s current answer
      → act app_lrp_domain s a ≡ some t
      → ((c x : Option ℕ) → Has t c x → final ≡ subscription_after c x rest)
      → final ≡ subscription_after current answer (a ∷ rest)
  unfolding act on_signal Has
  act-subscription s t (subscribes v) rest current answer final h e k = k current v (ground arith)
  act-subscription s t (nexts event none) rest current answer final h e k =
      k current answer (ground arith)
  act-subscription s t (nexts event (some source_closed)) rest current answer final h e k =
      k current answer (ground arith)
  act-subscription s t (nexts event (some unrecognized_event_type)) rest current answer final h e
        k =
      k current answer (ground arith)
  act-subscription s t (nexts event (some other_error)) rest current answer final h e k =
      k current answer (ground arith)
  act-subscription s t takes_subscription rest current answer final h e k =
      k answer answer (ground arith)
  act-subscription s t takes_event rest current answer final h e k = k current answer (ground arith)
  act-subscription s t takes_error rest current answer final h e k = k current answer (ground arith)
  act-subscription s t takes_signal rest current answer final h e k =
      k current answer (ground arith)

  run-subscription :
      (s t : State) (schedule : List Action) (current answer : Option ℕ)
      → Has s current answer
      → run app_lrp_domain s schedule ≡ some t
      → t.subscription ≡ subscription_after current answer schedule
  unfolding run Has
  run-subscription s t [] current answer h e =
      subst (λ u. u.subscription ≡ current) (some-injective _ _ e) h.0
  run-subscription s t (a ∷ rest) current answer h e =
      elim (Option-cases (step app_lrp_domain s a)) [
        | inl stuck ↦ absurd (ground arith)
        | inr (u, f) ↦
            let (r, g) = step-act app_lrp_domain s u a f in
            act-subscription s u a rest current answer t.subscription h g
              (λ c x k. run-subscription u t rest c x k (ground arith))
      ]

  run-append :
      (xs ys : List Action) (s t : State)
      → run app_lrp_domain s xs ≡ some t
      → run app_lrp_domain s (xs ++ ys) ≡ run app_lrp_domain t ys
  unfolding run
  run-append [] ys s t e = ap (λ u. run app_lrp_domain u ys) (some-injective _ _ e)
  run-append (x ∷ xs) ys s t e = elim (Option-cases (step app_lrp_domain s x)) [
    | inl stuck ↦ absurd (ground arith)
    | inr (u, f) ↦ ground (arith, run-append xs ys u t (ground arith))
  ]

  -- While the watcher runs, after any schedule from the start, it can take a signal, which ends it:
  -- cleanly if the last subscription that its loop has taken was a success, and by a panic if that was
  -- a failure, or if it has taken none. Nothing follows the signal.
  pub run-init-signal :
      (t : State) (schedule rest : List Action) (a : Action)
      → run app_lrp_domain init schedule ≡ some t
      → t.phase ≡ running
      → (u : State) × (run app_lrp_domain init (schedule ++ takes_signal ∷ []) ≡ some u)
        × ((u.phase ≡ stopped) ↔ (subscription_after none none schedule ≢ none))
        × ((u.phase ≡ panicked) ↔ (subscription_after none none schedule ≡ none))
        × (run app_lrp_domain init (schedule ++ takes_signal ∷ a ∷ rest) ≡ none)
  unfolding run step act on_signal Has
  run-init-signal t schedule rest a e r =
      let held = run-subscription init t schedule none none (refl, inl refl) e in
      let after = run-append schedule (takes_signal ∷ []) init t e in
      let nothing =
        run-append_none schedule (takes_signal ∷ a ∷ rest) init (λ s h. signal_ends s a rest) in
      elim (Option-cases t.subscription) [
        | inl missing ↦ (
          record t { phase = panicked },
          ground (arith, after, r, missing),
          (λ p. ground arith, λ n. absurd (n (ground arith))),
          (λ p. ground arith, λ n. refl),
          nothing,
        )
        | inr (source, has) ↦ (
          record t { phase = stopped; closed = t.closed ++ source ∷ [] },
          ground (arith, after, r, has),
          (λ p n. ground arith, λ n. refl),
          (λ p. ground arith, λ n. ground arith),
          nothing,
        )
      ]

  act-closed :
      (s t : State) (a : Action)
      → s.phase ≡ running
      → s.closed ≡ []
      → act app_lrp_domain s a ≡ some t
      → t.closed ≡ closed_by t
  unfolding act on_signal
  act-closed s t (subscribes v) r c e = ground arith
  act-closed s t (nexts event none) r c e = ground arith
  act-closed s t (nexts event (some source_closed)) r c e = ground arith
  act-closed s t (nexts event (some unrecognized_event_type)) r c e = ground arith
  act-closed s t (nexts event (some other_error)) r c e = ground arith
  act-closed s t takes_subscription r c e = ground arith
  act-closed s t takes_event r c e = ground arith
  act-closed s t takes_error r c e = ground arith
  act-closed s t takes_signal r c e = ground arith

  step-closed :
      (s t : State) (a : Action)
      → step app_lrp_domain s a ≡ some t
      → s.closed ≡ closed_by s
      → t.closed ≡ closed_by t
  step-closed s t a e c =
      let (r, f) = step-act app_lrp_domain s t a e in act-closed s t a r (ground (arith, r, c)) f

  run-closed :
      (s t : State) (schedule : List Action)
      → run app_lrp_domain s schedule ≡ some t
      → s.closed ≡ closed_by s
      → t.closed ≡ closed_by t
  unfolding run
  run-closed s t [] e c = subst (λ u. u.closed ≡ closed_by u) (some-injective _ _ e) c
  run-closed s t (a ∷ rest) e c = elim (Option-cases (step app_lrp_domain s a)) [
    | inl stuck ↦ absurd (ground arith)
    | inr (u, f) ↦ run-closed u t rest (ground arith) (step-closed s u a f c)
  ]

  -- Whatever sources the watcher has subscribed to, none is closed while it runs, and a signal closes
  -- its present subscription and no other source.
  pub run-init-closed :
      (t : State) (schedule : List Action)
      → run app_lrp_domain init schedule ≡ some t
      → t.closed ≡ closed_by t
  run-init-closed t schedule e = run-closed init t schedule e refl
