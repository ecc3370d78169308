-- ===== src/Watcher/Balance.antt =====
-- watcher/watcher.go: the work of the loop of `Run` against the calls that return to it.
use tps.Base.{
  ℕ, ◌+◌, ◌≤◌, Str, none, some, List, [], ◌∷◌, length, ◌≡◌, inl, inr, refl, arith, Option-cases,
  Bool-cases, ltb,
}
use mathlib.Core.Path.{subst}
use mathlib.Core.Option.{some-injective}
use tps.Watcher.{
  State, source_closed, unrecognized_event_type, other_error, Action, subscribes, nexts,
  takes_subscription, takes_event, takes_error, takes_signal, init, on_signal, act, step, run,
}
use tps.Watcher.Invariant.{
  Inv, init-Inv, Stage, subscribing, answered, reading, delivering, failing, step-act, step-Inv,
}

-- What the channels hold.
abbrev pub pending : State → ℕ
pending s = length s.subscription_chan + length s.event_chan + length s.error_chan

-- Whether a call of the BBS's client returns.
abbrev return_of : Action → ℕ
return_of (subscribes source) = 1
return_of (nexts event err) = 1
return_of takes_subscription = 0
return_of takes_event = 0
return_of takes_error = 0
return_of takes_signal = 0

-- Whether the loop takes something from a channel, other than a signal.
abbrev take_of : Action → ℕ
take_of (subscribes source) = 0
take_of (nexts event err) = 0
take_of takes_subscription = 1
take_of takes_event = 1
take_of takes_error = 1
take_of takes_signal = 0

abbrev pub returned : List Action → ℕ
returned [] = 0
returned (a ∷ schedule) = return_of a + returned schedule

abbrev pub taken : List Action → ℕ
taken [] = 0
taken (a ∷ schedule) = take_of a + taken schedule

Stage-pending : (s : State) → Stage s → pending s ≤ 1
Stage-pending s (subscribing h) = ground arith
Stage-pending s (answered v h) = ground arith
Stage-pending s (reading source q h) = ground arith
Stage-pending s (delivering source event q h) = ground arith
Stage-pending s (failing source err q n h) = ground arith

module _ (app_lrp_domain : Str) where
  act-pending :
      (s t : State) (a : Action)
      → Stage s
      → act app_lrp_domain s a ≡ some t
      → pending t + take_of a ≡ pending s + return_of a
  unfolding act on_signal
  act-pending s t takes_signal st e = ground arith
  act-pending s t (subscribes v) (subscribing h) e = ground arith
  act-pending s t takes_subscription (answered none h) e = ground arith
  act-pending s t takes_subscription (answered (some source) h) e = ground arith
  act-pending s t (nexts event none) (reading source q h) e = ground arith
  act-pending s t (nexts event (some source_closed)) (reading source q h) e = ground arith
  act-pending s t (nexts event (some unrecognized_event_type)) (reading source q h) e = ground arith
  act-pending s t (nexts event (some other_error)) (reading source q h) e = ground arith
  act-pending s t takes_event (delivering source (some event) q h) e = ground arith
  act-pending s t takes_event (delivering source none q h) e =
      elim (Bool-cases (ltb 2 (s.next_err_count + 1))) [
        | inl third ↦ ground arith
        | inr early ↦ ground arith
      ]
  act-pending s t takes_error (failing source source_closed q n h) e = ground arith
  act-pending s t takes_error (failing source unrecognized_event_type q n h) e = ground arith
  act-pending s t takes_error (failing source other_error q n h) e = absurd (n refl)
  act-pending s t a (subscribing h) e = absurd (ground arith)
  act-pending s t a (answered v h) e = absurd (ground arith)
  act-pending s t a (reading source q h) e = absurd (ground arith)
  act-pending s t a (delivering source event q h) e = absurd (ground arith)
  act-pending s t a (failing source err q n h) e = absurd (ground arith)

  run-pending :
      (s t : State) (schedule : List Action)
      → Inv s
      → run app_lrp_domain s schedule ≡ some t
      → (pending t + taken schedule ≡ pending s + returned schedule) × Inv t
  unfolding run
  run-pending s t [] v e =
      subst (λ u. (pending u + 0 ≡ pending s + 0) × Inv u) (some-injective _ _ e) (refl, v)
  run-pending s t (a ∷ rest) v e = elim (Option-cases (step app_lrp_domain s a)) [
    | inl stuck ↦ absurd (ground arith)
    | inr (u, f) ↦
        let (balance, w) =
          run-pending u t rest (step-Inv app_lrp_domain s u a f v) (ground arith) in
        let one = act-pending s u a v.stage (step-act app_lrp_domain s u a f).1 in
        (omega (arith, balance, one), w)
  ]

  -- The loop makes no work of its own: in any schedule from the start, the values that it has taken
  -- from its channels, and those that still wait there, which are at most one, are as many as the
  -- calls of the BBS's client that have returned. (A signal is no such value.)
  pub run-init-balance :
      (t : State) (schedule : List Action)
      → run app_lrp_domain init schedule ≡ some t
      → (pending t + taken schedule ≡ returned schedule) × (pending t ≤ 1)
  run-init-balance t schedule e =
      let (balance, v) = run-pending init t schedule init-Inv e in
      (omega (arith, balance), Stage-pending t v.stage)
