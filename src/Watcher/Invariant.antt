-- ===== src/Watcher/Invariant.antt =====
-- watcher/watcher.go: what is under way between two rounds of the loop of `Run`.
use tps.Base.{
  ℕ, ◌+◌, ◌≤◌, Str, Option, none, some, List, [], ◌∷◌, ◌≡◌, ◌≢◌, inl, inr, refl, arith,
  Option-cases, Bool-cases, ltb,
}
use mathlib.Core.Path.{subst}
use mathlib.Core.Option.{some-injective}
use tps.Watcher.{
  State, running, panicked, Event, NextError, source_closed, unrecognized_event_type, other_error,
  Action, subscribes, nexts, takes_subscription, takes_event, takes_error, takes_signal, init,
  on_signal, act, step, run,
}

-- The running subscriptions and reads, and what the three channels hold.
abbrev pub Holds :
    State → ℕ → List (Option ℕ) → List (Option ℕ) → List (Option Event) → List NextError → Type 0
Holds s subscribers readers subscriptions events errors =
    (s.subscribers ≡ subscribers)
    × (s.readers ≡ readers)
    × (s.subscription_chan ≡ subscriptions)
    × (s.event_chan ≡ events)
    × (s.error_chan ≡ errors)

-- The one thing that is under way. A source is read only while it is the watcher's subscription.
pub data Stage (s : State) : Type 0 where
  subscribing : Holds s 1 [] [] [] [] → Stage s
  answered : (source : Option ℕ) → Holds s 0 [] (source ∷ []) [] [] → Stage s
  reading :
      (source : ℕ) → s.subscription ≡ some source → Holds s 0 (some source ∷ []) [] [] [] → Stage s
  delivering :
      (source : ℕ) (event : Option Event)
      → s.subscription ≡ some source
      → Holds s 0 [] [] (event ∷ []) []
      → Stage s
  failing :
      (source : ℕ) (err : NextError)
      → s.subscription ≡ some source
      → err ≢ other_error
      → Holds s 0 [] [] [] (err ∷ [])
      → Stage s

pub record Inv (s : State) : Type 0 where
  pub stage : Stage s
  pub few : s.next_err_count ≤ 2
  pub broken : s.phase ≡ panicked → s.subscription ≡ none

pub init-Inv : Inv init
init-Inv = record {
  stage = subscribing (refl, refl, refl, refl, refl);
  few = omega arith;
  broken = λ e. cc;
}

on_signal-Stage : (s : State) → Stage s → Stage (on_signal s)
unfolding on_signal
on_signal-Stage s (subscribing h) = subscribing (ground arith)
on_signal-Stage s (answered v h) = answered v (ground arith)
on_signal-Stage s (reading source e h) = reading source (ground arith) (ground arith)
on_signal-Stage s (delivering source event e h) =
    delivering source event (ground arith) (ground arith)
on_signal-Stage s (failing source err e n h) = failing source err (ground arith) n (ground arith)

module _ (app_lrp_domain : Str) where
  -- Each action goes from one stage to one stage, or cannot happen.
  act-Stage : (s t : State) (a : Action) → Stage s → act app_lrp_domain s a ≡ some t → Stage t
  unfolding act
  act-Stage s t takes_signal st e = subst Stage (some-injective _ _ e) (on_signal-Stage s st)
  act-Stage s t (subscribes v) (subscribing h) e = answered v (ground arith)
  act-Stage s t takes_subscription (answered none h) e = subscribing (ground arith)
  act-Stage s t takes_subscription (answered (some source) h) e =
      reading source (ground arith) (ground arith)
  act-Stage s t (nexts event none) (reading source q h) e =
      delivering source event (ground arith) (ground arith)
  act-Stage s t (nexts event (some source_closed)) (reading source q h) e =
      failing source source_closed (ground arith) (λ p. cc) (ground arith)
  act-Stage s t (nexts event (some unrecognized_event_type)) (reading source q h) e =
      failing source unrecognized_event_type (ground arith) (λ p. cc) (ground arith)
  act-Stage s t (nexts event (some other_error)) (reading source q h) e =
      delivering source none (ground arith) (ground arith)
  act-Stage s t takes_event (delivering source (some event) q h) e =
      reading source (ground arith) (ground arith)
  act-Stage s t takes_event (delivering source none q h) e =
      elim (Bool-cases (ltb 2 (s.next_err_count + 1))) [
        | inl third ↦ subscribing (ground arith)
        | inr early ↦ reading source (ground arith) (ground arith)
      ]
  act-Stage s t takes_error (failing source source_closed q n h) e = subscribing (ground arith)
  act-Stage s t takes_error (failing source unrecognized_event_type q n h) e =
      reading source (ground arith) (ground arith)
  act-Stage s t takes_error (failing source other_error q n h) e = absurd (n refl)
  act-Stage s t a (subscribing h) e = absurd (ground arith)
  act-Stage s t a (answered v h) e = absurd (ground arith)
  act-Stage s t a (reading source q h) e = absurd (ground arith)
  act-Stage s t a (delivering source event q h) e = absurd (ground arith)
  act-Stage s t a (failing source err q n h) e = absurd (ground arith)

  -- Fewer than three failed reads are counted.
  act-few :
      (s t : State) (a : Action)
      → act app_lrp_domain s a ≡ some t
      → s.next_err_count ≤ 2
      → t.next_err_count ≤ 2
  unfolding act
  act-few s t (subscribes v) e h = ground arith
  act-few s t (nexts event none) e h = ground arith
  act-few s t (nexts event (some source_closed)) e h = ground arith
  act-few s t (nexts event (some unrecognized_event_type)) e h = ground arith
  act-few s t (nexts event (some other_error)) e h = ground arith
  act-few s t takes_subscription e h = ground arith
  act-few s t takes_event e h = ground arith
  act-few s t takes_error e h = ground arith
  act-few s t takes_signal e h = ground arith

  -- Only a signal can make the watcher panic, and only where it has no subscription.
  act-broken :
      (s t : State) (a : Action)
      → Stage s
      → act app_lrp_domain s a ≡ some t
      → s.phase ≡ running
      → t.phase ≡ panicked
      → t.subscription ≡ none
  unfolding act
  act-broken s t takes_signal st e r p = ground arith
  act-broken s t (subscribes v) st e r p = absurd (ground arith)
  act-broken s t takes_subscription st e r p = absurd (ground arith)
  act-broken s t takes_event st e r p = absurd (ground arith)
  act-broken s t takes_error st e r p = absurd (ground arith)
  act-broken s t (nexts event err) (reading source q h) e r p = absurd (reads event err e)
    where
      reads :
          (event : Option Event) (err : Option NextError)
          → act app_lrp_domain s (nexts event err) ≡ some t
          → ⊥
      reads event none e = ground arith
      reads event (some source_closed) e = ground arith
      reads event (some unrecognized_event_type) e = ground arith
      reads event (some other_error) e = ground arith
  act-broken s t (nexts event err) (subscribing h) e r p = absurd (ground arith)
  act-broken s t (nexts event err) (answered v h) e r p = absurd (ground arith)
  act-broken s t (nexts event err) (delivering source ev q h) e r p = absurd (ground arith)
  act-broken s t (nexts event err) (failing source er q n h) e r p = absurd (ground arith)

  pub step-act :
      (s t : State) (a : Action)
      → step app_lrp_domain s a ≡ some t
      → (s.phase ≡ running) × (act app_lrp_domain s a ≡ some t)
  unfolding step
  step-act s t a e = ground arith

  -- Every step keeps the invariant: exactly one thing is under way, a source is read only while it is
  -- the subscription, fewer than three failures are counted, and a panic means no subscription.
  pub step-Inv : (s t : State) (a : Action) → step app_lrp_domain s a ≡ some t → Inv s → Inv t
  step-Inv s t a e v =
      let (r, f) = step-act s t a e in
      record {
        stage = act-Stage s t a v.stage f;
        few = act-few s t a f v.few;
        broken = λ p. act-broken s t a v.stage f r p;
      }

  pub run-Inv :
      (s t : State) (schedule : List Action)
      → run app_lrp_domain s schedule ≡ some t
      → Inv s
      → Inv t
  unfolding run
  run-Inv s t [] e v = subst Inv (some-injective _ _ e) v
  run-Inv s t (a ∷ rest) e v = elim (Option-cases (step app_lrp_domain s a)) [
    | inl stuck ↦ absurd (ground arith)
    | inr (u, f) ↦ run-Inv u t rest (ground arith) (step-Inv s u a f v)
  ]

  -- After any schedule from the start, exactly one goroutine or channel holds the watcher's next step,
  -- in one of the five ways of `Stage`, so each send finds its channel empty; a source is read only
  -- while it is the subscription, fewer than three failures are counted, and a panic means that there
  -- is no subscription.
  pub run-init-Inv :
      (t : State) (schedule : List Action) → run app_lrp_domain init schedule ≡ some t → Inv t
  run-init-Inv t schedule e = run-Inv init t schedule e init-Inv
