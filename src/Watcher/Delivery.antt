-- ===== src/Watcher/Delivery.antt =====
-- watcher/watcher.go: the jobs that reach the work pool, beside the crashes that the source reports.
use mathlib.Core.List.{append-nil, append_assoc, map-append}
use tps.Base.{
  ◌+◌, ltb, Str, str_eq, Option, none, some, List, [], ◌∷◌, ◌++◌, map, ◌≡◌, inl, inr, refl, sym,
  ◌∙◌, arith, Bool-cases, Option-cases, if◌then◌else◌,
}
use tps.Watcher.{
  State, Event, crashed, unrelated, CrashedEvent, source_closed, unrecognized_event_type,
  other_error, Action, subscribes, nexts, takes_subscription, takes_event, takes_error,
  takes_signal, init, request_of, handle_event, act, step, run,
}
use tps.Watcher.Invariant.{
  Stage, subscribing, answered, reading, delivering, failing, Inv, init-Inv, step-act, step-Inv,
}

module _ (app_lrp_domain : Str) where
  -- The crash of an application, if the event is one.
  pub app_crash : Option Event → List CrashedEvent
  app_crash none = []
  app_crash (some unrelated) = []
  app_crash (some (crashed e)) = if str_eq e.domain app_lrp_domain then e ∷ [] else []

  -- The crashes of applications that the source's `Next` returned without an error, in their order.
  unfoldable pub crashes : List Action → List CrashedEvent
  unfolding app_crash
  crashes [] = []
  crashes (nexts event none ∷ rest) = app_crash event ++ crashes rest
  crashes (nexts event (some err) ∷ rest) = crashes rest
  crashes (subscribes v ∷ rest) = crashes rest
  crashes (takes_subscription ∷ rest) = crashes rest
  crashes (takes_event ∷ rest) = crashes rest
  crashes (takes_error ∷ rest) = crashes rest
  crashes (takes_signal ∷ rest) = crashes rest

  -- The crash that waits in the channel.
  unfoldable pub waiting : List (Option Event) → List CrashedEvent
  waiting [] = []
  waiting (event ∷ rest) = app_crash event ++ waiting rest

  handle_event-app_crash :
      (e : Event) → handle_event app_lrp_domain e ≡ map request_of (app_crash (some e))
  unfolding handle_event app_crash
  handle_event-app_crash unrelated = refl
  handle_event-app_crash (crashed e) = ground arith

  -- What is submitted or waits, after one action.
  abbrev Delivers : State → Action → State → Type 0
  Delivers s a t =
      t.submitted ++ map request_of (waiting t.event_chan)
      ≡ (s.submitted ++ map request_of (waiting s.event_chan)) ++ map request_of (crashes (a ∷ []))

  quiet :
      (s t : State) (a : Action)
      → t.submitted ≡ s.submitted
      → waiting t.event_chan ≡ waiting s.event_chan
      → crashes (a ∷ []) ≡ []
      → Delivers s a t
  quiet s t a submitted same none_read = rw (submitted, same, none_read) (sym (append-nil _))

  act-Delivers :
      (s t : State) (a : Action) → Stage s → act app_lrp_domain s a ≡ some t → Delivers s a t
  unfolding act crashes waiting app_crash
  act-Delivers s t (nexts event none) (reading source q h) e =
      ground (arith, append-nil (app_crash event), append-nil s.submitted)
  act-Delivers s t (nexts event (some source_closed)) (reading source q h) e =
      quiet s t (nexts event (some source_closed)) (ground arith) (ground arith) refl
  act-Delivers s t (nexts event (some unrecognized_event_type)) (reading source q h) e =
      quiet s t (nexts event (some unrecognized_event_type)) (ground arith) (ground arith) refl
  act-Delivers s t (nexts event (some other_error)) (reading source q h) e =
      quiet s t (nexts event (some other_error)) (ground arith) (ground arith) refl
  act-Delivers s t (nexts event err) (subscribing h) e = absurd (ground arith)
  act-Delivers s t (nexts event err) (answered v h) e = absurd (ground arith)
  act-Delivers s t (nexts event err) (delivering source ev q h) e = absurd (ground arith)
  act-Delivers s t (nexts event err) (failing source er q n h) e = absurd (ground arith)
  act-Delivers s t takes_event (delivering source (some event) q h) e = ground (
    arith,
    handle_event-app_crash event,
    append-nil (app_crash (some event)),
    append-nil (s.submitted ++ map request_of (app_crash (some event))),
    append-nil (s.submitted ++ handle_event app_lrp_domain event),
  )
  act-Delivers s t takes_event (delivering source none q h) e =
      elim (Bool-cases (ltb 2 (s.next_err_count + 1))) [
        | inl third ↦ quiet s t takes_event (ground arith) (ground arith) refl
        | inr early ↦ quiet s t takes_event (ground arith) (ground arith) refl
      ]
  act-Delivers s t takes_event (subscribing h) e = absurd (ground arith)
  act-Delivers s t takes_event (answered v h) e = absurd (ground arith)
  act-Delivers s t takes_event (reading source q h) e = absurd (ground arith)
  act-Delivers s t takes_event (failing source er q n h) e = absurd (ground arith)
  act-Delivers s t (subscribes v) st e = quiet s t (subscribes v) (ground arith) (ground arith) refl
  act-Delivers s t takes_subscription st e =
      quiet s t takes_subscription (ground arith) (ground arith) refl
  act-Delivers s t takes_error st e = quiet s t takes_error (ground arith) (ground arith) refl
  act-Delivers s t takes_signal st e = quiet s t takes_signal (ground arith) (ground arith) refl

  crashes-cons :
      (a : Action) (rest : List Action) → crashes (a ∷ rest) ≡ crashes (a ∷ []) ++ crashes rest
  unfolding crashes
  crashes-cons (nexts event none) rest = rw (append-nil (app_crash event))
  crashes-cons (nexts event (some err)) rest = refl
  crashes-cons (subscribes v) rest = refl
  crashes-cons takes_subscription rest = refl
  crashes-cons takes_event rest = refl
  crashes-cons takes_error rest = refl
  crashes-cons takes_signal rest = refl

  run-Delivers :
      (s t : State) (schedule : List Action)
      → run app_lrp_domain s schedule ≡ some t
      → Inv s
      → t.submitted ++ map request_of (waiting t.event_chan)
        ≡ (s.submitted ++ map request_of (waiting s.event_chan))
          ++ map request_of (crashes schedule)
  unfolding run crashes
  run-Delivers s t [] e v =
      ground (arith, append-nil (s.submitted ++ map request_of (waiting s.event_chan)))
  run-Delivers s t (a ∷ rest) e v = elim (Option-cases (step app_lrp_domain s a)) [
    | inl stuck ↦ absurd (ground arith)
    | inr (u, f) ↦
        let first = act-Delivers s u a v.stage (step-act app_lrp_domain s u a f).1 in
        let others = run-Delivers u t rest (ground arith) (step-Inv app_lrp_domain s u a f v) in
        others ∙ rw (first, crashes-cons a rest, map-append, append_assoc)
  ]

  -- Of the application crashes that the source has reported, in their order, all are submitted as
  -- requests to the Cloud Controller but the one that may still wait in the event channel; nothing
  -- else is submitted, and nothing twice.
  pub run-init-Delivers :
      (t : State) (schedule : List Action)
      → run app_lrp_domain init schedule ≡ some t
      → t.submitted ++ map request_of (waiting t.event_chan) ≡ map request_of (crashes schedule)
  unfolding waiting
  run-init-Delivers t schedule e = run-Delivers init t schedule e init-Inv
