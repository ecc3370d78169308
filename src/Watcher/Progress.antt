-- ===== src/Watcher/Progress.antt =====
-- watcher/watcher.go: what can happen next in the loop of `Run`.
use tps.Base.{ℕ, Str, Option, none, some, List, [], ◌∷◌, ◌≡◌, ◌≢◌, arith}
use tps.Watcher.{
  State, running, Event, NextError, source_closed, unrecognized_event_type, other_error, Action,
  subscribes, nexts, takes_subscription, takes_event, takes_error, takes_signal, init, step, run,
}
use tps.Watcher.Invariant.{
  Holds, Stage, subscribing, answered, reading, delivering, failing, run-init-Inv,
}

module _ (app_lrp_domain : Str) where
  -- The loop or a goroutine can go on: it does not need a signal.
  abbrev pub CanGo : State → Type 0
  CanGo s = (a : Action) × (a ≢ takes_signal) × (step app_lrp_domain s a ≢ none)

  -- Whatever its call returns, a running subscription or read can send it.
  pub record NeverBlocks (s : State) : Type 0 where
    pub sends_subscription :
        (source : Option ℕ) → s.subscribers ≢ 0 → step app_lrp_domain s (subscribes source) ≢ none
    pub sends_next :
        (event : Option Event) (err : Option NextError)
        → s.readers ≢ []
        → step app_lrp_domain s (nexts event err) ≢ none

  Stage-CanGo : (s : State) → s.phase ≡ running → Stage s → CanGo s
  unfolding step
  Stage-CanGo s r (subscribing h) = (subscribes none, (λ e. cc), λ e. ground arith)
  Stage-CanGo s r (answered v h) = (takes_subscription, (λ e. cc), λ e. ground arith)
  Stage-CanGo s r (reading source q h) = (nexts none none, (λ e. cc), λ e. ground arith)
  Stage-CanGo s r (delivering source event q h) = (takes_event, (λ e. cc), λ e. ground arith)
  Stage-CanGo s r (failing source err q n h) = (takes_error, (λ e. cc), λ e. ground arith)

  reading_sends :
      (s : State) (source : ℕ) (event : Option Event) (err : Option NextError)
      → s.phase ≡ running
      → Holds s 0 (some source ∷ []) [] [] []
      → step app_lrp_domain s (nexts event err) ≢ none
  unfolding step
  reading_sends s source event none r h = λ e. ground arith
  reading_sends s source event (some source_closed) r h = λ e. ground arith
  reading_sends s source event (some unrecognized_event_type) r h = λ e. ground arith
  reading_sends s source event (some other_error) r h = λ e. ground arith

  Stage-NeverBlocks : (s : State) → s.phase ≡ running → Stage s → NeverBlocks s
  unfolding step
  Stage-NeverBlocks s r (subscribing h) = record {
    sends_subscription = λ source n e. ground arith;
    sends_next = λ event err n. absurd (n h.1);
  }
  Stage-NeverBlocks s r (answered v h) = record {
    sends_subscription = λ source n. absurd (n h.0);
    sends_next = λ event err n. absurd (n h.1);
  }
  Stage-NeverBlocks s r (reading source q h) = record {
    sends_subscription = λ v n. absurd (n h.0);
    sends_next = λ event err n. reading_sends s source event err r h;
  }
  Stage-NeverBlocks s r (delivering source event q h) = record {
    sends_subscription = λ v n. absurd (n h.0);
    sends_next = λ ev err n. absurd (n h.1);
  }
  Stage-NeverBlocks s r (failing source err q k h) = record {
    sends_subscription = λ v n. absurd (n h.0);
    sends_next = λ ev er n. absurd (n h.1);
  }

  -- While the watcher runs it neither deadlocks nor runs dry: in every state that a schedule reaches
  -- some action other than a signal can happen, and whatever a subscription or a read returns, its
  -- send does not block.
  pub run-init-goes_on :
      (t : State) (schedule : List Action)
      → run app_lrp_domain init schedule ≡ some t
      → t.phase ≡ running
      → CanGo t × NeverBlocks t
  run-init-goes_on t schedule e r =
      let v = run-init-Inv app_lrp_domain t schedule e in
      (Stage-CanGo t r v.stage, Stage-NeverBlocks t r v.stage)
