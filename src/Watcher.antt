-- ===== src/Watcher.antt =====
-- watcher/watcher.go: the loop that turns crash events of the BBS into reports to the Cloud
-- Controller. The goroutines and the channels are part of the state; an `Action` is one thing that
-- happens, in an order that the scheduler and the outside world choose.
pub mod Invariant
pub mod Progress
pub mod Delivery
pub mod Retry
pub mod Setup
pub mod Ends
pub mod Balance
mod Tests
use tps.Base.{
  ℕ, zero, suc, ◌+◌, ltb, ℤ, Str, bytes, str_eq, Bool, Option, none, some, List, [], ◌∷◌, ◌++◌,
  length, if◌then◌else◌,
}

-- models.ActualLRPCrashedEvent
pub record CrashedEvent : Type 0 where
  pub process_guid : Str
  pub index : ℤ
  pub domain : Str
  pub instance_guid : Str
  pub crash_count : ℤ
  pub crash_reason : Str
  pub since : ℤ

-- models.Event: a crash, or an event of another type.
pub data Event : Type 0 where
  crashed : CrashedEvent → Event
  unrelated : Event

-- The errors of `Next` that the watcher tells apart.
pub data NextError : Type 0 where
  source_closed unrecognized_event_type other_error : NextError

-- cc_messages.AppCrashedRequest
pub record AppCrashedRequest : Type 0 where
  pub instance_guid : Str
  pub index : ℤ
  pub reason : Str
  pub exit_description : Str
  pub crash_count : ℤ
  pub crash_timestamp : ℤ

-- What a job of the work pool hands to `AppCrashed`.
pub record Job : Type 0 where
  pub guid : Str
  pub app_crashed : AppCrashedRequest

pub data Phase : Type 0 where
  running stopped panicked : Phase

-- A source of events is named by a number. `subscribers` counts the running `subscribeToEvents`,
-- `readers` holds the source of every running `nextEvent`; the channels have room for one value.
-- `closed` holds the sources on which `Close` was called.
pub record State : Type 0 where
  pub phase : Phase
  pub subscription : Option ℕ
  pub next_err_count : ℕ
  pub subscribers : ℕ
  pub readers : List (Option ℕ)
  pub subscription_chan : List (Option ℕ)
  pub event_chan : List (Option Event)
  pub error_chan : List NextError
  pub submitted : List Job
  pub closed : List ℕ

-- The state in which `Run` enters its loop.
abbrev pub init : State
init = record {
  phase = running;
  subscription = none;
  next_err_count = 0;
  subscribers = 1;
  readers = [];
  subscription_chan = [];
  event_chan = [];
  error_chan = [];
  submitted = [];
  closed = [];
}

-- `go subscribeToEvents(…)`
abbrev pub go_subscribe : State → State
go_subscribe s = record s { subscribers = suc s.subscribers }

-- `go nextEvent(…, subscription, …)`
abbrev pub go_next : State → State
go_next s = record s { readers = s.readers ++ s.subscription ∷ [] }

abbrev pub crashed_reason : Str
crashed_reason = bytes "CRASHED"

unfoldable pub request_of : CrashedEvent → Job
request_of e = record {
  guid = e.process_guid;
  app_crashed = record {
    instance_guid = e.instance_guid;
    index = e.index;
    reason = crashed_reason;
    exit_description = e.crash_reason;
    crash_count = e.crash_count;
    crash_timestamp = e.since;
  };
}

-- `case subscription = <-subscriptionChan`
unfoldable pub on_subscription : State → Option ℕ → State
on_subscription s none = go_subscribe (record s { subscription = none })
on_subscription s (some source) = go_next (record s { subscription = some source })

-- `case err := <-errorChan`
unfoldable pub on_error : State → NextError → State
on_error s source_closed = go_subscribe s
on_error s unrecognized_event_type = go_next s
on_error s other_error = s

-- `case <-signals`: `Close` of the subscription, which panics if it is nil.
unfoldable pub on_signal : State → State
on_signal s = elim s.subscription [
  | none ↦ record s { phase = panicked }
  | some source ↦ record s { phase = stopped; closed = s.closed ++ source ∷ [] }
]

-- `subscribeToEvents`, from the call's return: nil stands for a failure. None is a blocked send.
unfoldable pub subscribe_to_events : State → Option ℕ → Option State
subscribe_to_events s source = elim s.subscribers [
  | zero ↦ none
  | suc n ↦ elim s.subscription_chan [
    | [] ↦ some (record s { subscribers = n; subscription_chan = source ∷ [] })
    | _ ∷ _ ↦ none
  ]
]

send_event : State → Option Event → Option State
send_event s event = elim s.event_chan [
  | [] ↦ some (record s { event_chan = event ∷ [] })
  | _ ∷ _ ↦ none
]

send_error : State → NextError → Option State
send_error s err = elim s.error_chan [
  | [] ↦ some (record s { error_chan = err ∷ [] })
  | _ ∷ _ ↦ none
]

-- The switch of `nextEvent` on what `Next` returned.
unfoldable pub send_next : State → Option Event → Option NextError → Option State
unfolding send_event send_error
send_next s event none = send_event s event
send_next s event (some source_closed) = send_error s source_closed
send_next s event (some unrecognized_event_type) = send_error s unrecognized_event_type
send_next s event (some other_error) = send_event s none

-- `nextEvent`, for the longest running one: reading from a nil source panics.
unfoldable pub next_event : State → Option Event → Option NextError → Option State
unfolding send_next
next_event s event err = elim s.readers [
  | [] ↦ none
  | none ∷ _ ↦ some (record s { phase = panicked })
  | some _ ∷ rs ↦ send_next (record s { readers = rs }) event err
]

unfoldable pub receive_subscription : State → Option State
unfolding on_subscription
receive_subscription s = elim s.subscription_chan [
  | [] ↦ none
  | source ∷ rest ↦ some (on_subscription (record s { subscription_chan = rest }) source)
]

unfoldable pub receive_error : State → Option State
unfolding on_error
receive_error s = elim s.error_chan [
  | [] ↦ none
  | err ∷ rest ↦ some (on_error (record s { error_chan = rest }) err)
]

-- What can happen: a call that a goroutine waits for returns, or the loop takes one of its cases.
pub data Action : Type 0 where
  subscribes : Option ℕ → Action
  nexts : Option Event → Option NextError → Action
  takes_subscription takes_event takes_error takes_signal : Action

module _ (app_lrp_domain : Str) where
  -- `handleEvent`: the jobs that it submits to the pool.
  unfoldable pub handle_event : Event → List Job
  unfolding request_of
  handle_event unrelated = []
  handle_event (crashed e) = if str_eq e.domain app_lrp_domain then request_of e ∷ [] else []

  -- `case event := <-eventChan`
  unfoldable pub on_event : State → Option Event → State
  unfolding handle_event
  on_event s (some event) = go_next (record s { submitted = s.submitted ++ handle_event event })
  on_event s none =
      let count = s.next_err_count + 1 in
      if ltb 2 count
      then go_subscribe (record s { next_err_count = 0 })
      else go_next (record s { next_err_count = count })

  unfoldable pub receive_event : State → Option State
  unfolding on_event
  receive_event s = elim s.event_chan [
    | [] ↦ none
    | event ∷ rest ↦ some (on_event (record s { event_chan = rest }) event)
  ]

  unfoldable pub act : State → Action → Option State
  unfolding on_signal subscribe_to_events next_event receive_subscription receive_event
      receive_error
  act s (subscribes source) = subscribe_to_events s source
  act s (nexts event err) = next_event s event err
  act s takes_subscription = receive_subscription s
  act s takes_event = receive_event s
  act s takes_error = receive_error s
  act s takes_signal = some (on_signal s)

  -- One step of the watcher; none if the action cannot happen in this state.
  unfoldable pub step : State → Action → Option State
  unfolding act
  step s a = elim s.phase [ running ↦ act s a | stopped ↦ none | panicked ↦ none ]

  -- A schedule, from a state.
  unfoldable pub run : State → List Action → Option State
  unfolding step
  run s [] = some s
  run s (a ∷ rest) = elim (step s a) [ none ↦ none | some t ↦ run t rest ]
