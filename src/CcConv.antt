-- ===== src/CcConv.antt =====
-- handler/cc_conv/cc_conv.go: the state of an LRP instance, from the state of the actual LRP in the
-- BBS and its placement error.
mod Tests
use tps.Base.{
  Str, str_eq, str_eq_iff, Bool, List, [], ◌≡◌, ◌≢◌, ◌↔◌, ◌⊎◌, inl, inr, arith, if◌then◌else◌,
}
use tps.Api.{InstanceStates}

-- models.ActualLRPState…, of the BBS.
pub record ActualLrpStates : Type 0 where
  pub unclaimed : Str
  pub claimed : Str
  pub running : Str
  pub crashed : Str

-- A Go switch has no two equal constants.
pub record ActualStatesDiffer (a : ActualLrpStates) : Type 0 where
  pub unclaimed_claimed : a.unclaimed ≢ a.claimed
  pub unclaimed_running : a.unclaimed ≢ a.running
  pub unclaimed_crashed : a.unclaimed ≢ a.crashed
  pub claimed_running : a.claimed ≢ a.running
  pub claimed_crashed : a.claimed ≢ a.crashed
  pub running_crashed : a.running ≢ a.crashed

-- No two instance states are one string.
pub record InstanceStatesDiffer (s : InstanceStates) : Type 0 where
  pub starting_running : s.starting ≢ s.running
  pub starting_crashed : s.starting ≢ s.crashed
  pub starting_down : s.starting ≢ s.down
  pub starting_unknown : s.starting ≢ s.unknown
  pub running_crashed : s.running ≢ s.crashed
  pub running_down : s.running ≢ s.down
  pub running_unknown : s.running ≢ s.unknown
  pub crashed_down : s.crashed ≢ s.down
  pub crashed_unknown : s.crashed ≢ s.unknown
  pub down_unknown : s.down ≢ s.unknown

-- `StateFor`
unfoldable pub state_for : ActualLrpStates → InstanceStates → Str → Str → Str
state_for actual states state placement_error =
    if str_eq state actual.unclaimed
    then (if str_eq placement_error [] then states.starting else states.down)
    else if str_eq state actual.claimed
    then states.starting
    else if str_eq state actual.running
    then states.running
    else if str_eq state actual.crashed
    then states.crashed
    else states.unknown

-- The inputs for which each state is reported.
pub record StateMeans (actual : ActualLrpStates) (states : InstanceStates)
    (state placement_error result : Str) : Type 0 where
  pub is_starting :
      (result ≡ states.starting)
      ↔ ((state ≡ actual.claimed) ⊎ ((state ≡ actual.unclaimed) × (placement_error ≡ [])))
  pub is_down : (result ≡ states.down) ↔ ((state ≡ actual.unclaimed) × (placement_error ≢ []))
  pub is_running : (result ≡ states.running) ↔ (state ≡ actual.running)
  pub is_crashed : (result ≡ states.crashed) ↔ (state ≡ actual.crashed)
  pub is_unknown : (result ≡ states.unknown) ↔ (
      (state ≢ actual.unclaimed)
      × (state ≢ actual.claimed)
      × (state ≢ actual.running)
      × (state ≢ actual.crashed))

-- Each instance state is reported for exactly its inputs: "starting" for a claimed LRP and for an
-- unclaimed one without a placement error, "down" for an unclaimed one with an error, "running" and
-- "crashed" for their own, and "unknown" for every other string. The constants differ.
pub state_for-StateMeans :
    (actual : ActualLrpStates) (states : InstanceStates) (state placement_error : Str)
    → ActualStatesDiffer actual
    → InstanceStatesDiffer states
    → StateMeans actual states state placement_error (state_for actual states state placement_error)
unfolding state_for
state_for-StateMeans actual states state placement_error a s =
    let is_unclaimed = str_eq_iff state actual.unclaimed in
    let is_claimed = str_eq_iff state actual.claimed in
    let runs = str_eq_iff state actual.running in
    let has_crashed = str_eq_iff state actual.crashed in
    let no_error = str_eq_iff placement_error [] in
    record {
      is_starting = ground arith;
      is_down = ground arith;
      is_running = ground arith;
      is_crashed = ground arith;
      is_unknown = ground arith;
    }
