-- ===== src/CcConv/Tests.antt =====
-- The states at concrete constants.
use tps.Base.{bytes, str_eq, str_ne_of, refl}
use tps.Sample.{states}
use tps.CcConv.{
  ActualLrpStates, ActualStatesDiffer, InstanceStatesDiffer, state_for, StateMeans,
  state_for-StateMeans,
}

abbrev actual : ActualLrpStates
actual = record {
  unclaimed = bytes "UNCLAIMED";
  claimed = bytes "CLAIMED";
  running = bytes "RUNNING";
  crashed = bytes "CRASHED";
}

actual-Differ : ActualStatesDiffer actual
unfolding str_eq
actual-Differ = record {
  unclaimed_claimed = str_ne_of _ _ refl;
  unclaimed_running = str_ne_of _ _ refl;
  unclaimed_crashed = str_ne_of _ _ refl;
  claimed_running = str_ne_of _ _ refl;
  claimed_crashed = str_ne_of _ _ refl;
  running_crashed = str_ne_of _ _ refl;
}

states-Differ : InstanceStatesDiffer states
unfolding str_eq
states-Differ = record {
  starting_running = str_ne_of _ _ refl;
  starting_crashed = str_ne_of _ _ refl;
  starting_down = str_ne_of _ _ refl;
  starting_unknown = str_ne_of _ _ refl;
  running_crashed = str_ne_of _ _ refl;
  running_down = str_ne_of _ _ refl;
  running_unknown = str_ne_of _ _ refl;
  crashed_down = str_ne_of _ _ refl;
  crashed_unknown = str_ne_of _ _ refl;
  down_unknown = str_ne_of _ _ refl;
}

state_for-StateMeans_example :
    StateMeans actual states
      (bytes "UNCLAIMED")
      (bytes "no room")
      (state_for actual states (bytes "UNCLAIMED") (bytes "no room"))
state_for-StateMeans_example =
    state_for-StateMeans actual states (bytes "UNCLAIMED") (bytes "no room") actual-Differ
      states-Differ
