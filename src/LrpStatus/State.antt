-- ===== src/LrpStatus/State.antt =====
-- What `get_application_container_state` reads off the containers.
use tps.Base.{str_eq_iff, List, [], ◌∷◌, ◌≡◌, ◌≢◌, ◌↔◌, refl, arith, All}
use tps.Pod.{ContainerStatus}
use tps.Api.{InstanceStates, AreNonempty, CrashedIsApart}
use tps.LrpStatus.{application, container_state, get_application_container_state}

-- No container is called "application".
abbrev pub NoApplication : List ContainerStatus → Type 0
NoApplication = All (λ c. c.name ≢ application)

container_state_ne :
    (states : InstanceStates) (c : ContainerStatus)
    → AreNonempty states
    → container_state states c ≢ []
unfolding container_state
container_state_ne states c h = ground (arith, h.starting_ne, h.running_ne, h.down_ne, h.unknown_ne)

pub container_state_ne_crashed :
    (states : InstanceStates) (c : ContainerStatus)
    → CrashedIsApart states
    → container_state states c ≢ states.crashed
unfolding container_state
container_state_ne_crashed states c h =
    ground (arith, h.ne_starting, h.ne_running, h.ne_down, h.ne_unknown)

-- A pod has the empty state, and is left out of every answer, exactly if none of its containers is
-- called "application", where no state name is empty.
get_application_container_state-eq-nil_iff :
    (states : InstanceStates) (cs : List ContainerStatus)
    → AreNonempty states
    → (get_application_container_state states cs ≡ []) ↔ NoApplication cs
unfolding get_application_container_state
get_application_container_state-eq-nil_iff states [] h = (λ _. tt, λ _. refl)
get_application_container_state-eq-nil_iff states (c ∷ cs) h = ground (
  arith,
  str_eq_iff c.name application,
  container_state_ne states c h,
  get_application_container_state-eq-nil_iff states cs h,
)

-- No pod is ever reported as crashed, if the name of that state is not the empty string or the name
-- of another state.
pub get_application_container_state-ne-crashed :
    (states : InstanceStates) (cs : List ContainerStatus)
    → AreNonempty states
    → CrashedIsApart states
    → get_application_container_state states cs ≢ states.crashed
unfolding get_application_container_state
get_application_container_state-ne-crashed states [] h k = ground (arith, h.crashed_ne)
get_application_container_state-ne-crashed states (c ∷ cs) h k = ground (
  arith,
  container_state_ne_crashed states c k,
  get_application_container_state-ne-crashed states cs h k,
)
