-- ===== src/LrpStatus/Order.antt =====
-- Which instances `lrp_instances` returns, in which order, and what their numbers mean.
use tps.Base.{
  str_leb, ℕ, suc, ◌+◌, ◌*◌, ◌/◌, ◌≤◌, ◌<◌, ℤ, pos, pos_part, neg_part, int64_half, sub64_exact,
  quot64, Str, true, List, [], ◌∷◌, map, ◌≡◌, arith, All, if◌then◌else◌,
}
use tps.Pod.{Pod, LrpInstance}
use tps.Api.{Env}
use tps.LrpStatus.{instance_of, nanos_per_second}
use tps.LrpStatus.Fill.{is_hidden}

-- Each instance has a smaller index than all behind it.
abbrev pub Increasing : List LrpInstance → Type 0
Increasing [] = Unit {0}
Increasing (x ∷ xs) = All (λ y. x.index < y.index) xs × Increasing xs

abbrev pub Within : ℕ → ℕ → List LrpInstance → Type 0
Within lo hi = All (λ x. (lo ≤ x.index) × (x.index < hi))

-- Each instance has a UID that is no larger, byte by byte, than those behind it.
abbrev pub Ascending : List LrpInstance → Type 0
Ascending [] = Unit {0}
Ascending (x ∷ xs) = All (λ y. str_leb x.instance_guid y.instance_guid ≡ true) xs × Ascending xs

module _ {Guid : Type 0} (env : Env Guid) where
  -- The UIDs of the pods that have an application container.
  pub shown_uids : List Pod → List Str
  shown_uids [] = []
  shown_uids (pod ∷ pods) = if is_hidden env pod then shown_uids pods else pod.uid ∷ shown_uids pods

  -- An answer's instances: one for each shown pod, in this order, with rising indices in the range.
  pub record IsAnswer (pods : List Pod) (lo hi : ℕ) (xs : List LrpInstance) : Type 0 where
    pub uids : map (λ x. x.instance_guid) xs ≡ shown_uids pods
    pub increasing : Increasing xs
    pub within : Within lo hi xs

  -- The uptime of an instance is the time since its start in whole seconds, rounded down, and never
  -- wraps: for a clock reading `d` nanoseconds after the start, `d` below 2^63.
  pub instance_of-uptime :
      (pod : Pod) (i d : ℕ) (start now : ℤ)
      → d < int64_half
      → pos_part now + neg_part start ≡ d + (neg_part now + pos_part start)
      → (u : ℕ) × ((instance_of env pod i start now).uptime ≡ pos u)
        × (u * nanos_per_second ≤ d)
        × (d < suc u * nanos_per_second)
  unfolding instance_of quot64
  instance_of-uptime pod i d start now small later =
      (d / nanos_per_second, rw (sub64_exact now start d small later), omega arith, omega arith)
