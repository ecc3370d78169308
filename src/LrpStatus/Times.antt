-- ===== src/LrpStatus/Times.antt =====
-- handler/lrpstatus/lrpstatus.go: the times of an instance that has not started by the clock.
use tps.Base.{
  ℕ, suc, ◌+◌, ◌*◌, ◌/◌, ◌≤◌, ◌<◌, ℤ, pos, pos_part, neg_part, sub_ℕ, sub64_behind, quot64,
  int64_half, ◌≡◌, refl, arith,
}
use tps.Pod.{Pod}
use tps.Api.{Env}
use tps.LrpStatus.{instance_of, nanos_per_second}

-- The seconds of a time before zero, truncated towards it.
quot64_behind :
    (d : ℕ)
    → (pos_part (quot64 (sub_ℕ 0 d) nanos_per_second) ≡ 0)
      × (neg_part (quot64 (sub_ℕ 0 d) nanos_per_second) ≡ d / nanos_per_second)
unfolding quot64
quot64_behind d = (ground arith, ground arith)

module _ {Guid : Type 0} (env : Env Guid) where
  -- For a pod that starts `n` nanoseconds after the epoch, and a clock that still reads `d`
  -- nanoseconds before that, `d` at most 2^63, the instance is since the whole seconds of `n`, rounded
  -- down, and its uptime is minus the whole seconds of `d`, rounded down.
  pub instance_of-behind :
      (pod : Pod) (i n d : ℕ) (now : ℤ)
      → d ≤ int64_half
      → neg_part now + n ≡ d + pos_part now
      → (s : ℕ) × (u : ℕ) × ((instance_of env pod i (pos n) now).since ≡ pos s)
        × (s * nanos_per_second ≤ n)
        × (n < suc s * nanos_per_second)
        × (pos_part (instance_of env pod i (pos n) now).uptime ≡ 0)
        × (neg_part (instance_of env pod i (pos n) now).uptime ≡ u)
        × (u * nanos_per_second ≤ d)
        × (d < suc u * nanos_per_second)
  unfolding instance_of quot64
  instance_of-behind pod i n d now small later =
      let exact = sub64_behind now (pos n) d small (omega (arith, later)) in
      let (none_before, seconds) = quot64_behind d in
      (
        n / nanos_per_second,
        d / nanos_per_second,
        refl,
        omega arith,
        omega arith,
        rw exact none_before,
        rw exact seconds,
        omega arith,
        omega arith,
      )
