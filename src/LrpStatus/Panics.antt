-- ===== src/LrpStatus/Panics.antt =====
-- handler/lrpstatus/lrpstatus.go: the panics of `LRPInstances`.
use tps.Base.{
  ℕ, suc, ◌+◌, ◌≤◌, ◌<◌, false, none, List, [], ◌∷◌, ◌≡◌, ◌⊎◌, ◌↔◌, inl, inr, arith, panics, length,
  length-set, length-replicate, set, replicate, All, Bool-cases, Option-cases,
}
use tps.Pod.{Pod, LrpInstance, zero_instance}
use tps.PodUtil.{sort_pods}
use tps.PodUtil.Rearranges.{Distinct}
use tps.PodUtil.Members.{Any, sort_pods-All, sort_pods-Any}
use tps.PodUtil.Repeats.{Repeats, length-sort_pods-Repeats}
use tps.Api.{Env}
use tps.LrpStatus.{instance_of, store, fill, lrp_instances}
use tps.LrpStatus.Fill.{is_hidden, IsStarted, lrp_instances-eq-report}

module _ {Guid : Type 0} (env : Env Guid) where
  -- A pod that has an application container and no start time.
  abbrev pub IsUnstarted : Pod → Type 0
  IsUnstarted pod = (is_hidden env pod ≡ false) × (pod.start_time ≡ none)

  fill-panics :
      (pods : List Pod) (i j : ℕ) (array : List LrpInstance)
      → Any IsUnstarted pods
      → fill env pods i j array ≡ panics
  unfolding fill store
  fill-panics [] i j array h = absurd h
  fill-panics (pod ∷ pods) i j array (inl h) = ground arith
  fill-panics (pod ∷ pods) i j array (inr h) = elim (Option-cases pod.start_time) [
    | inl missing ↦ ground (arith, fill-panics pods (suc i) j array h)
    | inr (start, e) ↦ ground (
      arith,
      fill-panics pods (suc i) j array h,
      fill-panics pods (suc i) (suc j) (set array j (instance_of env pod i start (env.clock j))) h,
    )
  ]

  pub IsStarted-or_not : (pods : List Pod) → All (IsStarted env) pods ⊎ Any IsUnstarted pods
  IsStarted-or_not [] = inl tt
  IsStarted-or_not (pod ∷ pods) = elim (IsStarted-or_not pods) [
    | inr h ↦ inr (inr h)
    | inl h ↦ elim (Bool-cases (is_hidden env pod)) [
      | inl hidden ↦ inl ((λ shown. cc), h)
      | inr shown ↦ elim (Option-cases pod.start_time) [
        | inl missing ↦ inr (inl (shown, missing))
        | inr (start, e) ↦ inl ((λ _ missing. cc), h)
      ]
    ]
  ]

  -- A pod with an application container and no start time makes `LRPInstances` panic, whatever the
  -- other pods are.
  pub lrp_instances-panics :
      (pods : List Pod) → Any IsUnstarted pods → lrp_instances env pods ≡ panics
  unfolding lrp_instances
  lrp_instances-panics pods h = rw (
      fill-panics (sort_pods pods) 0 0 (replicate (length pods) zero_instance)
        (sort_pods-Any IsUnstarted pods h))

  -- On pods whose UIDs differ, `LRPInstances` panics exactly if one of them has an application
  -- container and no start time.
  pub lrp_instances-panics_iff :
      (pods : List Pod) → Distinct pods → (lrp_instances env pods ≡ panics) ↔ Any IsUnstarted pods
  lrp_instances-panics_iff pods distinct = (only, lrp_instances-panics pods)
    where
      only : lrp_instances env pods ≡ panics → Any IsUnstarted pods
      only e = elim (IsStarted-or_not pods) [
        | inr h ↦ h
        | inl h ↦ absurd (cc (lrp_instances-eq-report env pods distinct h))
      ]

  -- Every pod has an application container.
  abbrev pub AllShown : List Pod → Type 0
  AllShown = All (λ pod. is_hidden env pod ≡ false)

  fill_overflow :
      (pods : List Pod) (i j : ℕ) (array : List LrpInstance)
      → AllShown pods
      → length array < j + length pods
      → j ≤ length array
      → fill env pods i j array ≡ panics
  unfolding fill store
  fill_overflow [] i j array h lt le = absurd (omega arith)
  fill_overflow (pod ∷ pods) i j array h lt le = elim (Option-cases pod.start_time) [
    | inl missing ↦ ground arith
    | inr (start, e) ↦ ground (
      arith,
      fill_overflow pods (suc i) (suc j) (set array j (instance_of env pod i start (env.clock j)))
          h.1,
      length-set array j (instance_of env pod i start (env.clock j)),
    )
  ]

  -- Where two pods share a UID and every pod has an application container, `LRPInstances` panics: it
  -- makes an array for the pods that it was given, and the sorted list is longer.
  pub lrp_instances-panics_of_Repeats :
      (pods : List Pod) → Repeats pods → AllShown pods → lrp_instances env pods ≡ panics
  unfolding lrp_instances
  lrp_instances-panics_of_Repeats pods twins shown =
      let room = replicate (length pods) zero_instance in
      rw (
        fill_overflow (sort_pods pods) 0 0 room (sort_pods-All _ pods shown)
          (omega (
            arith,
            length-sort_pods-Repeats pods twins,
            length-replicate (length pods) zero_instance,
          ))
          (omega arith))
