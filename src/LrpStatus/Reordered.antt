-- ===== src/LrpStatus/Reordered.antt =====
-- handler/lrpstatus/lrpstatus.go: `LRPInstances` on one set of pods that is listed in different orders.
use mathlib.Core.List.{Permᴰ}
use tps.Base.{ℕ, List, Option, Result, ok, ◌>>=◌, length, replicate, length-permᴰ, ◌≡◌, ap, ◌∙◌}
use tps.Pod.{Pod, LrpInstance, zero_instance}
use tps.PodUtil.{sort_pods}
use tps.PodUtil.Rearranges.{Distinct}
use tps.PodUtil.Reordered.{sort_pods-permᴰ}
use tps.Api.{Env}
use tps.LrpStatus.{first_of_array, fill, lrp_instances}

module _ {Guid : Type 0} (env : Env Guid) where
  -- The answer of `LRPInstances`, its indices and its panics included, does not depend on the order in
  -- which Kubernetes lists the pods, if their UIDs differ.
  pub lrp_instances-permᴰ :
      {xs ys : List Pod} → Permᴰ xs ys → Distinct xs → lrp_instances env xs ≡ lrp_instances env ys
  unfolding lrp_instances
  lrp_instances-permᴰ {xs} {ys} p h =
      let answer : List Pod → ℕ → Result (Option (List LrpInstance)) = λ sorted n.
        fill env sorted 0 0 (replicate n zero_instance) >>= λ filled. ok (first_of_array filled) in
      ap (λ sorted. answer sorted (length xs)) (sort_pods-permᴰ p h)
      ∙ ap (answer (sort_pods ys)) (length-permᴰ p)
