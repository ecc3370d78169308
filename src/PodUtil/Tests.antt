-- ===== src/PodUtil/Tests.antt =====
-- Runs of `sort_pods`, and its theorems at concrete pods.
use tps.Base.{◌*◌, bytes, str_eq, str_leb, [], ◌∷◌, Perm, ◌≡◌, refl, length}
use tps.Sample.{pod_a, pod_b, sidecar, pods}
use tps.PodUtil.{matching, sort_pods}
use tps.PodUtil.Sorted.{IsSorted, sort_pods-IsSorted}
use tps.PodUtil.Rearranges.{sort_pods-perm}
use tps.PodUtil.Counts.{length-matching-sort_pods}

sort_sample : sort_pods pods ≡ pod_a ∷ sidecar ∷ pod_b ∷ []
unfolding sort_pods str_eq str_leb
sort_sample = refl

sort_twins : sort_pods (pod_a ∷ pod_a ∷ []) ≡ pod_a ∷ pod_a ∷ pod_a ∷ pod_a ∷ []
unfolding sort_pods str_eq str_leb
sort_twins = refl

sort_pods-IsSorted_example : IsSorted (sort_pods pods)
sort_pods-IsSorted_example = sort_pods-IsSorted pods

sort_pods-perm_example : Perm (sort_pods pods) pods
unfolding str_eq
sort_pods-perm_example = sort_pods-perm pods ((refl, (refl, tt)), ((refl, tt), (tt, tt)))

length-matching-sort_pods_example :
    length (matching (bytes "a") (sort_pods (pod_a ∷ pod_a ∷ [])))
    ≡ length (matching (bytes "a") (pod_a ∷ pod_a ∷ []))
      * length (matching (bytes "a") (pod_a ∷ pod_a ∷ []))
length-matching-sort_pods_example = length-matching-sort_pods (bytes "a") (pod_a ∷ pod_a ∷ [])
