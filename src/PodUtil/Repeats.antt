-- ===== src/PodUtil/Repeats.antt =====
-- helpers/pod_util.go: how many pods `SortPods` returns where a UID repeats.
use tps.Base.{
  ℕ, ◌≤◌, ◌<◌, str_eq, str_eq_refl, true, List, [], ◌∷◌, map, ◌≡◌, ◌⊎◌, inl, inr, arith, length,
  length-append, length-perm, All, All-impl,
}
use tps.Pod.{Pod}
use tps.PodUtil.{sort_strings, uid_of, matching, collect, sort_pods}
use tps.PodUtil.Rearranges.{sort_strings-perm, collect-perm}
use tps.PodUtil.Members.{Any}

-- Two pods of the list share a UID.
abbrev pub Repeats : List Pod → Type 0
Repeats [] = ⊥
Repeats (pod ∷ pods) = Any (λ q. str_eq q.uid pod.uid ≡ true) pods ⊎ Repeats pods

-- The pod's UID matches at least `n` pods of the list.
abbrev Matches : ℕ → List Pod → Pod → Type 0
Matches n pods q = n ≤ length (matching q.uid pods)

Matches-cons :
    (n : ℕ) (pod : Pod) (pods : List Pod) (q : Pod) → Matches n pods q → Matches n (pod ∷ pods) q
unfolding matching
Matches-cons n pod pods q h = ground arith

Matches-self : (pods : List Pod) → All (Matches 1 pods) pods
unfolding matching
Matches-self [] = tt
Matches-self (pod ∷ pods) = (
  ground (arith, str_eq_refl pod.uid),
  All-impl _ _ pods (λ q. Matches-cons 1 pod pods q) (Matches-self pods),
)

Matches-twin :
    (pod : Pod) (pods : List Pod) → Any (λ q. str_eq q.uid pod.uid ≡ true) pods → Matches 1 pods pod
unfolding matching
Matches-twin pod [] h = absurd h
Matches-twin pod (q ∷ pods) (inl e) = ground arith
Matches-twin pod (q ∷ pods) (inr h) = ground (arith, Matches-twin pod pods h)

Any-Matches-cons :
    (pod : Pod) (pods qs : List Pod) → Any (Matches 2 pods) qs → Any (Matches 2 (pod ∷ pods)) qs
Any-Matches-cons pod pods [] h = h
Any-Matches-cons pod pods (q ∷ qs) (inl h) = inl (Matches-cons 2 pod pods q h)
Any-Matches-cons pod pods (q ∷ qs) (inr h) = inr (Any-Matches-cons pod pods qs h)

Repeats-Matches : (pods : List Pod) → Repeats pods → Any (Matches 2 pods) pods
unfolding matching
Repeats-Matches [] h = h
Repeats-Matches (pod ∷ pods) (inl h) =
    inl (ground (arith, str_eq_refl pod.uid, Matches-twin pod pods h))
Repeats-Matches (pod ∷ pods) (inr h) = inr (Any-Matches-cons pod pods pods (Repeats-Matches pods h))

length-collect-ge :
    (pods qs : List Pod)
    → All (Matches 1 pods) qs
    → length qs ≤ length (collect (map uid_of qs) pods)
unfolding collect
length-collect-ge pods [] h = omega arith
length-collect-ge pods (q ∷ qs) h = omega (
  arith,
  length-collect-ge pods qs h.1,
  length-append (matching q.uid pods) (collect (map uid_of qs) pods),
)

length-collect-gt :
    (pods qs : List Pod)
    → All (Matches 1 pods) qs
    → Any (Matches 2 pods) qs
    → length qs < length (collect (map uid_of qs) pods)
unfolding collect
length-collect-gt pods [] h k = absurd k
length-collect-gt pods (q ∷ qs) h (inl k) = omega (
  arith,
  length-collect-ge pods qs h.1,
  length-append (matching q.uid pods) (collect (map uid_of qs) pods),
)
length-collect-gt pods (q ∷ qs) h (inr k) = omega (
  arith,
  length-collect-gt pods qs h.1 k,
  length-append (matching q.uid pods) (collect (map uid_of qs) pods),
)

-- Where two pods share a UID, `SortPods` returns more pods than it was given.
pub length-sort_pods-Repeats :
    (pods : List Pod) → Repeats pods → length pods < length (sort_pods pods)
unfolding sort_pods
length-sort_pods-Repeats pods h = omega (
  arith,
  length-collect-gt pods pods (Matches-self pods) (Repeats-Matches pods h),
  length-perm (collect (sort_strings (map uid_of pods)) pods) (collect (map uid_of pods) pods)
      (collect-perm pods (sort_strings-perm (map uid_of pods))),
)
