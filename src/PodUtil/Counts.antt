-- ===== src/PodUtil/Counts.antt =====
-- helpers/pod_util.go: how often `SortPods` returns the pods of one UID.
use tps.Base.{
  ℕ, ◌+◌, ◌*◌, Str, str_eq, str_eq_iff, List, [], ◌∷◌, ◌++◌, map, ◌≡◌, refl, ap, ◌∙◌, arith, length,
  length-append, if◌then◌else◌,
}
use tps.Pod.{Pod}
use tps.PodUtil.{insert_string, sort_strings, uid_of, matching, collect, sort_pods}

count_string : Str → List Str → ℕ
count_string s [] = 0
count_string s (t ∷ ts) = (if str_eq t s then 1 else 0) + count_string s ts

count_string-insert_string :
    (s t : Str) (ts : List Str)
    → count_string s (insert_string t ts) ≡ (if str_eq t s then 1 else 0) + count_string s ts
unfolding insert_string count_string
count_string-insert_string s t [] = refl
count_string-insert_string s t (u ∷ us) = ground (arith, count_string-insert_string s t us)

count_string-sort_strings :
    (s : Str) (ts : List Str) → count_string s (sort_strings ts) ≡ count_string s ts
unfolding sort_strings count_string
count_string-sort_strings s [] = refl
count_string-sort_strings s (t ∷ ts) =
    count_string-insert_string s t (sort_strings ts)
    ∙ ap (◌+◌ (if str_eq t s then 1 else 0)) (count_string-sort_strings s ts)

count_string-map :
    (s : Str) (pods : List Pod) → count_string s (map uid_of pods) ≡ length (matching s pods)
unfolding count_string matching
count_string-map s [] = refl
count_string-map s (pod ∷ pods) = ground (arith, count_string-map s pods)

matching-append :
    (s : Str) (xs ys : List Pod) → matching s (xs ++ ys) ≡ matching s xs ++ matching s ys
unfolding matching
matching-append s [] ys = refl
matching-append s (x ∷ xs) ys = ground (arith, matching-append s xs ys)

matching-matching :
    (s u : Str) (pods : List Pod)
    → matching s (matching u pods) ≡ (if str_eq u s then matching u pods else [])
unfolding matching
matching-matching s u [] = ground arith
matching-matching s u (pod ∷ pods) =
    ground (
      arith,
      matching-matching s u pods,
      str_eq_iff pod.uid u,
      str_eq_iff u s,
      str_eq_iff pod.uid s,
    )

length-matching-collect :
    (s : Str) (us : List Str) (pods : List Pod)
    → length (matching s (collect us pods)) ≡ count_string s us * length (matching s pods)
unfolding collect count_string
length-matching-collect s [] pods = unfold matching in omega arith
length-matching-collect s (u ∷ us) pods = ground (
  arith,
  matching-append s (matching u pods) (collect us pods),
  length-append (matching s (matching u pods)) (matching s (collect us pods)),
  matching-matching s u pods,
  length-matching-collect s us pods,
  str_eq_iff u s,
)

-- Of a UID that k pods share, `SortPods` returns k * k pods.
pub length-matching-sort_pods :
    (uid : Str) (pods : List Pod)
    → length (matching uid (sort_pods pods))
      ≡ length (matching uid pods) * length (matching uid pods)
unfolding sort_pods
length-matching-sort_pods uid pods =
    length-matching-collect uid (sort_strings (map uid_of pods)) pods
    ∙ ap (λ n. n * length (matching uid pods))
        (count_string-sort_strings uid (map uid_of pods) ∙ count_string-map uid pods)
