-- ===== src/PodUtil/Sorted.antt =====
-- helpers/pod_util.go: the order of the pods that `SortPods` returns.
use tps.Base.{
  Str, str_eq, str_leb, str_eq_iff, str_leb_refl, str_leb_total, str_leb_trans, true, List, [], ◌∷◌,
  ◌++◌, map, ◌≡◌, arith, All, All-append, All-impl, Bool-cases, inl, inr,
}
use tps.Pod.{Pod}
use tps.PodUtil.{insert_string, sort_strings, uid_of, matching, collect, sort_pods}

-- Every pod comes before those with a larger UID.
abbrev pub IsSorted : List Pod → Type 0
IsSorted [] = Unit {0}
IsSorted (pod ∷ pods) = All (λ q. str_leb pod.uid q.uid ≡ true) pods × IsSorted pods

abbrev StringsSorted : List Str → Type 0
StringsSorted [] = Unit {0}
StringsSorted (s ∷ ss) = All (λ t. str_leb s t ≡ true) ss × StringsSorted ss

insert_string-All :
    (P : Str → Type 0) (s : Str) (ss : List Str) → P s → All P ss → All P (insert_string s ss)
unfolding insert_string
insert_string-All P s [] p h = (p, tt)
insert_string-All P s (t ∷ ts) p h = elim (Bool-cases (str_leb s t)) [
  | inl le ↦ rw (le, insert_string) (p, h)
  | inr gt ↦ rw (gt, insert_string) (h.0, insert_string-All P s ts p h.1)
]

insert_string-StringsSorted :
    (s : Str) (ss : List Str) → StringsSorted ss → StringsSorted (insert_string s ss)
unfolding insert_string
insert_string-StringsSorted s [] h = (tt, tt)
insert_string-StringsSorted s (t ∷ ts) h = elim (Bool-cases (str_leb s t)) [
  | inl le ↦ rw (le, insert_string) ((le, All-impl _ _ ts (λ u k. str_leb_trans s t u le k) h.0), h)
  | inr gt ↦
      rw (gt, insert_string)
        (insert_string-All _ s ts (str_leb_total s t gt) h.0, insert_string-StringsSorted s ts h.1)
]

sort_strings-StringsSorted : (ss : List Str) → StringsSorted (sort_strings ss)
unfolding sort_strings
sort_strings-StringsSorted [] = tt
sort_strings-StringsSorted (s ∷ ss) =
    insert_string-StringsSorted s (sort_strings ss) (sort_strings-StringsSorted ss)

matching-All_eq : (uid : Str) (pods : List Pod) → All (λ p. p.uid ≡ uid) (matching uid pods)
unfolding matching
matching-All_eq uid [] = tt
matching-All_eq uid (pod ∷ pods) = ground (arith, str_eq_iff pod.uid uid, matching-All_eq uid pods)

str_leb_of_eq : (a b u : Str) → a ≡ u → b ≡ u → str_leb a b ≡ true
str_leb_of_eq a b u p q = rw (p, q) (str_leb_refl u)

matching-IsSorted : (uid : Str) (pods : List Pod) → IsSorted (matching uid pods)
unfolding matching
matching-IsSorted uid [] = tt
matching-IsSorted uid (pod ∷ pods) = elim (Bool-cases (str_eq pod.uid uid)) [
  | inl e ↦
      rw (e, matching)
        (
          All-impl _ _ (matching uid pods)
              (λ q k. str_leb_of_eq pod.uid q.uid uid ((str_eq_iff _ _).0 e) k)
              (matching-All_eq uid pods),
          matching-IsSorted uid pods,
        )
  | inr e ↦ rw (e, matching) (matching-IsSorted uid pods)
]

-- Every collected pod has a UID of which `P` holds.
collect-All :
    (P : Str → Type 0) (uids : List Str) (pods : List Pod)
    → All P uids
    → All (λ q. P q.uid) (collect uids pods)
unfolding collect
collect-All P [] pods h = tt
collect-All P (uid ∷ uids) pods h =
    All-append _ (matching uid pods) (collect uids pods)
      (All-impl _ _ _ (λ q k. rw k h.0) (matching-All_eq uid pods)) (collect-All P uids pods h.1)

IsSorted-append :
    (uid : Str) (xs ys : List Pod)
    → All (λ p. p.uid ≡ uid) xs
    → IsSorted xs
    → All (λ q. str_leb uid q.uid ≡ true) ys
    → IsSorted ys
    → IsSorted (xs ++ ys)
IsSorted-append uid [] ys same hx above hy = hy
IsSorted-append uid (x ∷ xs) ys same hx above hy =
    (All-append _ xs ys hx.0 (rw same.0 above), IsSorted-append uid xs ys same.1 hx.1 above hy)

collect-IsSorted :
    (uids : List Str) (pods : List Pod) → StringsSorted uids → IsSorted (collect uids pods)
unfolding collect
collect-IsSorted [] pods h = tt
collect-IsSorted (uid ∷ uids) pods h =
    IsSorted-append uid (matching uid pods) (collect uids pods) (matching-All_eq uid pods)
      (matching-IsSorted uid pods) (collect-All _ uids pods h.0) (collect-IsSorted uids pods h.1)

-- The result of `SortPods` ascends in the UIDs, whatever the input.
pub sort_pods-IsSorted : (pods : List Pod) → IsSorted (sort_pods pods)
unfolding sort_pods
sort_pods-IsSorted pods =
    collect-IsSorted (sort_strings (map uid_of pods)) pods
      (sort_strings-StringsSorted (map uid_of pods))
