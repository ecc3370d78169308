-- ===== src/PodUtil/Rearranges.antt =====
-- helpers/pod_util.go: `SortPods` on pods whose UIDs differ.
use mathlib.Core.Logic.{∥∥₁_elim}
use mathlib.Core.List.{Permᴰ, Perm-prop, append_assoc, perm_append_comm}
use mathlib.Core.List.Perm
use tps.Base.{
  Str, str_eq, str_leb, str_eq_sym, str_eq_refl, false, List, [], ◌∷◌, ◌++◌, map, Perm, ◌≡◌, refl,
  ap, arith, All, Bool-cases, inl, inr,
}
use tps.Pod.{Pod}
use tps.PodUtil.{insert_string, sort_strings, uid_of, matching, collect, sort_pods}

-- No UID of the list equals `uid`.
abbrev pub Fresh : Str → List Pod → Type 0
Fresh uid = All (λ pod. str_eq pod.uid uid ≡ false)

-- No two pods share a UID.
abbrev pub Distinct : List Pod → Type 0
Distinct [] = Unit {0}
Distinct (pod ∷ pods) = Fresh pod.uid pods × Distinct pods

insert_string-perm : (s : Str) (ss : List Str) → Perm (insert_string s ss) (s ∷ ss)
unfolding insert_string
insert_string-perm s [] = Perm.rfl
insert_string-perm s (t ∷ ts) = elim (Bool-cases (str_leb s t)) [
  | inl le ↦ rw (le, insert_string) Perm.rfl
  | inr gt ↦
      rw (gt, insert_string) (Perm.trans (Perm.cons t (insert_string-perm s ts)) (Perm.swap s t ts))
]

pub sort_strings-perm : (ss : List Str) → Perm (sort_strings ss) ss
unfolding sort_strings
sort_strings-perm [] = Perm.rfl
sort_strings-perm (s ∷ ss) =
    Perm.trans (insert_string-perm s (sort_strings ss)) (Perm.cons s (sort_strings-perm ss))

append_swap : (xs ys zs : List Pod) → Perm (xs ++ (ys ++ zs)) (ys ++ (xs ++ zs))
append_swap xs ys zs =
    rw (← append_assoc xs ys zs, ← append_assoc ys xs zs)
      (Perm.append_right zs (perm_append_comm xs ys))

-- The order of the outer loop only rearranges the result.
collect-permᴰ :
    (pods : List Pod) {us vs : List Str} → Permᴰ us vs → Perm (collect us pods) (collect vs pods)
unfolding collect
collect-permᴰ pods Permᴰ.nil = Perm.rfl
collect-permᴰ pods (Permᴰ.cons {a = u} e p) =
    rw (← e) (Perm.append_left (matching u pods) (collect-permᴰ pods p))
collect-permᴰ pods (Permᴰ.swap {a = u} {b = v} {l = us} e f) =
    rw (← e, ← f) (append_swap (matching u pods) (matching v pods) (collect us pods))
collect-permᴰ pods (Permᴰ.trans p q) = Perm.trans (collect-permᴰ pods p) (collect-permᴰ pods q)

pub collect-perm :
    (pods : List Pod) {us vs : List Str} → Perm us vs → Perm (collect us pods) (collect vs pods)
collect-perm pods p = ∥∥₁_elim p Perm-prop (collect-permᴰ pods)

matching_of_Fresh : (uid : Str) (pods : List Pod) → Fresh uid pods → matching uid pods ≡ []
unfolding matching
matching_of_Fresh uid [] h = refl
matching_of_Fresh uid (pod ∷ pods) h = rw (h.0, matching) (matching_of_Fresh uid pods h.1)

-- A pod that no listed UID names does not show.
collect-cons_of_Fresh :
    (pod : Pod) (qs pods : List Pod)
    → Fresh pod.uid qs
    → collect (map uid_of qs) (pod ∷ pods) ≡ collect (map uid_of qs) pods
unfolding collect
collect-cons_of_Fresh pod [] pods h = refl
collect-cons_of_Fresh pod (q ∷ qs) pods h =
    ground (arith, collect-cons_of_Fresh pod qs pods h.1, str_eq_sym pod.uid q.uid)

collect_of_Distinct : (pods : List Pod) → Distinct pods → collect (map uid_of pods) pods ≡ pods
unfolding collect
collect_of_Distinct [] h = refl
collect_of_Distinct (pod ∷ pods) h =
    rw
      (
        str_eq_refl pod.uid,
        matching_of_Fresh pod.uid pods h.0,
        collect-cons_of_Fresh pod pods pods h.0,
      )
      (ap (◌∷◌ pod) (collect_of_Distinct pods h.1))

-- `SortPods` rearranges pods whose UIDs differ.
pub sort_pods-perm : (pods : List Pod) → Distinct pods → Perm (sort_pods pods) pods
unfolding sort_pods
sort_pods-perm pods h =
    rw (collect_of_Distinct pods h) at (collect-perm pods (sort_strings-perm (map uid_of pods)))
