-- ===== src/PodUtil/Members.antt =====
-- helpers/pod_util.go: which pods `SortPods` returns.
use tps.Base.{
  Str, str_eq, str_eq_refl, str_leb, List, [], ◌∷◌, ◌++◌, map, ◌⊎◌, inl, inr, All, All-append,
  Bool-cases,
}
use tps.Pod.{Pod}
use tps.PodUtil.{insert_string, sort_strings, uid_of, matching, collect, sort_pods}

-- Some element has the property.
abbrev pub Any {ℓ} : {A : Type ℓ} → (A → Type 0) → List A → Type 0
Any P [] = ⊥
Any P (x ∷ xs) = P x ⊎ Any P xs

module _ (P : Pod → Type 0) where
  matching-All : (uid : Str) (pods : List Pod) → All P pods → All P (matching uid pods)
  unfolding matching
  matching-All uid [] h = tt
  matching-All uid (pod ∷ pods) h = elim (Bool-cases (str_eq pod.uid uid)) [
    | inl e ↦ rw (e, matching) (h.0, matching-All uid pods h.1)
    | inr e ↦ rw (e, matching) (matching-All uid pods h.1)
  ]

  collect-All : (uids : List Str) (pods : List Pod) → All P pods → All P (collect uids pods)
  unfolding collect
  collect-All [] pods h = tt
  collect-All (uid ∷ uids) pods h =
      All-append P (matching uid pods) (collect uids pods) (matching-All uid pods h)
        (collect-All uids pods h)

  -- What holds of every pod holds of every sorted pod.
  pub sort_pods-All : (pods : List Pod) → All P pods → All P (sort_pods pods)
  unfolding sort_pods
  sort_pods-All pods h = collect-All (sort_strings (map uid_of pods)) pods h

  Any-append_left : (xs ys : List Pod) → Any P xs → Any P (xs ++ ys)
  Any-append_left (x ∷ xs) ys (inl p) = inl p
  Any-append_left (x ∷ xs) ys (inr h) = inr (Any-append_left xs ys h)
  Any-append_left [] ys h = absurd h

  Any-append_right : (xs ys : List Pod) → Any P ys → Any P (xs ++ ys)
  Any-append_right [] ys h = h
  Any-append_right (x ∷ xs) ys h = inr (Any-append_right xs ys h)

  -- The pod of which `P` holds, found under its own UID.
  abbrev HasUid : List Pod → Str → Type 0
  HasUid pods uid = Any P (matching uid pods)

  Any-insert_string :
      (Q : Str → Type 0) (s : Str) (ss : List Str) → Q s ⊎ Any Q ss → Any Q (insert_string s ss)
  unfolding insert_string
  Any-insert_string Q s [] (inl q) = inl q
  Any-insert_string Q s [] (inr h) = absurd h
  Any-insert_string Q s (t ∷ ts) h = elim (Bool-cases (str_leb s t)) [
    | inl le ↦ rw (le, insert_string) h
    | inr gt ↦
        rw (gt, insert_string)
          (elim h [
            | inl q ↦ inr (Any-insert_string Q s ts (inl q))
            | inr (inl q) ↦ inl q
            | inr (inr k) ↦ inr (Any-insert_string Q s ts (inr k))
          ])
  ]

  Any-sort_strings : (Q : Str → Type 0) (ss : List Str) → Any Q ss → Any Q (sort_strings ss)
  unfolding sort_strings
  Any-sort_strings Q [] h = h
  Any-sort_strings Q (s ∷ ss) (inl q) = Any-insert_string Q s (sort_strings ss) (inl q)
  Any-sort_strings Q (s ∷ ss) (inr h) =
      Any-insert_string Q s (sort_strings ss) (inr (Any-sort_strings Q ss h))

  matching-cons :
      (uid : Str) (pod : Pod) (pods : List Pod) → HasUid pods uid → HasUid (pod ∷ pods) uid
  unfolding matching
  matching-cons uid pod pods h = elim (Bool-cases (str_eq pod.uid uid)) [
    | inl e ↦ rw (e, matching) (inr h)
    | inr e ↦ rw (e, matching) h
  ]

  Any-map_impl :
      (Q R : Str → Type 0) (ss : List Str) → ((s : Str) → Q s → R s) → Any Q ss → Any R ss
  Any-map_impl Q R [] f h = h
  Any-map_impl Q R (s ∷ ss) f (inl q) = inl (f s q)
  Any-map_impl Q R (s ∷ ss) f (inr h) = inr (Any-map_impl Q R ss f h)

  Any-uids : (pods : List Pod) → Any P pods → Any (HasUid pods) (map uid_of pods)
  unfolding matching
  Any-uids [] h = h
  Any-uids (pod ∷ pods) (inl p) = inl (rw (str_eq_refl pod.uid) (inl p))
  Any-uids (pod ∷ pods) (inr h) =
      inr (
        Any-map_impl _ _ (map uid_of pods) (λ uid k. matching-cons uid pod pods k)
          (Any-uids pods h))

  Any-collect :
      (uids : List Str) (pods : List Pod) → Any (HasUid pods) uids → Any P (collect uids pods)
  unfolding collect
  Any-collect [] pods h = h
  Any-collect (uid ∷ uids) pods (inl h) = Any-append_left (matching uid pods) (collect uids pods) h
  Any-collect (uid ∷ uids) pods (inr h) =
      Any-append_right (matching uid pods) (collect uids pods) (Any-collect uids pods h)

  -- A pod of which `P` holds is not lost.
  pub sort_pods-Any : (pods : List Pod) → Any P pods → Any P (sort_pods pods)
  unfolding sort_pods
  sort_pods-Any pods h =
      Any-collect (sort_strings (map uid_of pods)) pods
        (Any-sort_strings (HasUid pods) (map uid_of pods) (Any-uids pods h))
