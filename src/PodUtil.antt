-- ===== src/PodUtil.antt =====
-- helpers/pod_util.go: pods in the order of their UIDs.
pub mod Sorted
pub mod Rearranges
pub mod Counts
pub mod Members
pub mod Repeats
pub mod Reordered
mod Tests
use tps.Base.{Str, str_eq, str_leb, Bool, List, [], ◌∷◌, ◌++◌, map, if◌then◌else◌}
use tps.Pod.{Pod}

pub insert_string : Str → List Str → List Str
insert_string s [] = s ∷ []
insert_string s (t ∷ ts) = if str_leb s t then s ∷ t ∷ ts else t ∷ insert_string s ts

-- `sort.Strings`: the ascending rearrangement, which is unique.
pub sort_strings : List Str → List Str
unfolding insert_string
sort_strings [] = []
sort_strings (s ∷ ss) = insert_string s (sort_strings ss)

abbrev pub uid_of : Pod → Str
uid_of pod = pod.uid

-- The inner loop: every pod with the given UID.
unfoldable pub matching : Str → List Pod → List Pod
matching uid [] = []
matching uid (pod ∷ pods) =
    if str_eq pod.uid uid then pod ∷ matching uid pods else matching uid pods

-- The outer loop, over the sorted UIDs.
pub collect : List Str → List Pod → List Pod
unfolding matching
collect [] pods = []
collect (uid ∷ uids) pods = matching uid pods ++ collect uids pods

-- `SortPods`
unfoldable pub sort_pods : List Pod → List Pod
unfolding collect sort_strings
sort_pods pods = collect (sort_strings (map uid_of pods)) pods
