-- ===== src/PodUtil/Reordered.antt =====
-- helpers/pod_util.go: `SortPods` on one set of pods that is listed in different orders.
use mathlib.Core.List.{Permᴰ}
use mathlib.Core.Path.{subst}
use tps.Base.{
  Str, str_eq, str_eq_iff, str_eq_sym, str_leb_total, str_leb_trans, str_leb_antisymm, true, false,
  List, [], ◌∷◌, map, ◌≡◌, refl, ap, ◌∙◌, arith,
}
use tps.Pod.{Pod}
use tps.PodUtil.{insert_string, sort_strings, uid_of, matching, collect, sort_pods}
use tps.PodUtil.Rearranges.{Fresh, Distinct}

-- Two texts go into a list in either order.
insert_string_comm :
    (a b : Str) (ss : List Str)
    → insert_string a (insert_string b ss) ≡ insert_string b (insert_string a ss)
unfolding insert_string
insert_string_comm a b [] =
    ground (arith, str_leb_total a b, str_leb_total b a, str_leb_antisymm a b)
insert_string_comm a b (t ∷ ts) = ground (
  arith,
  str_leb_total a b,
  str_leb_total b a,
  str_leb_antisymm a b,
  str_leb_trans a b t,
  str_leb_trans b a t,
  str_leb_total a t,
  str_leb_total b t,
  str_leb_trans a t b,
  str_leb_trans b t a,
  insert_string_comm a b ts,
)

sort_strings-permᴰ : {ss ts : List Str} → Permᴰ ss ts → sort_strings ss ≡ sort_strings ts
unfolding sort_strings
sort_strings-permᴰ Permᴰ.nil = refl
sort_strings-permᴰ (Permᴰ.cons e p) = rw (e, sort_strings-permᴰ p) refl
sort_strings-permᴰ (Permᴰ.swap {a = a} {b = b} {l = l} e f) =
    rw (← e, ← f) (insert_string_comm a b (sort_strings l))
sort_strings-permᴰ (Permᴰ.trans p q) = sort_strings-permᴰ p ∙ sort_strings-permᴰ q

uids-permᴰ : {xs ys : List Pod} → Permᴰ xs ys → Permᴰ (map uid_of xs) (map uid_of ys)
uids-permᴰ Permᴰ.nil = Permᴰ.nil
uids-permᴰ (Permᴰ.cons e p) = Permᴰ.cons (ap uid_of e) (uids-permᴰ p)
uids-permᴰ (Permᴰ.swap e f) = Permᴰ.swap (ap uid_of e) (ap uid_of f)
uids-permᴰ (Permᴰ.trans p q) = Permᴰ.trans (uids-permᴰ p) (uids-permᴰ q)

Fresh-permᴰ : (uid : Str) {xs ys : List Pod} → Permᴰ xs ys → Fresh uid xs → Fresh uid ys
Fresh-permᴰ uid Permᴰ.nil h = h
Fresh-permᴰ uid (Permᴰ.cons e p) h =
    (subst (λ (x : Pod). str_eq x.uid uid ≡ false) e h.0, Fresh-permᴰ uid p h.1)
Fresh-permᴰ uid (Permᴰ.swap e f) h = (
  subst (λ (x : Pod). str_eq x.uid uid ≡ false) f h.1.0,
  (subst (λ (x : Pod). str_eq x.uid uid ≡ false) e h.0, h.1.1),
)
Fresh-permᴰ uid (Permᴰ.trans p q) h = Fresh-permᴰ uid q (Fresh-permᴰ uid p h)

pub Distinct-permᴰ : {xs ys : List Pod} → Permᴰ xs ys → Distinct xs → Distinct ys
Distinct-permᴰ Permᴰ.nil h = h
Distinct-permᴰ (Permᴰ.cons {l₂ = l} e p) h =
    (subst (λ (x : Pod). Fresh x.uid l) e (Fresh-permᴰ _ p h.0), Distinct-permᴰ p h.1)
Distinct-permᴰ (Permᴰ.swap {a = a} {b = b} {a' = a'} {l = l} e f) h = (
  (
    subst (λ (x : Pod). str_eq x.uid a'.uid ≡ false) e
        (subst (λ (y : Pod). str_eq a.uid y.uid ≡ false) f (str_eq_sym a.uid b.uid ∙ h.0.0)),
    subst (λ (y : Pod). Fresh y.uid l) f h.1.0,
  ),
  (subst (λ (x : Pod). Fresh x.uid l) e h.0.1, h.1.1),
)
Distinct-permᴰ (Permᴰ.trans p q) h = Distinct-permᴰ q (Distinct-permᴰ p h)

not_both :
    (a b : Pod) (uid : Str)
    → str_eq b.uid a.uid ≡ false
    → str_eq a.uid uid ≡ true
    → str_eq b.uid uid ≡ false
not_both a b uid h k = rw ((str_eq_iff a.uid uid).0 k) at h

matching-permᴰ :
    (uid : Str) {xs ys : List Pod} → Permᴰ xs ys → Distinct xs → matching uid xs ≡ matching uid ys
unfolding matching
matching-permᴰ uid Permᴰ.nil h = refl
matching-permᴰ uid (Permᴰ.cons e p) h = rw (e, matching-permᴰ uid p h.1) refl
matching-permᴰ uid (Permᴰ.swap {a = a} {b = b} {l = l} e f) h =
    rw (← e, ← f) (ground (arith, not_both a b uid h.0.0))
matching-permᴰ uid (Permᴰ.trans p q) h =
    matching-permᴰ uid p h ∙ matching-permᴰ uid q (Distinct-permᴰ p h)

collect-permᴰ :
    (uids : List Str) {xs ys : List Pod}
    → Permᴰ xs ys
    → Distinct xs
    → collect uids xs ≡ collect uids ys
unfolding collect
collect-permᴰ [] p h = refl
collect-permᴰ (uid ∷ uids) p h = rw (matching-permᴰ uid p h, collect-permᴰ uids p h) refl

-- `SortPods` gives one list for all orders in which pods with different UIDs are listed.
pub sort_pods-permᴰ : {xs ys : List Pod} → Permᴰ xs ys → Distinct xs → sort_pods xs ≡ sort_pods ys
unfolding sort_pods
sort_pods-permᴰ {xs} {ys} p h =
    collect-permᴰ (sort_strings (map uid_of xs)) p h
    ∙ ap (λ uids. collect uids ys) (sort_strings-permᴰ (uids-permᴰ p))
