-- ===== src/BulkLrpStatus/Bundle.antt =====
-- handler/bulklrpstatus/bulklrpstatus.go: the bundle after the work functions have run.
use mathlib.Core.Path.{fun_ext}
use mathlib.Core.List.{Permᴰ}
use tps.Base.{
  map, Result, Str, str_eq, str_eq_iff, str_eq_refl, Result-cases, Bool, false, ◌||◌, Option, none,
  some, List, [], ◌∷◌, ◌≡◌, ◌≢◌, refl, ap, ◌∙◌, arith, ok, panics, All, Bool-cases, inl, inr,
  if◌then◌else◌,
}
use tps.Pod.{LrpInstance}
use tps.BulkLrpStatus.{Work, Bundle, empty_bundle, update, fetch, work, run_works}

-- The guid was asked for.
pub contains : Str → List Str → Bool
contains k [] = false
contains k (guid ∷ guids) = str_eq guid k || contains k guids

pub contains-permᴰ : (k : Str) {xs ys : List Str} → Permᴰ xs ys → contains k xs ≡ contains k ys
unfolding contains
contains-permᴰ k Permᴰ.nil = refl
contains-permᴰ k (Permᴰ.cons e p) = rw (e, contains-permᴰ k p)
contains-permᴰ k (Permᴰ.swap e f) = rw (e, f) (ground arith)
contains-permᴰ k (Permᴰ.trans p q) = contains-permᴰ k p ∙ contains-permᴰ k q

-- The guids of work functions, in their order.
abbrev pub guids_of : {Guid : Type 0} → List (Work Guid) → List Str
guids_of works = map (λ w. w.0) works

-- `found` says what there is to find for each guid.
module _ (found : Str → Result (Option (List LrpInstance))) where
  -- The work functions find that, those for one guid the same.
  abbrev pub AllFind : {Guid : Type 0} → List (Work Guid) → Type 0
  AllFind = All (λ w. fetch w ≡ found w.0)

  -- The instances that a work function adds, if any.
  abbrev pub entry : Str → Option (List LrpInstance)
  entry k = elim (found k) [ ok o ↦ o | panics ↦ none ]

  -- What a reader finds: the instances of each guid that was asked for and could be fetched.
  abbrev pub answer : List Str → Bundle
  answer guids k = if contains k guids then entry k else none

  -- No work function panics.
  abbrev pub AllReturn : List Str → Type 0
  AllReturn = All (λ guid. found guid ≢ panics)

  -- The instances that were there before stay, unless the guid is asked for and found.
  abbrev joined : List Str → Bundle → Bundle
  joined guids bundle k =
      if contains k guids
      then (elim (entry k) [ none ↦ bundle k | some xs ↦ some xs ])
      else bundle k

  work-eq :
      {Guid : Type 0} (w : Work Guid) (bundle : Bundle)
      → fetch w ≡ found w.0
      → found w.0 ≢ panics
      → work w bundle ≡ ok (elim (entry w.0) [ none ↦ bundle | some xs ↦ update bundle w.0 xs ])
  unfolding work
  work-eq w bundle f h = elim (Result-cases (found w.0)) [
    | inl e ↦ absurd (h e)
    | inr (o, e) ↦ rw (f, e) refl
  ]

  joined-cons :
      (guid : Str) (guids : List Str) (bundle : Bundle) (k : Str)
      → joined guids (elim (entry guid) [ none ↦ bundle | some xs ↦ update bundle guid xs ]) k
        ≡ joined (guid ∷ guids) bundle k
  unfolding contains
  joined-cons guid guids bundle k = elim (Bool-cases (str_eq guid k)) [
    | inl same ↦
        let e = (str_eq_iff guid k).0 same in rw (e, str_eq_refl k) (ground (arith, str_eq_refl k))
    | inr other ↦ ground arith
  ]

  run_works-joined :
      {Guid : Type 0} (works : List (Work Guid)) (bundle : Bundle)
      → AllFind works
      → AllReturn (guids_of works)
      → run_works works bundle ≡ ok (joined (guids_of works) bundle)
  unfolding run_works contains
  run_works-joined [] bundle f h = refl
  run_works-joined (w ∷ works) bundle f h =
      rw (work-eq w bundle f.0 h.0) (
        run_works-joined works _ f.1 h.1
        ∙ ap ok (fun_ext (joined-cons w.0 (guids_of works) bundle)))

  -- Once all work functions have run, and none has panicked, the bundle holds the instances of each
  -- guid of the request that could be fetched and is not without instances, and nothing else.
  pub run_works-eq-answer :
      {Guid : Type 0} (works : List (Work Guid))
      → AllFind works
      → AllReturn (guids_of works)
      → run_works works empty_bundle ≡ ok (answer (guids_of works))
  run_works-eq-answer works f h =
      run_works-joined works empty_bundle f h ∙ ap ok (fun_ext (joined_empty (guids_of works)))
    where
      joined_empty : (guids : List Str) (k : Str) → joined guids empty_bundle k ≡ answer guids k
      joined_empty guids k = ground arith
