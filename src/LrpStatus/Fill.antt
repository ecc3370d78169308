-- ===== src/LrpStatus/Fill.antt =====
-- handler/lrpstatus/lrpstatus.go: the loop of `LRPInstances` beside a filter of the sorted pods.
use tps.Base.{
  ℕ, suc, ◌≤◌, ℤ, str_eq, Bool, true, false, Option, none, some, List, [], ◌∷◌, ◌++◌, ◌≡◌, ◌≢◌, inl,
  inr, refl, ap, arith, Result, ok, length, replicate, if◌then◌else◌, length-append,
  length-replicate, length-perm, take-length-append, set-append, All, Bool-cases, Option-cases,
}
use mathlib.Core.List.{append-nil, append_assoc}
use tps.Pod.{Pod, LrpInstance, zero_instance}
use tps.PodUtil.{sort_pods}
use tps.PodUtil.Rearranges.{Distinct, sort_pods-perm}
use tps.PodUtil.Members.{sort_pods-All}
use tps.Api.{Env}
use tps.LrpStatus.{state_of, instance_of, fill, first_of_array, lrp_instances}

length-snoc : (xs : List LrpInstance) (x : LrpInstance) → length (xs ++ x ∷ []) ≡ suc (length xs)
length-snoc xs x = omega (arith, length-append xs (x ∷ []))

-- What `LRPInstances` returns for a report: nil in place of an empty slice.
abbrev pub nil_if_empty : List LrpInstance → Option (List LrpInstance)
nil_if_empty [] = none
nil_if_empty (x ∷ xs) = some (x ∷ xs)

first_of_array_lem :
    (xs rest : List LrpInstance) → first_of_array (xs ++ rest, length xs) ≡ nil_if_empty xs
unfolding first_of_array
first_of_array_lem [] rest = refl
first_of_array_lem (x ∷ xs) rest = ground (arith, take-length-append xs rest)

module _ {Guid : Type 0} (env : Env Guid) where
  -- The pod has no application container, and is passed over.
  abbrev pub is_hidden : Pod → Bool
  is_hidden pod = str_eq (state_of env pod) []

  -- A pod that is not passed over has a start time.
  abbrev pub IsStarted : Pod → Type 0
  IsStarted pod = is_hidden pod ≡ false → pod.start_time ≢ none

  -- What a reader of the API expects: every pod with an application container, at its place among
  -- all pods. A pod without a start time ends the report.
  unfoldable pub report : ℕ → ℕ → List Pod → List LrpInstance
  report i j [] = []
  report i j (pod ∷ pods) =
      let skipped = report (suc i) j pods in
      let shown : List LrpInstance = elim pod.start_time [
        | none ↦ []
        | some start ↦ instance_of env pod i start (env.clock j) ∷ report (suc i) (suc j) pods
      ] in
      if is_hidden pod then skipped else shown

  pub report-hidden :
      (pod : Pod) (pods : List Pod) (i j : ℕ)
      → is_hidden pod ≡ true
      → report i j (pod ∷ pods) ≡ report (suc i) j pods
  unfolding report
  report-hidden pod pods i j h = ground arith

  pub report-shown :
      (pod : Pod) (pods : List Pod) (i j : ℕ) (start : ℤ)
      → is_hidden pod ≡ false
      → pod.start_time ≡ some start
      → report i j (pod ∷ pods)
        ≡ instance_of env pod i start (env.clock j) ∷ report (suc i) (suc j) pods
  unfolding report
  report-shown pod pods i j start h e = ground arith

  fill-hidden :
      (pod : Pod) (pods : List Pod) (i j : ℕ) (array : List LrpInstance)
      → is_hidden pod ≡ true
      → fill env (pod ∷ pods) i j array ≡ fill env pods (suc i) j array
  unfolding fill
  fill-hidden pod pods i j array h = rw h

  fill-shown :
      (pod : Pod) (pods : List Pod) (i : ℕ) (before : List LrpInstance) (cell : LrpInstance)
      (room : List LrpInstance) (start : ℤ)
      → is_hidden pod ≡ false
      → pod.start_time ≡ some start
      → fill env (pod ∷ pods) i (length before) (before ++ cell ∷ room)
        ≡ fill env pods
            (suc i)
            (suc (length before))
            (before ++ instance_of env pod i start (env.clock (length before)) ∷ room)
  unfolding fill
  fill-shown pod pods i before cell room start h e = ground (
    arith,
    length-append before (cell ∷ room),
    set-append before cell room (instance_of env pod i start (env.clock (length before))),
  )

  -- The loop's contract: it leaves what was written and adds the report of the pods that are left.
  abbrev Fills : List Pod → ℕ → List LrpInstance → Result (List LrpInstance × ℕ) → Type 0
  Fills pods i before r =
      (rest : List LrpInstance) × (r
        ≡ ok (
          (before ++ report i (length before) pods) ++ rest,
          length (before ++ report i (length before) pods),
        ))

  -- An instance that was just written, counted among those before.
  regroup :
      (pods : List Pod) (i : ℕ) (before : List LrpInstance) (x : LrpInstance)
      (room rest : List LrpInstance)
      → let done = before ++ x ∷ [] in
        fill env pods i (length done) (done ++ room)
          ≡ ok (
            (done ++ report i (length done) pods) ++ rest,
            length (done ++ report i (length done) pods),
          )
        → fill env pods i (suc (length before)) (before ++ x ∷ room)
          ≡ ok (
            (before ++ x ∷ report i (suc (length before)) pods) ++ rest,
            length (before ++ x ∷ report i (suc (length before)) pods),
          )
  regroup pods i before x room rest h =
      simp append_assoc (simp (append_assoc, length-snoc before x) at h)

  fill_lem :
      (pods : List Pod) (i : ℕ) (before room : List LrpInstance)
      → All IsStarted pods
      → length pods ≤ length room
      → Fills pods i before (fill env pods i (length before) (before ++ room))
  unfolding fill report
  fill_lem [] i before room h le = (room, rw append-nil)
  fill_lem (pod ∷ pods) i before [] h le = absurd (omega arith)
  fill_lem (pod ∷ pods) i before (cell ∷ room) h le = elim (Bool-cases (is_hidden pod)) [
    | inl hidden ↦
        let (rest, e) = fill_lem pods (suc i) before (cell ∷ room) h.1 (omega arith) in
        (rest, rw (fill-hidden pod pods i _ _ hidden, report-hidden pod pods i _ hidden) e)
    | inr shown ↦ elim (Option-cases pod.start_time) [
      | inl missing ↦ absurd (h.0 shown missing)
      | inr (start, e) ↦
          let now = env.clock (length before) in
          let done = before ++ instance_of env pod i start now ∷ [] in
          let (rest, f) = fill_lem pods (suc i) done room h.1 (omega arith) in
          (
            rest,
            rw
                (
                  fill-shown pod pods i before cell room start shown e,
                  report-shown pod pods i _ start shown e,
                )
                (regroup pods (suc i) before (instance_of env pod i start now) room rest f),
          )
    ]
  ]

  -- `LRPInstances` returns the report of the sorted pods, if their UIDs differ and every pod with an
  -- application container has a start time: it neither runs over its array nor dereferences nil.
  pub lrp_instances-eq-report :
      (pods : List Pod)
      → Distinct pods
      → All IsStarted pods
      → lrp_instances env pods ≡ ok (nil_if_empty (report 0 0 (sort_pods pods)))
  unfolding lrp_instances
  lrp_instances-eq-report pods distinct started =
      let room = replicate (length pods) zero_instance in
      let fits = length-perm (sort_pods pods) pods (sort_pods-perm pods distinct) in
      let (rest, e) =
        fill_lem (sort_pods pods) 0 [] room (sort_pods-All IsStarted pods started)
          (omega (arith, fits, length-replicate (length pods) zero_instance)) in
      rw e (ap ok (first_of_array_lem (report 0 0 (sort_pods pods)) rest))
