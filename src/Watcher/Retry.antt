-- ===== src/Watcher/Retry.antt =====
-- watcher/watcher.go: the count of failed reads, over rounds of the loop of `Run`.
use mathlib.Core.List.{append-nil, append_assoc}
use tps.Base.{
  ℕ, suc, ◌+◌, ◌≤◌, ltb, Str, false, Option, none, some, List, [], ◌∷◌, ◌++◌, ◌≡◌, refl, ◌∙◌, arith,
  if◌then◌else◌,
}
use tps.Watcher.{
  State, running, Event, Job, other_error, Action, nexts, takes_event, handle_event, run,
}

-- What one round of the loop does with a read: an event, or a failure that is none of the two known.
pub round : Option Event → List Action
round (some e) = nexts (some e) none ∷ takes_event ∷ []
round none = nexts none (some other_error) ∷ takes_event ∷ []

pub rounds : List (Option Event) → List Action
unfolding round
rounds [] = []
rounds (x ∷ xs) = round x ++ rounds xs

-- How many of the reads failed.
unfoldable pub failures : List (Option Event) → ℕ
failures [] = 0
failures (none ∷ xs) = suc (failures xs)
failures (some e ∷ xs) = failures xs

-- The watcher reads from a source, after `count` failures.
abbrev pub reading_state : ℕ → ℕ → List Job → State
reading_state source count submitted = record {
  phase = running;
  subscription = some source;
  next_err_count = count;
  subscribers = 0;
  readers = some source ∷ [];
  subscription_chan = [];
  event_chan = [];
  error_chan = [];
  submitted = submitted;
  closed = [];
}

-- The watcher subscribes anew, and has forgotten the failures.
abbrev pub resubscribing_state : ℕ → List Job → State
resubscribing_state source submitted = record {
  phase = running;
  subscription = some source;
  next_err_count = 0;
  subscribers = 1;
  readers = [];
  subscription_chan = [];
  event_chan = [];
  error_chan = [];
  submitted = submitted;
  closed = [];
}

module _ (app_lrp_domain : Str) where
  -- The jobs of the events among the reads.
  pub jobs_of : List (Option Event) → List Job
  jobs_of [] = []
  jobs_of (none ∷ xs) = jobs_of xs
  jobs_of (some e ∷ xs) = handle_event app_lrp_domain e ++ jobs_of xs

  run-event :
      (source count : ℕ) (jobs : List Job) (e : Event) (rest : List Action)
      → run app_lrp_domain
          (reading_state source count jobs)
          (nexts (some e) none ∷ takes_event ∷ rest)
        ≡ run app_lrp_domain
            (reading_state source count (jobs ++ handle_event app_lrp_domain e))
            rest
  unfolding run
  run-event source count jobs e rest = refl

  run-failure :
      (source count : ℕ) (jobs : List Job) (rest : List Action)
      → run app_lrp_domain
          (reading_state source count jobs)
          (nexts none (some other_error) ∷ takes_event ∷ rest)
        ≡ (if ltb 2 (count + 1)
            then run app_lrp_domain (resubscribing_state source jobs) rest
            else run app_lrp_domain (reading_state source (count + 1) jobs) rest)
  unfolding run
  run-failure source count jobs rest = ground arith

  -- After reads of which fewer than three failed in all, the watcher reads on, with their jobs
  -- submitted and the failures added up.
  pub run-rounds :
      (xs : List (Option Event)) (rest : List Action) (source count : ℕ) (jobs : List Job)
      → count + failures xs ≤ 2
      → run app_lrp_domain (reading_state source count jobs) (rounds xs ++ rest)
        ≡ run app_lrp_domain (reading_state source (count + failures xs) (jobs ++ jobs_of xs)) rest
  unfolding rounds failures jobs_of
  run-rounds [] rest source count jobs h = rw (append-nil jobs) (ground arith)
  run-rounds (some e ∷ xs) rest source count jobs h =
      run-event source count jobs e (rounds xs ++ rest)
      ∙ run-rounds xs rest source count (jobs ++ handle_event app_lrp_domain e) h
      ∙ rw append_assoc
  run-rounds (none ∷ xs) rest source count jobs h =
      let early : ltb 2 (count + 1) ≡ false = ground arith in
      let sum : count + 1 + failures xs ≡ count + suc (failures xs) = omega arith in
      run-failure source count jobs (rounds xs ++ rest)
      ∙ rw early (run-rounds xs rest source (count + 1) jobs (omega arith) ∙ rw sum)

  -- The third failed read makes a new subscription and resets the count, whatever events came in
  -- between; the events' jobs are submitted.
  pub run-third_failure :
      (xs : List (Option Event)) (source count : ℕ) (jobs : List Job)
      → count + failures xs ≡ 2
      → run app_lrp_domain (reading_state source count jobs) (rounds xs ++ round none)
        ≡ some (resubscribing_state source (jobs ++ jobs_of xs))
  unfolding round
  run-third_failure xs source count jobs h =
      run-rounds xs (round none) source count jobs (omega arith)
      ∙ run-failure source (count + failures xs) (jobs ++ jobs_of xs) []
      ∙ rw h (unfold run in refl)
