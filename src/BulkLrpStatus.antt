-- ===== src/BulkLrpStatus.antt =====
-- handler/bulklrpstatus/bulklrpstatus.go: the instances of many processes at once.
pub mod Pattern
pub mod Bundle
pub mod Serve
mod Tests
use tps.Base.{
  ℕ, ℤ, ◌==◌, leb, Str, bytes, str_eq, Bool, true, false, ◌&&◌, ◌||◌, Option, none, some, List, [],
  ◌∷◌, map, Result, ok, panics, ◌>>=◌, deref, if◌then◌else◌,
}
use tps.Pod.{Pod, LrpInstance}
use tps.Regex.{Regex, chars, seq, star, plus, matches}
use tps.Split.{split}
use tps.Api.{GuidHelpers, Env, Listing, process_guid_label}
use tps.Http.{
  ResponseWriter, write_header, set_header, encode, content_type, application_json, ok_code,
  bad_request, internal_server_error,
}
use tps.LrpStatus.{lrp_instances}

abbrev pub comma : ℕ
comma = b','

-- `[a-zA-Z0-9_-]`
unfoldable pub is_guid_char : ℕ → Bool
is_guid_char c =
    leb b'a' c && leb c b'z'
    || leb b'A' c && leb c b'Z'
    || leb b'0' c && leb c b'9'
    || c == b'_'
    || c == b'-'

-- `processGuidPattern`
unfoldable pub process_guid_pattern : Regex
unfolding is_guid_char
process_guid_pattern =
    seq (star (seq (plus (chars is_guid_char)) (chars (λ c. c == comma))))
      (plus (chars is_guid_char))

-- `statusBundle`, as what it holds for each key.
abbrev pub Bundle : Type 0
Bundle = Str → Option (List LrpInstance)

abbrev pub empty_bundle : Bundle
empty_bundle _ = none

abbrev pub update : Bundle → Str → List LrpInstance → Bundle
update bundle k xs j = if str_eq k j then some xs else bundle j

-- A work function: its guid, and the systems and the clock as it meets them.
abbrev pub Work : Type 0 → Type 0
Work Guid = Str × Env Guid

module _ {Guid : Type 0} where
  -- What a work function finds for its guid, before it takes the lock: nil on an error.
  unfoldable pub fetch : Work Guid → Result (Option (List LrpInstance))
  fetch (process_guid, env) = elim (env.guids.new_process_guid process_guid) [
    | none ↦ ok none
    | some pg ↦
        let listing : Listing = env.list process_guid_label (env.guids.shortened_guid pg) in
        elim listing.error [ some _ ↦ ok none | none ↦ deref listing.pods >>= lrp_instances env ]
  ]

  -- The function that `getStatusForLRPWorkFunction` returns: the write under the lock is one step.
  unfoldable pub work : Work Guid → Bundle → Result Bundle
  unfolding fetch
  work w bundle = do
    instances ← fetch w
    ok (elim instances [ none ↦ bundle | some xs ↦ update bundle w.0 xs ])

  -- `throttler.Work()`: all work functions, in the order in which they take the lock.
  unfoldable pub run_works : List (Work Guid) → Bundle → Result Bundle
  unfolding work
  run_works [] bundle = ok bundle
  run_works (w ∷ works) bundle = work w bundle >>= run_works works

  -- `ServeHTTP`. `new_throttler` says whether NewThrottler accepts the number of workers, `schedule`
  -- in which order the work functions for these guids take the lock, and what each meets, `marshal` is
  -- the encoding of the bundle.
  unfoldable pub serve_http :
      (ℤ → Bool)
      → (List Str → List (Work Guid))
      → (Bundle → Option Str)
      → ResponseWriter
      → ℤ
      → Str
      → Result ResponseWriter
  unfolding process_guid_pattern
  serve_http new_throttler schedule marshal w workers guid_parameter =
      if matches process_guid_pattern guid_parameter
      then (if new_throttler workers
          then (do
            bundle ← run_works (schedule (split comma guid_parameter)) empty_bundle
            ok (
                encode (set_header (write_header w ok_code) content_type application_json)
                  (marshal bundle)))
          else ok (write_header w internal_server_error))
      else ok (write_header w bad_request)
