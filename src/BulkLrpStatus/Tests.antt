-- ===== src/BulkLrpStatus/Tests.antt =====
-- A bulk request for two guids, one of which is not found, and the theorems at it.
use mathlib.Core.List.{reverse}
use mathlib.Core.List.Permᴰ
use tps.Pod.{LrpInstance}
use tps.Api.{Env}
use tps.Base.{
  inl, inr, arith, map, Result, [], ◌∷◌, ap, ℤ, negsuc, false, pos, ◌+◌, if◌then◌else◌, ltb, Str,
  bytes, str_eq, str_leb, sub64, quot64, Bool, true, Option, none, some, List, ◌≡◌, ◌↔◌, refl, ok,
  All,
}
use tps.PodUtil.{sort_pods}
use tps.LrpStatus.{lrp_instances, get_application_container_state}
use tps.Regex.{matches}
use tps.Split.{split}
use tps.Sample.{env}
use tps.Http.{new_writer, write_header, set_header, encode, content_type, application_json, ok_code}
use tps.BulkLrpStatus.{Work, comma, is_guid_char, process_guid_pattern, Bundle, fetch, serve_http}
use tps.BulkLrpStatus.Pattern.{IsGuidText, matches_iff_split}
use tps.BulkLrpStatus.Bundle.{guids_of, AllFind, answer, AllReturn}
use tps.BulkLrpStatus.Serve.{
  RunsAll, BulkStatusMeans, serve_http-eq-answer, serve_http-BulkStatusMeans,
}

abbrev parameter : Str
parameter = bytes "g,n"

-- The guids take the lock from the last to the first, and the clock of "n" is a second ahead.
abbrev env_of : Str → Env Str
env_of guid =
    if str_eq guid (bytes "n") then record env { clock = λ k. pos (8500000000 + k) } else env

abbrev work_of : Str → Work Str
work_of guid = (guid, env_of guid)

abbrev backwards : List Str → List (Work Str)
backwards guids = map work_of (reverse guids)

abbrev found : Str → Result (Option (List LrpInstance))
found guid = fetch (work_of guid)

-- NewThrottler takes a positive number of workers.
abbrev positive : ℤ → Bool
positive (pos n) = ltb 0 n
positive (negsuc _) = false

abbrev marshal_bundle : Bundle → Option Str
marshal_bundle bundle = elim (bundle (bytes "g")) [
  | none ↦ some (bytes "{}")
  | some xs ↦ some (bytes "{…}")
]

guids_of-work_of : (guids : List Str) → guids_of (map work_of guids) ≡ guids
guids_of-work_of [] = refl
guids_of-work_of (guid ∷ guids) = ap (λ gs. guid ∷ gs) (guids_of-work_of guids)

map-work_of-AllFind : (guids : List Str) → AllFind found (map work_of guids)
map-work_of-AllFind [] = tt
map-work_of-AllFind (guid ∷ guids) = (refl, map-work_of-AllFind guids)

parameter-valid : All IsGuidText (split comma parameter)
unfolding split is_guid_char
parameter-valid = (
  ((λ e. cc), (inr (inl (omega arith, omega arith)), tt)),
  (((λ e. cc), (inr (inl (omega arith, omega arith)), tt)), tt),
)

parameter-returns : AllReturn found (split comma parameter)
unfolding split fetch str_eq lrp_instances sort_pods get_application_container_state str_leb sub64
    quot64
parameter-returns = ((λ e. cc), ((λ e. cc), tt))

backwards-RunsAll : RunsAll positive backwards marshal_bundle
backwards-RunsAll guids = rw (guids_of-work_of (reverse guids)) (Permᴰ.symm (Permᴰ.reverse guids))

serve_http-eq-answer_example :
    serve_http positive backwards marshal_bundle new_writer (pos 5) parameter
    ≡ ok (
        encode
          (set_header (write_header new_writer ok_code) content_type application_json)
          (marshal_bundle (answer found (split comma parameter))))
serve_http-eq-answer_example =
    serve_http-eq-answer positive backwards marshal_bundle found new_writer (pos 5) parameter
      backwards-RunsAll parameter-valid refl (map-work_of-AllFind (reverse (split comma parameter)))
      parameter-returns

abbrev malformed : Str
malformed = bytes "g,"

serve_http-BulkStatusMeans_example :
    BulkStatusMeans positive backwards marshal_bundle
      (pos 5)
      malformed
      (write_header new_writer 400)
unfolding serve_http matches
serve_http-BulkStatusMeans_example =
    serve_http-BulkStatusMeans positive backwards marshal_bundle (pos 5) malformed
      (write_header new_writer 400) refl

matches_iff_split_example :
    (matches process_guid_pattern parameter ≡ true) ↔ All IsGuidText (split comma parameter)
matches_iff_split_example = matches_iff_split parameter
