-- ===== src/BulkLrpStatus/Serve.antt =====
-- The endpoint /v1/bulk_actual_lrp_status, branch by branch.
use mathlib.Core.Path.{fun_ext}
use mathlib.Core.List.{Permᴰ}
use tps.Base.{
  All-permᴰ, ◌≢◌, panics, Result, ℤ, Str, Bool, true, false, Option, none, some, List, [], ◌≡◌, ◌↔◌,
  inl, inr, refl, sym, ap, arith, ok, ◌>>=◌, >>=-eq-ok, All, Bool-cases, if◌then◌else◌,
}
use tps.Regex.{matches}
use tps.Split.{split}
use tps.Http.{
  ResponseWriter, new_writer, status_of, sent_header, sniffed, header_of, write_header, set_header,
  encode, content_type, application_json, ok_code, bad_request, internal_server_error,
}
use tps.Http.Laws.{encode_keeps, header_of-sniffed}
use tps.Pod.{LrpInstance}
use tps.BulkLrpStatus.{
  Work, comma, process_guid_pattern, Bundle, empty_bundle, run_works, serve_http,
}
use tps.BulkLrpStatus.Pattern.{IsGuidText, matches_iff_split}
use tps.BulkLrpStatus.Bundle.{
  guids_of, AllFind, contains-permᴰ, entry, answer, AllReturn, run_works-eq-answer,
}

module _ {Guid : Type 0} (new_throttler : ℤ → Bool) (schedule : List Str → List (Work Guid))
    (marshal : Bundle → Option Str) where
  -- Every work function runs, once for each time that its guid is asked for.
  abbrev pub RunsAll : Type 0
  RunsAll = (guids : List Str) → Permᴰ guids (guids_of (schedule guids))

  -- For a well-formed parameter, and a number of workers that the throttler accepts, the answer is the
  -- encoding of the instances by guid. It does not depend on the order in which the work functions
  -- take the lock. No work function panics, and those for one guid find the same.
  pub serve_http-eq-answer :
      (found : Str → Result (Option (List LrpInstance))) (w : ResponseWriter) (workers : ℤ)
      (guids : Str)
      → RunsAll
      → All IsGuidText (split comma guids)
      → new_throttler workers ≡ true
      → AllFind found (schedule (split comma guids))
      → AllReturn found (split comma guids)
      → serve_http new_throttler schedule marshal w workers guids
        ≡ ok (
            encode
              (set_header (write_header w ok_code) content_type application_json)
              (marshal (answer found (split comma guids))))
  unfolding serve_http
  serve_http-eq-answer found w workers guids all valid accepted finds returned =
      let parts = split comma guids in
      let ran =
        run_works-eq-answer found (schedule parts) finds
          (All-permᴰ (λ guid. found guid ≢ panics) (all parts) returned) in
      let same =
        fun_ext
          (λ k. ap (λ b. if b then entry found k else none) (sym (contains-permᴰ k (all parts)))) in
      rw ((matches_iff_split guids).1 valid, accepted, ran)
        (ap
          (λ (b : Bundle). ok (
            encode (set_header (write_header w ok_code) content_type application_json) (marshal b)))
          same)

  -- What the status of an answer says.
  pub record BulkStatusMeans (workers : ℤ) (guids : Str) (w : ResponseWriter) : Type 0 where
    pub is_bad_request : (status_of w ≡ bad_request) ↔ (¬ All IsGuidText (split comma guids))
    pub is_error :
        (status_of w ≡ internal_server_error)
        ↔ (All IsGuidText (split comma guids) × (new_throttler workers ≡ false))
    pub is_ok :
        (status_of w ≡ ok_code)
        ↔ (All IsGuidText (split comma guids) × (new_throttler workers ≡ true))
    pub header : (detect : Str → Str) → header_of detect w ≡ sniffed detect w.body

  ran_status :
      (works : List (Work Guid)) (w : ResponseWriter)
      → (run_works works empty_bundle >>= λ bundle. ok (
          encode
            (set_header (write_header new_writer ok_code) content_type application_json)
            (marshal bundle)))
        ≡ ok w
      → w.sent ≡ some (record { status = ok_code; header = [] })
  unfolding set_header write_header
  ran_status works w h =
      let (bundle, made, same) = >>=-eq-ok (run_works works empty_bundle) _ h in
      ground (
        arith,
        same,
        encode_keeps (set_header (write_header new_writer ok_code) content_type application_json)
            (record { status = ok_code; header = [] }) (marshal bundle) refl,
      )

  malformed-BulkStatusMeans :
      (workers : ℤ) (guids : Str) (w : ResponseWriter)
      → matches process_guid_pattern guids ≡ false
      → (status_of w ≡ bad_request) × (sent_header w ≡ [])
      → BulkStatusMeans workers guids w
  malformed-BulkStatusMeans workers guids w malformed (s, c) = record {
    is_bad_request = (λ _. bad, λ _. s);
    is_error = (λ e. absurd (omega arith), λ h. absurd (bad h.0));
    is_ok = (λ e. absurd (omega arith), λ h. absurd (bad h.0));
    header = λ detect. header_of-sniffed detect w c;
  }
    where
      bad : ¬ All IsGuidText (split comma guids)
      bad v = cc ((matches_iff_split guids).1 v)

  refused-BulkStatusMeans :
      (workers : ℤ) (guids : Str) (w : ResponseWriter)
      → matches process_guid_pattern guids ≡ true
      → new_throttler workers ≡ false
      → (status_of w ≡ internal_server_error) × (sent_header w ≡ [])
      → BulkStatusMeans workers guids w
  refused-BulkStatusMeans workers guids w valid refused (s, c) = record {
    is_bad_request =
        (λ e. absurd (omega arith), λ h. absurd (h ((matches_iff_split guids).0 valid)));
    is_error = (λ _. ((matches_iff_split guids).0 valid, refused), λ _. s);
    is_ok = (λ e. absurd (omega arith), λ h. absurd (cc (h.1)));
    header = λ detect. header_of-sniffed detect w c;
  }

  accepted-BulkStatusMeans :
      (workers : ℤ) (guids : Str) (w : ResponseWriter)
      → matches process_guid_pattern guids ≡ true
      → new_throttler workers ≡ true
      → (status_of w ≡ ok_code) × (sent_header w ≡ [])
      → BulkStatusMeans workers guids w
  accepted-BulkStatusMeans workers guids w valid accepted (s, c) = record {
    is_bad_request =
        (λ e. absurd (omega arith), λ h. absurd (h ((matches_iff_split guids).0 valid)));
    is_error = (λ e. absurd (omega arith), λ h. absurd (cc (h.1)));
    is_ok = (λ _. ((matches_iff_split guids).0 valid, accepted), λ _. s);
    header = λ detect. header_of-sniffed detect w c;
  }

  -- A bulk request that does not panic has status 400 exactly if the parameter is malformed, 500
  -- exactly if it is well-formed and the throttler refuses its number of workers, and 200 exactly if
  -- it is well-formed and the throttler accepts. No header that the handler sets reaches the client,
  -- since it is set after the status line: the client gets the Content-Type that net/http detects in
  -- the body, and none where there is no body.
  pub serve_http-BulkStatusMeans :
      (workers : ℤ) (guids : Str) (w : ResponseWriter)
      → serve_http new_throttler schedule marshal new_writer workers guids ≡ ok w
      → BulkStatusMeans workers guids w
  unfolding serve_http write_header
  serve_http-BulkStatusMeans workers guids w h =
      elim (Bool-cases (matches process_guid_pattern guids)) [
        | inr malformed ↦ malformed-BulkStatusMeans workers guids w malformed (ground arith)
        | inl valid ↦ elim (Bool-cases (new_throttler workers)) [
          | inl accepted ↦
              let sent = ran_status (schedule (split comma guids)) w (rw (valid, accepted) at h) in
              accepted-BulkStatusMeans workers guids w valid accepted (ground arith)
          | inr refused ↦ refused-BulkStatusMeans workers guids w valid refused (ground arith)
        ]
      ]
