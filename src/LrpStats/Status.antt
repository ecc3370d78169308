-- ===== src/LrpStats/Status.antt =====
-- Which status the stats endpoint answers with, and when it calls another system.
use tps.Base.{
  ℕ, ◌==◌, Str, str_eq_iff, Option, none, some, List, [], ◌∷◌, map, ◌≡◌, ◌≢◌, ◌↔◌, ◌⊎◌, refl, arith,
  ok, >>=-eq-ok, if◌then◌else◌,
}
use mathlib.Core.Option
use tps.Pod.{Pod}
use tps.Api.{Env, KubeError, status_error, Listing, process_guid_label}
use tps.Http.{
  ResponseWriter, new_writer, write_header, set_header, content_type, application_json, ok_code,
  bad_request, unauthorized, not_found, internal_server_error,
}
use tps.Http.Laws.{encode_keeps}
use tps.LrpStatus.{lrp_instances}
use tps.LrpStats.{response_code_from_error, clear_crashed, later, respond_instances, serve_http}

module _ {Guid : Type 0} (env : Env Guid) where
  abbrev pub listing_of : Guid → Listing
  listing_of pg = env.list process_guid_label (env.guids.shortened_guid pg)

  -- The request has a token and a well-formed guid, for which the client returned this.
  pub record Asks (authorization guid : Str) (error : Option KubeError) (pods : Option (List Pod))
      : Type 0 where
    pub token : authorization ≢ []
    pub named : guid ≢ []
    pub pg : Guid
    pub valid : env.guids.new_process_guid guid ≡ some pg
    pub error_is : (listing_of pg).error ≡ error
    pub pods_is : (listing_of pg).pods ≡ pods

  -- What a request comes to.
  data Verdict (authorization guid : Str) : Type 0 where
    no_token : authorization ≡ [] → Verdict authorization guid
    no_guid : authorization ≢ [] → guid ≡ [] → Verdict authorization guid
    malformed :
        authorization ≢ []
        → guid ≢ []
        → env.guids.new_process_guid guid ≡ none
        → Verdict authorization guid
    asks :
        (error : Option KubeError) (pods : Option (List Pod))
        → Asks authorization guid error pods
        → Verdict authorization guid

  pub respond_instances-sent :
      (log_guid authorization : Str) (pods : List Pod) (w : ResponseWriter)
      → respond_instances env new_writer log_guid authorization pods ≡ ok w
      → w.sent ≡ some (record { status = ok_code; header = [] })
  unfolding respond_instances set_header write_header
  respond_instances-sent log_guid authorization pods w h =
      let (xs, made, same) = >>=-eq-ok (lrp_instances (later env) pods) _ h in
      ground (
        arith,
        same,
        encode_keeps (set_header (write_header new_writer ok_code) content_type application_json)
            (record { status = ok_code; header = [] })
            (env.marshal (Option.map (map (clear_crashed env.states)) xs)) refl,
      )

  -- The status for a listing.
  code_for : Option KubeError → Option (List Pod) → ℕ
  code_for error (some []) =
      if response_code_from_error error == not_found then not_found else internal_server_error
  code_for (some _) none = internal_server_error
  code_for (some _) (some (_ ∷ _)) = internal_server_error
  code_for none none = internal_server_error
  code_for none (some (_ ∷ _)) = ok_code

  code_of : {authorization guid : Str} → Verdict authorization guid → ℕ
  code_of (no_token _) = unauthorized
  code_of (no_guid _ _) = bad_request
  code_of (malformed _ _ _) = internal_server_error
  code_of (asks error pods _) = code_for error pods

  -- What each status means.
  pub record StatusMeans (authorization guid : Str) (code : ℕ) : Type 0 where
    pub is_unauthorized : (code ≡ unauthorized) ↔ (authorization ≡ [])
    pub is_bad_request : (code ≡ bad_request) ↔ ((authorization ≢ []) × (guid ≡ []))
    pub is_not_found :
        (code ≡ not_found) ↔ Asks authorization guid (some (status_error not_found)) (some [])
    pub is_ok :
        (code ≡ ok_code)
        ↔ ((p : Pod) × (ps : List Pod) × Asks authorization guid none (some (p ∷ ps)))

  -- Without a token, or without a guid, no other system is called.
  serve_http-no_calls :
      (authorization guid : Str)
      → (authorization ≡ []) ⊎ (guid ≡ [])
      → (serve_http env new_writer authorization guid).0 ≡ []
  unfolding serve_http
  serve_http-no_calls authorization guid h =
      ground (arith, str_eq_iff authorization [], str_eq_iff guid [])
