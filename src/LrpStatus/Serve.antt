-- ===== src/LrpStatus/Serve.antt =====
-- The endpoint /v1/actual_lrps/:guid, branch by branch.
use tps.Base.{
  Str, Option, none, some, List, ◌≡◌, ◌↔◌, ◌⊎◌, inl, inr, refl, arith, ok, panics, ◌>>=◌,
  Option-cases, >>=-eq-ok, sym, ◌∙◌,
}
use tps.Pod.{Pod}
use tps.Api.{Env, Listing, KubeError, process_guid_label}
use tps.Http.{
  ResponseWriter, new_writer, status_of, write_header, encode, internal_server_error, ok_code,
}
use tps.LrpStatus.{lrp_instances, serve_http}

module _ {Guid : Type 0} (env : Env Guid) where
  -- What the pods of a guid are, as the Kubernetes API answers for the guid's short form.
  abbrev pub listing_of : Guid → Listing
  listing_of pg = env.list process_guid_label (env.guids.shortened_guid pg)

  -- The request cannot be answered: its guid is malformed, or the listing fails.
  abbrev pub Fails : Str → Type 0
  Fails guid =
      (env.guids.new_process_guid guid ≡ none)
      ⊎ ((pg : Guid) × (e : KubeError) × (env.guids.new_process_guid guid ≡ some pg)
          × ((listing_of pg).error ≡ some e))

  -- The pods of a well-formed guid were listed.
  abbrev pub Lists : Str → List Pod → Type 0
  Lists guid pods =
      (pg : Guid) × (env.guids.new_process_guid guid ≡ some pg)
      × ((listing_of pg).error ≡ none)
      × ((listing_of pg).pods ≡ some pods)

  -- How a request can go: it fails, its pods are listed, or the client returns no list and no error.
  Outcome : Str → Type 0
  Outcome guid =
      Fails guid
      ⊎ ((pods : List Pod) × Lists guid pods)
      ⊎ ((pg : Guid) × (env.guids.new_process_guid guid ≡ some pg)
          × ((listing_of pg).error ≡ none)
          × ((listing_of pg).pods ≡ none))

  outcome : (guid : Str) → Outcome guid
  unfolding Outcome
  outcome guid = elim (Option-cases (env.guids.new_process_guid guid)) [
    | inl malformed ↦ inl (inl malformed)
    | inr (pg, valid) ↦ elim (Option-cases (listing_of pg).error) [
      | inr (e, failed) ↦ inl (inr (pg, e, valid, failed))
      | inl fine ↦ elim (Option-cases (listing_of pg).pods) [
        | inl nil ↦ inr (inr (pg, valid, fine, nil))
        | inr (pods, listed) ↦ inr (inl (pods, (pg, valid, fine, listed)))
      ]
    ]
  ]

  Fails-not-Lists : (guid : Str) (pods : List Pod) → Fails guid → ¬ Lists guid pods
  Fails-not-Lists guid pods (inl malformed) (pg, valid, fine, listed) = cc
  Fails-not-Lists guid pods (inr (pg, e, valid, failed)) (pg', valid', fine, listed) = ground arith

  serve_http-Fails :
      (guid : Str)
      → Fails guid
      → (serve_http env new_writer guid).1 ≡ ok (write_header new_writer internal_server_error)
  unfolding serve_http
  serve_http-Fails guid (inl e) = ground arith
  serve_http-Fails guid (inr (pg, e, valid, failed)) = ground arith

  -- Where the pods of the guid were listed, the answer is the encoding of their instances; if making
  -- the instances panics, so does the request.
  pub serve_http-Lists :
      (guid : Str) (pods : List Pod)
      → Lists guid pods
      → (serve_http env new_writer guid).1
        ≡ (lrp_instances env pods >>= λ xs. ok (encode new_writer (env.marshal xs)))
  unfolding serve_http
  serve_http-Lists guid pods (pg, valid, fine, listed) = ground arith

  encode-status : (text : Option Str) → status_of (encode new_writer text) ≡ ok_code
  unfolding encode
  encode-status none = refl
  encode-status (some text) = refl

  status_of-Fails :
      (guid : Str) (w : ResponseWriter)
      → Fails guid
      → (serve_http env new_writer guid).1 ≡ ok w
      → status_of w ≡ internal_server_error
  unfolding write_header
  status_of-Fails guid w fails answered = ground (arith, serve_http-Fails guid fails)

  status_of-Lists :
      (guid : Str) (pods : List Pod) (w : ResponseWriter)
      → Lists guid pods
      → (serve_http env new_writer guid).1 ≡ ok w
      → status_of w ≡ ok_code
  status_of-Lists guid pods w lists answered =
      let (xs, made, same) =
        >>=-eq-ok (lrp_instances env pods) (λ xs. ok (encode new_writer (env.marshal xs)))
          (sym (serve_http-Lists guid pods lists) ∙ answered) in
      ground (arith, same, encode-status (env.marshal xs))

  nothing_listed :
      (guid : Str) (pg : Guid)
      → env.guids.new_process_guid guid ≡ some pg
      → (listing_of pg).error ≡ none
      → (listing_of pg).pods ≡ none
      → (serve_http env new_writer guid).1 ≡ panics
  unfolding serve_http
  nothing_listed guid pg valid fine nil = ground arith

  -- A request that is answered, and does not panic, has status 500 exactly if its guid is malformed or
  -- the listing fails, and status 200 exactly if its pods were listed.
  pub serve_http-status_iff :
      (guid : Str) (w : ResponseWriter)
      → (serve_http env new_writer guid).1 ≡ ok w
      → ((status_of w ≡ internal_server_error) ↔ Fails guid)
        × ((status_of w ≡ ok_code) ↔ ((pods : List Pod) × Lists guid pods))
  unfolding Outcome
  serve_http-status_iff guid w answered = elim (outcome guid) [
    | inl fails ↦
        let status = status_of-Fails guid w fails answered in
        (
          (λ _. fails, λ _. status),
          (
            λ e. absurd (omega arith),
            λ (pods, lists). absurd (Fails-not-Lists guid pods fails lists),
          ),
        )
    | inr (inl (pods, lists)) ↦
        let status = status_of-Lists guid pods w lists answered in
        (
          (λ e. absurd (omega arith), λ fails. absurd (Fails-not-Lists guid pods fails lists)),
          (λ _. (pods, lists), λ _. status),
        )
    | inr (inr (pg, valid, fine, nil)) ↦ absurd (cc (nothing_listed guid pg valid fine nil))
  ]
