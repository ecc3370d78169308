-- ===== src/CcClient/Deliver.antt =====
-- Where a report goes, and when it counts as delivered.
use mathlib.Core.Option
use tps.Base.{
  [], ◌∷◌, sym, ◌<◌, ◌^◌, ℕ, Str, bytes, Bool, true, none, some, ◌++◌, ◌≡◌, ◌≢◌, ◌↔◌, refl, ap, ◌∙◌,
  arith, All,
}
use tps.Decimal.{decimal, value_from, value_from-decimal}
use tps.Format.{percent, sprintf, sprintf-append}
use tps.Http.{ok_code}
use tps.Watcher.{AppCrashedRequest}
use tps.CcClient.{
  app_crashed_path, Client, new_cc_client, bad_response, Network, error_text, request_for, deliver,
  app_crashed,
}

-- The URL at which the Cloud Controller takes the crash of an app.
abbrev pub crashed_url : Str → Str → Str
crashed_url base_uri guid = base_uri ++ (bytes "/internal/apps/" ++ (guid ++ bytes "/crashed"))

path_of :
    (guid : Str)
    → sprintf app_crashed_path (some guid)
      ≡ some (bytes "/internal/apps/" ++ (guid ++ bytes "/crashed"))
unfolding sprintf
path_of guid = refl

-- For a base URI without percent signs, which the joiner puts in front of the path as it is, a report
-- that can be encoded goes as one request to /internal/apps/<guid>/crashed below the base, with the
-- credentials of the client.
pub app_crashed-eq-deliver :
    (net : Network) (join : Str → Str → Str) (base_uri username password guid payload : Str)
    (skip : Bool) (crash : AppCrashedRequest)
    → All (λ c. c ≢ percent) base_uri
    → join base_uri app_crashed_path ≡ base_uri ++ app_crashed_path
    → net.marshal crash ≡ some payload
    → let cc = new_cc_client join base_uri username password skip in
      app_crashed net cc guid crash ≡ some (deliver net cc (crashed_url base_uri guid) payload)
unfolding app_crashed new_cc_client
app_crashed-eq-deliver net join base_uri username password guid payload skip crash plain joined
      encoded =
    let url =
      ap (λ f. sprintf f (some guid)) joined
      ∙ sprintf-append base_uri app_crashed_path (some guid) plain
      ∙ ap (Option.map (◌++◌ base_uri)) (path_of guid) in
    ground (arith, url, encoded)

-- A report counts as delivered exactly if its URL is accepted and the answer to its one request has
-- status 200; any other status is returned in a BadResponseError.
pub deliver-none_iff :
    (net : Network) (cc : Client) (url payload : Str)
    → (((deliver net cc url payload).1 ≡ none) ↔ (
        (net.accepts_url url ≡ true) × (net.exchange (request_for cc url payload) ≡ some ok_code)))
      × ((code : ℕ)
          → ((deliver net cc url payload).1 ≡ some (bad_response code)) ↔ (
              (net.accepts_url url ≡ true)
              × (net.exchange (request_for cc url payload) ≡ some code)
              × (code ≢ ok_code)))
unfolding deliver
deliver-none_iff net cc url payload = (ground arith, λ code. ground arith)

same_tail : (prefix : Str) {s t : Str} → prefix ++ s ≡ prefix ++ t → s ≡ t
same_tail [] e = e
same_tail (c ∷ prefix) e = same_tail prefix (cc)

-- The text of a BadResponseError tells which status was answered: no two codes below 10 ^ 20, so no
-- two codes that an int holds, share a text.
error_text-injective :
    (code other : ℕ)
    → code < 10 ^ 20
    → other < 10 ^ 20
    → (error_text code ≡ error_text other) ↔ (code ≡ other)
unfolding error_text
error_text-injective code other c o = (
  λ h.
      sym (value_from-decimal code c)
      ∙ ap (value_from 0) (same_tail (bytes "Crashed response POST failed with ") h)
      ∙ value_from-decimal other o,
  λ e. ap (λ k. bytes "Crashed response POST failed with " ++ decimal k) e,
)
