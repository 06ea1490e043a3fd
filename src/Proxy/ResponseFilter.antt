-- ===== src/Proxy/ResponseFilter.antt =====
-- src/proxy.rs: `response_filter` with `stop_rewrite`, and `logging`.
pub mod Headers
pub mod Outcome
pub mod Refused
use kse_static_rewrite_proxy.Base.{
  ℕ, ◌+◌, Bool, true, false, not, ◌&&◌, List, [], ◌∷◌, Option, none, some, ◌==◌, ltb, if◌then◌else◌,
}
use kse_static_rewrite_proxy.Slice.{Bytes, bytes}
use kse_static_rewrite_proxy.Config.{EffectiveConfig, rewrite_policy}
use kse_static_rewrite_proxy.Policy.{RewriteProfile, RewriteDecision, bypass, rewrite}
use kse_static_rewrite_proxy.Policy.Decide.{metrics_extension_label}
use kse_static_rewrite_proxy.Http.{
  HeaderName, x_request_id, content_type, content_encoding, content_length, content_md5,
  content_digest, content_range, repr_digest, digest, last_modified, accept_ranges, cache_control,
  etag,
}
use kse_static_rewrite_proxy.Proxy.{RequestContext, take_permit}
use kse_static_rewrite_proxy.Proxy.Etag.{derive_etag, reliable_etag, if_none_match_matches}
use kse_static_rewrite_proxy.Proxy.Media.{
  is_rewritable_content_type, selects_html_by_response_content_type, is_identity_encoding,
}
use kse_static_rewrite_proxy.Proxy.Vary.{ensure_vary_accept_encoding}
use kse_static_rewrite_proxy.Proxy.Session.{
  Libraries, Result, ok, err, or_fail, http_status, invalid_header, ResponseHeader, Exchange,
  Counter, disable_compression,
}

-- The headers that are taken out of a response that is rewritten.
abbrev pub stale_headers : List HeaderName
stale_headers =
    content_length ∷ content_encoding ∷ content_md5 ∷ content_digest ∷ repr_digest ∷ digest
    ∷ content_range ∷ last_modified ∷ accept_ranges ∷ []

abbrev pub get_or_empty : Option Bytes → Bytes
get_or_empty none = []
get_or_empty (some text) = text

module _ (l : Libraries) where
  unfoldable pub stop_rewrite : Exchange l → Bytes → Exchange l
  stop_rewrite x outcome =
      let stopped = record (x.ctx) { rewriter = none; outcome = outcome } in
      let (admission, ctx) = take_permit l.sem x.admission stopped in
      record x { session = disable_compression l x.session; ctx = ctx; admission = admission }

  unfoldable pub remove_headers : List HeaderName → l.http.HeaderMap → l.http.HeaderMap
  remove_headers [] headers = headers
  remove_headers (name ∷ names) headers = remove_headers names (l.http.remove_header name headers)

module _ (l : Libraries) (config : EffectiveConfig) where
  -- The tag for a rewritten response, from a reliable tag of upstream.
  unfoldable pub derived_etag : RequestContext → Option Bytes → Option Bytes
  derived_etag ctx none = none
  derived_etag ctx (some value) = elim (reliable_etag value) [
    | none ↦ none
    | some tag ↦ some (derive_etag l.digest tag config.base_path (get_or_empty ctx.extension))
  ]

  -- The client has the response: it is told so, and the body is not sent.
  abbrev pub not_modified : Exchange l → ResponseHeader l → ResponseHeader l × Exchange l
  not_modified x response = (
    record { status = 304; headers = l.http.remove_header content_type response.headers },
    stop_rewrite l (record x { ctx = record (x.ctx) { suppress_body = true; rewriter = none } })
        (bytes "not_modified"),
  )

  abbrev pub State : Type 0
  State = ResponseHeader l × Exchange l

  -- The tag, if there is one, and whether the client has it; else the response is not to be stored.
  unfoldable pub validate : Option Bytes → State → Result (Unit {0}) × State
  validate none (response, x) =
      or_fail
        (l.http.insert_header cache_control (bytes "no-store")
          (l.http.remove_header etag response.headers))
        invalid_header (record response { headers = l.http.remove_header etag response.headers }, x)
        λ headers. (ok tt, (record response { headers = headers }, x))
  validate (some tag) (response, x) =
      or_fail (l.http.insert_header etag tag response.headers) invalid_header (response, x)
        λ headers.
          let tagged = record response { headers = headers } in
          (
            ok tt,
            if if_none_match_matches l.http x.ctx.client_if_none_match tag
                then not_modified x tagged
                else (tagged, x),
          )

  -- The headers of a response that is rewritten.
  unfoldable pub rewrite_headers : State → Result (Unit {0}) × State
  rewrite_headers (response, x) =
      let tag = derived_etag x.ctx (l.http.get etag response.headers) in
      let bare = remove_headers l stale_headers response.headers in
      or_fail (l.http.insert_header accept_ranges (bytes "none") bare) invalid_header
        (record response { headers = bare }, x)
        λ whole.
          or_fail (ensure_vary_accept_encoding l.http whole) invalid_header
            (record response { headers = whole }, x)
            λ varied. validate tag (record response { headers = varied }, x)

  -- The checks of a response to a request that was selected, in order.
  unfoldable pub filter_selected : RewriteProfile → State → Result (Unit {0}) × State
  filter_selected profile (response, x) =
      if not (response.status == 200)
      then (ok tt, (response, stop_rewrite l x (bytes "upstream_status_bypass")))
      else if not
          (is_rewritable_content_type l.http profile (l.http.get content_type response.headers))
      then (
        if selects_html_by_response_content_type profile then ok tt else err (http_status 502),
        (response, stop_rewrite l x (bytes "invalid_content_type")),
      )
      else if not (is_identity_encoding l.http (l.http.get content_encoding response.headers))
      then (
        err (http_status 502),
        (response, stop_rewrite l x (bytes "unexpected_content_encoding")),
      )
      else rewrite_headers (response, x)

  abbrev pub filter_by_decision : RewriteDecision → State → Result (Unit {0}) × State
  filter_by_decision bypass state = (ok tt, state)
  filter_by_decision (rewrite profile extension head_only) state = filter_selected profile state

  unfoldable pub response_filter : State → Result (Unit {0}) × State
  response_filter (response, x) =
      or_fail (l.http.insert_header x_request_id x.ctx.request_id response.headers) invalid_header
        (response, x)
        λ headers. filter_by_decision x.ctx.decision (record response { headers = headers }, x)

  -- The label of the metrics.
  abbrev pub metrics_label : RewriteDecision → Option Bytes → Bytes
  metrics_label bypass extension = bytes "none"
  metrics_label (rewrite profile named head_only) none = bytes "none"
  metrics_label (rewrite profile named head_only) (some extension) =
      metrics_extension_label (rewrite_policy config) profile extension

  abbrev pub inc_by {ℓ} : {Label : Type ℓ} → Label → ℕ → List (Label × ℕ) → List (Label × ℕ)
  inc_by label n counter = (label, n) ∷ counter

  -- `logging` but for the line that it logs; `failed` if there was an error.
  unfoldable pub logging : Bool → Exchange l → Exchange l
  logging failed x =
      let (admission, ctx) = take_permit l.sem x.admission x.ctx in
      let label = metrics_label ctx.decision ctx.extension in
      let outcome = if failed then bytes "error" else ctx.outcome in
      let counted = record (x.metrics) {
        requests = inc_by (outcome, label) 1 x.metrics.requests;
        duration = outcome ∷ x.metrics.duration;
      } in
      record x {
        ctx = ctx;
        admission = admission;
        metrics =
            if ltb 0 ctx.input_bytes
            then record counted {
              rewrite_input_bytes = inc_by label ctx.input_bytes counted.rewrite_input_bytes;
              rewrite_output_bytes = inc_by label ctx.output_bytes counted.rewrite_output_bytes;
            }
            else counted;
      }
