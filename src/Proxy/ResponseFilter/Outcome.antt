-- ===== src/Proxy/ResponseFilter/Outcome.antt =====
-- How `response_filter` ends for a request that was selected.
use kse_static_rewrite_proxy.Base.{
  Bool, true, false, ◌≡◌, ◌⊎◌, inl, inr, refl, Option, none, some, if◌then◌else◌, arith, Bool-cases,
  ◌==◌,
}
use kse_static_rewrite_proxy.Slice.{Bytes, bytes}
use kse_static_rewrite_proxy.Slice.Text.{all_bytes}
use kse_static_rewrite_proxy.Config.{EffectiveConfig}
use kse_static_rewrite_proxy.Http.{
  x_request_id, content_type, content_encoding, accept_ranges, cache_control, etag, all_visible,
}
use kse_static_rewrite_proxy.Policy.{RewriteProfile, RewriteDecision, bypass, rewrite}
use kse_static_rewrite_proxy.Proxy.{RequestContext}
use kse_static_rewrite_proxy.Proxy.Etag.{derive_etag, reliable_etag, if_none_match_matches}
use kse_static_rewrite_proxy.Proxy.Etag.Matches.{derive_etag-visible}
use kse_static_rewrite_proxy.Proxy.Media.{
  is_rewritable_content_type, selects_html_by_response_content_type, is_identity_encoding,
}
use kse_static_rewrite_proxy.Proxy.Vary.Claims.{ensure_vary_accept_encoding-Varies}
use kse_static_rewrite_proxy.Proxy.Session.{
  Libraries, Result, ok, err, invalid_header, http_status, ResponseHeader, Exchange,
}
use kse_static_rewrite_proxy.Proxy.ResponseFilter.{
  stale_headers, get_or_empty, remove_headers, derived_etag, not_modified, validate,
  rewrite_headers, filter_selected, filter_by_decision, response_filter, stop_rewrite, State,
}
use kse_static_rewrite_proxy.Proxy.ResponseFilter.Headers.{
  Cleans, Prepares, prepared, tagged-Cleans, untagged-Cleans,
}

module _ (l : Libraries) (config : EffectiveConfig) where
  derived_etag-visible :
      (ctx : RequestContext) (o : Option Bytes) (tag : Bytes)
      → derived_etag l config ctx o ≡ some tag
      → all_visible tag ≡ true
  unfolding derived_etag
  derived_etag-visible ctx none tag e = cc
  derived_etag-visible ctx (some value) tag e = go (reliable_etag value) e
    where
      go :
          (o : Option Bytes)
          → (elim o as (λ _. Option Bytes) [
            | none ↦ none
            | some t ↦ some (derive_etag l.digest t config.base_path (get_or_empty ctx.extension))
          ])
            ≡ some tag
          → all_visible tag ≡ true
      go none e = cc
      go (some t) e =
          let same : derive_etag l.digest t config.base_path (get_or_empty ctx.extension) ≡ tag =
            ground arith in
          rw (← same) (derive_etag-visible l.digest t config.base_path (get_or_empty ctx.extension))

  -- The response goes on with a rewriter, or the client has it already.
  abbrev pub Ends :
      Exchange l → ResponseHeader l → Option Bytes → Result (Unit {0}) × State l config → Type 0
  Ends x response tag result =
      (result ≡ (ok tt, (response, x)))
      ⊎ ((derived : Bytes) × (tag ≡ some derived)
          × (if_none_match_matches l.http x.ctx.client_if_none_match derived ≡ true)
          × (result ≡ (ok tt, not_modified l config x response)))

  -- Its headers are cleaned.
  abbrev pub Heads :
      Exchange l → ResponseHeader l → Option Bytes → Result (Unit {0}) × State l config → Type 0
  Heads x response tag result =
      (headers : l.http.HeaderMap) × Cleans l tag response.headers headers
      × Ends x (record response { headers = headers }) tag result

  validate-Heads :
      (tag : Option Bytes) (x : Exchange l) (response : ResponseHeader l)
      (varied : l.http.HeaderMap)
      → ((derived : Bytes) → tag ≡ some derived → all_visible derived ≡ true)
      → Prepares l response.headers varied
      → Heads x response tag (validate l config tag (record response { headers = varied }, x))
  unfolding validate
  validate-Heads none x response varied shown p =
      let (after, e) =
        l.http.inserts cache_control (bytes "no-store") (l.http.remove_header etag varied)
          (unfold all_bytes in refl) in
      (after, untagged-Cleans l response.headers varied after p e, rw e (inl refl))
  validate-Heads (some tag) x response varied shown p =
      let (after, e) = l.http.inserts etag tag varied (shown tag refl) in
      (
        after,
        tagged-Cleans l tag response.headers varied after p e,
        elim (Bool-cases (if_none_match_matches l.http x.ctx.client_if_none_match tag)) [
          | inl asked ↦ inr (tag, refl, asked, rw (e, asked) refl)
          | inr other ↦ inl (rw (e, other) refl)
        ],
      )

  abbrev pub tag_of : Exchange l → ResponseHeader l → Option Bytes
  tag_of x response = derived_etag l config x.ctx (l.http.get etag response.headers)

  -- The call never fails.
  pub rewrite_headers-Heads :
      (x : Exchange l) (response : ResponseHeader l)
      → Heads x response (tag_of x response) (rewrite_headers l config (response, x))
  unfolding rewrite_headers
  rewrite_headers-Heads x response =
      let bare = remove_headers l stale_headers response.headers in
      let (whole, e) =
        l.http.inserts accept_ranges (bytes "none") bare (unfold all_bytes in refl) in
      let (varied, f, v, again) = ensure_vary_accept_encoding-Varies l.http whole in
      rw (e, f)
        (validate-Heads (tag_of x response) x response varied
          (λ derived same.
            derived_etag-visible x.ctx (l.http.get etag response.headers) derived same)
          (prepared l response.headers whole varied e v))

  -- The response is left as it is and the rewriter stops; the call succeeds only if the status is not
  -- 200 or the profile goes by the content type.
  abbrev pub Stops :
      RewriteProfile → Exchange l → ResponseHeader l → Result (Unit {0}) × State l config → Type 0
  Stops profile x response result =
      (outcome : Bytes) × (result.1 ≡ (response, stop_rewrite l x outcome))
      × (result.0 ≡ ok tt
          → ((response.status == 200) ≡ false)
            ⊎ (selects_html_by_response_content_type profile ≡ true))

  -- A response with status 200, a content type of the profile and no encoding is rewritten; any other
  -- stops the rewriter.
  abbrev pub Selects :
      RewriteProfile → Exchange l → ResponseHeader l → Result (Unit {0}) × State l config → Type 0
  Selects profile x response result =
      Stops profile x response result
      ⊎ (((response.status == 200) ≡ true)
          × (is_rewritable_content_type l.http profile (l.http.get content_type response.headers)
              ≡ true)
          × (is_identity_encoding l.http (l.http.get content_encoding response.headers) ≡ true)
          × Heads x response (tag_of x response) result)

  html_or_error :
      (html : Bool)
      → ◌≡◌ {A = Result (Unit {0})} (if html then ok tt else err (http_status 502)) (ok tt)
      → html ≡ true
  html_or_error true e = refl
  html_or_error false e = cc

  pub filter_selected-Selects :
      (profile : RewriteProfile) (x : Exchange l) (response : ResponseHeader l)
      → Selects profile x response (filter_selected l config profile (response, x))
  unfolding filter_selected
  filter_selected-Selects profile x response = elim (Bool-cases (response.status == 200)) [
    | inr status ↦ rw status (inl (bytes "upstream_status_bypass", refl, λ e. inl refl))
    | inl status ↦
        elim (Bool-cases
          (is_rewritable_content_type l.http profile (l.http.get content_type response.headers))) [
            | inr kind ↦
                rw (status, kind)
                  (inl (
                    bytes "invalid_content_type",
                    refl,
                    λ e. inr (html_or_error (selects_html_by_response_content_type profile) e),
                  ))
            | inl kind ↦
                elim (Bool-cases
                  (is_identity_encoding l.http (l.http.get content_encoding response.headers))) [
                    | inr encoded ↦
                        rw (status, kind, encoded)
                          (inl (bytes "unexpected_content_encoding", refl, λ e. cc))
                    | inl plain ↦
                        rw (status, kind, plain)
                          (inr (refl, refl, refl, rewrite_headers-Heads x response))
                  ]
          ]
  ]

  -- The same for any decision; nothing is done to a response that was not selected.
  abbrev pub Filters :
      RewriteDecision → Exchange l → ResponseHeader l → Result (Unit {0}) × State l config → Type 0
  Filters bypass x response result = result ≡ (ok tt, (response, x))
  Filters (rewrite profile extension head_only) x response result =
      Selects profile x response result

  filter_by_decision-Filters :
      (d : RewriteDecision) (x : Exchange l) (response : ResponseHeader l)
      → Filters d x response (filter_by_decision l config d (response, x))
  filter_by_decision-Filters bypass x response = refl
  filter_by_decision-Filters (rewrite profile extension head_only) x response =
      filter_selected-Selects profile x response

  -- The header `x-request-id` is put in first; where it is refused, so is the response.
  abbrev pub Names :
      RewriteDecision → Exchange l → ResponseHeader l → Result (Unit {0}) × State l config → Type 0
  Names d x response result =
      (result ≡ (err invalid_header, (response, x)))
      ⊎ ((headers : l.http.HeaderMap) × (l.http.insert_header x_request_id x.ctx.request_id
              response.headers
            ≡ some headers)
          × Filters d x (record response { headers = headers }) result)

  pub response_filter-Names :
      (d : RewriteDecision) (x : Exchange l) (response : ResponseHeader l)
      → x.ctx.decision ≡ d
      → Names d x response (response_filter l config (response, x))
  unfolding response_filter
  response_filter-Names d x response same =
      go (l.http.insert_header x_request_id x.ctx.request_id response.headers) refl
    where
      go :
          (o : Option l.http.HeaderMap)
          → l.http.insert_header x_request_id x.ctx.request_id response.headers ≡ o
          → Names d x response (response_filter l config (response, x))
      go none e = rw e (inl refl)
      go (some headers) e =
          rw (e, ← same)
            (inr (
              headers,
              refl,
              filter_by_decision-Filters x.ctx.decision x (record response { headers = headers }),
            ))
