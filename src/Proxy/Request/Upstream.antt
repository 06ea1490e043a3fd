-- ===== src/Proxy/Request/Upstream.antt =====
-- What `upstream_request_filter` sends to the upstream.
use kse_static_rewrite_proxy.Base.{
  true, [], ◌∷◌, List, ◌≡◌, refl, ◌∙◌, Each, Option, none, some, if-elim, if◌then◌else◌, Bool-cases,
  inl, inr,
}
use kse_static_rewrite_proxy.Slice.{Bytes, bytes}
use kse_static_rewrite_proxy.Slice.Text.{all_bytes}
use kse_static_rewrite_proxy.Config.{EffectiveConfig}
use kse_static_rewrite_proxy.Policy.{RewriteProfile, RewriteDecision, bypass, rewrite}
use kse_static_rewrite_proxy.Http.{
  HeaderName, x_request_id, accept_encoding, if_none_match, if_modified_since, if_range, range,
  all_visible,
}
use kse_static_rewrite_proxy.Proxy.{RequestContext}
use kse_static_rewrite_proxy.Proxy.ApiUri.{api_uri_with_base_path}
use kse_static_rewrite_proxy.Proxy.ApiUri.Claims.{sent_uri}
use kse_static_rewrite_proxy.Proxy.Media.{
  selects_html_by_response_content_type, should_force_unconditional_full_response,
}
use kse_static_rewrite_proxy.Proxy.Session.{Libraries, ok, RequestHeader}
use kse_static_rewrite_proxy.Proxy.Request.{
  without_conditions, moved_to, for_decision, upstream_request_filter,
}
use kse_static_rewrite_proxy.Proxy.ResponseFilter.{remove_headers}
use kse_static_rewrite_proxy.Proxy.ResponseFilter.Headers.{
  IsBeside, IsGone, IsKept, remove_headers-all, remove_headers-IsKept,
}

abbrev pub conditions : List HeaderName
conditions = if_none_match ∷ if_modified_since ∷ range ∷ if_range ∷ []

-- A profile that is chosen by the path needs the whole response.
abbrev pub dropped : RewriteProfile → List HeaderName
dropped profile = if selects_html_by_response_content_type profile then [] else conditions

-- The headers that the filter may change.
abbrev pub changed : RewriteDecision → List HeaderName
changed bypass = x_request_id ∷ []
changed (rewrite profile extension head_only) = x_request_id ∷ accept_encoding ∷ dropped profile

dropped-IsBeside :
    (profile : RewriteProfile) (name : HeaderName)
    → IsBeside conditions name
    → IsBeside (dropped profile) name
dropped-IsBeside profile name h =
    if-elim (λ names. IsBeside names name) (selects_html_by_response_content_type profile) []
      conditions (λ _. tt) (λ _. h)

x_request_id-IsBeside : IsBeside conditions x_request_id
x_request_id-IsBeside = (λ h. cc, (λ h. cc, (λ h. cc, (λ h. cc, tt))))

accept_encoding-IsBeside : IsBeside conditions accept_encoding
accept_encoding-IsBeside = (λ h. cc, (λ h. cc, (λ h. cc, (λ h. cc, tt))))

module _ (l : Libraries) (config : EffectiveConfig) where
  -- No encoding is accepted but identity, and the conditions are gone.
  abbrev pub IsPlain : RewriteDecision → l.http.HeaderMap → Type 0
  IsPlain bypass after = Unit {0}
  IsPlain (rewrite profile extension head_only) after =
      (l.http.get_all accept_encoding after ≡ bytes "identity" ∷ [])
      × Each (IsGone l after) (dropped profile)

  pub record Asks (d : RewriteDecision) (id : Bytes) (before after : l.http.HeaderMap)
      : Type 0 where
    pub named : l.http.get_all x_request_id after ≡ id ∷ []
    pub plain : IsPlain d after
    pub beside : (name : HeaderName) → IsBeside (changed d) name → IsKept l before after name

  without_conditions-eq :
      (profile : RewriteProfile) (headers : l.http.HeaderMap)
      → without_conditions l config (should_force_unconditional_full_response profile) headers
        ≡ remove_headers l (dropped profile) headers
  unfolding remove_headers should_force_unconditional_full_response
  without_conditions-eq profile headers =
      elim (Bool-cases (selects_html_by_response_content_type profile)) [
        | inl html ↦ rw html refl
        | inr text ↦ rw text refl
      ]

  -- The part behind the identifier and the URI.
  abbrev Sends : RewriteDecision → Bytes → l.http.HeaderMap → RequestHeader l → Type 0
  Sends d id before request =
      (after : l.http.HeaderMap) × (for_decision l config d request
        ≡ (ok tt, record request { headers = after }))
      × Asks d id before after

  for_decision-Sends :
      (d : RewriteDecision) (id : Bytes) (before : l.http.HeaderMap) (request : RequestHeader l)
      → l.http.insert_header x_request_id id before ≡ some request.headers
      → Sends d id before request
  for_decision-Sends bypass id before request e = (
    request.headers,
    refl,
    record {
      named = l.http.inserted x_request_id id before request.headers e;
      plain = tt;
      beside = λ name h. l.http.inserted_beside x_request_id name id before request.headers e h.0;
    },
  )
  for_decision-Sends (rewrite profile extension head_only) id before request e =
      let (plain, f) =
        l.http.inserts accept_encoding (bytes "identity") request.headers
          (unfold all_bytes in refl) in
      let kept = λ (name : HeaderName) (h : IsBeside (dropped profile) name).
        remove_headers-IsKept l (dropped profile) plain name h in
      (
        remove_headers l (dropped profile) plain,
        rw (f, without_conditions-eq profile plain) refl,
        record {
          named =
              kept x_request_id (dropped-IsBeside profile x_request_id x_request_id-IsBeside)
              ∙ l.http.inserted_beside accept_encoding x_request_id (bytes "identity")
                  request.headers plain f (λ h. cc)
              ∙ l.http.inserted x_request_id id before request.headers e;
          plain = (
            kept accept_encoding (dropped-IsBeside profile accept_encoding accept_encoding-IsBeside)
                ∙ l.http.inserted accept_encoding (bytes "identity") request.headers plain f,
            remove_headers-all l (dropped profile) plain,
          );
          beside = λ name h.
              kept name h.1.1
              ∙ l.http.inserted_beside accept_encoding name (bytes "identity") request.headers plain
                  f h.1.0
              ∙ l.http.inserted_beside x_request_id name id before request.headers e h.0;
        },
      )

  moved-eq :
      (request : RequestHeader l) (moved : Option l.uris.Uri)
      → moved_to l config request moved ≡ record request { uri = sent_uri l.uris request.uri moved }
  moved-eq request none = refl
  moved-eq request (some uri) = refl

  -- For a request whose identifier is visible ASCII and a URI that is not refused: the request goes
  -- upstream with its method, the URI moved below the base path where that is due, and its identifier.
  -- If it was selected it accepts no encoding, and has no conditions if its profile is chosen by the
  -- path. Every other header is as the client sent it.
  pub upstream_request_filter-Asks :
      (ctx : RequestContext) (request : RequestHeader l) (moved : Option l.uris.Uri)
      → all_visible ctx.request_id ≡ true
      → api_uri_with_base_path l.uris request.uri config.base_path ≡ some moved
      → (headers : l.http.HeaderMap) × (upstream_request_filter l config ctx request ≡ (
        ok tt,
        record {
          method = request.method;
          uri = sent_uri l.uris request.uri moved;
          headers = headers;
        },
      ))
        × Asks ctx.decision ctx.request_id request.headers headers
  unfolding upstream_request_filter
  upstream_request_filter-Asks ctx request moved shown accepted =
      let (named, e) = l.http.inserts x_request_id ctx.request_id request.headers shown in
      let sent : RequestHeader l = record {
        method = request.method;
        uri = sent_uri l.uris request.uri moved;
        headers = named;
      } in
      let (after, f, asks) =
        for_decision-Sends ctx.decision ctx.request_id request.headers sent e in
      (after, rw (e, accepted, moved-eq (record request { headers = named }) moved) f, asks)
