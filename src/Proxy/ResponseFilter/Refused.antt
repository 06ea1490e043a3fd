-- ===== src/Proxy/ResponseFilter/Refused.antt =====
-- Which responses `response_filter` refuses.
use kse_static_rewrite_proxy.Base.{true, false, ◌≡◌, ◌⊎◌, inl, inr, refl, none, Bool-cases, ◌==◌}
use kse_static_rewrite_proxy.Slice.{Bytes}
use kse_static_rewrite_proxy.Config.{EffectiveConfig}
use kse_static_rewrite_proxy.Http.{content_type, content_encoding}
use kse_static_rewrite_proxy.Policy.{RewriteProfile, RewriteDecision, bypass, rewrite}
use kse_static_rewrite_proxy.Proxy.{RequestContext, Admission, take_permit}
use kse_static_rewrite_proxy.Proxy.Media.{
  is_rewritable_content_type, selects_html_by_response_content_type, is_identity_encoding,
}
use kse_static_rewrite_proxy.Proxy.Session.{
  Libraries, Result, ok, err, http_status, ResponseHeader, Exchange,
}
use kse_static_rewrite_proxy.Proxy.ResponseFilter.{stop_rewrite, State}

module _ (l : Libraries) (config : EffectiveConfig) where
  take_permit-ctx :
      (a : Admission l.sem) (ctx : RequestContext)
      → (take_permit l.sem a ctx).1 ≡ record ctx { active_permit = false }
  unfolding take_permit
  take_permit-ctx a ctx = elim (Bool-cases ctx.active_permit) [
    | inl held ↦ rw (held, take_permit) refl
    | inr free ↦ rw (free, take_permit) (λ i. record ctx { active_permit = free i })
  ]

  pub stop_rewrite-ctx :
      (x : Exchange l) (outcome : Bytes)
      → (stop_rewrite l x outcome).ctx
        ≡ record (x.ctx) { rewriter = none; outcome = outcome; active_permit = false }
  unfolding stop_rewrite
  stop_rewrite-ctx x outcome =
      take_permit-ctx x.admission (record (x.ctx) { rewriter = none; outcome = outcome })

  -- The content type is one of the profile, the encoding is another than none.
  abbrev pub IsEncoded : RewriteProfile → l.http.HeaderMap → Type 0
  IsEncoded profile headers =
      (is_rewritable_content_type l.http profile (l.http.get content_type headers) ≡ true)
      × (is_identity_encoding l.http (l.http.get content_encoding headers) ≡ false)

  -- The content type is another than the profile takes, and the profile was chosen by the path.
  abbrev pub IsMistyped : RewriteProfile → l.http.HeaderMap → Type 0
  IsMistyped profile headers =
      (is_rewritable_content_type l.http profile (l.http.get content_type headers) ≡ false)
      × (selects_html_by_response_content_type profile ≡ false)

  -- A response with status 200 that should be rewritten and cannot be.
  abbrev pub IsRefused : RewriteDecision → ResponseHeader l → Type 0
  IsRefused bypass response = ⊥
  IsRefused (rewrite profile extension head_only) response =
      ((response.status == 200) ≡ true)
      × (IsMistyped profile response.headers ⊎ IsEncoded profile response.headers)

  -- It has no rewriter and no permit any more.
  abbrev pub LetsGo : Exchange l → Type 0
  LetsGo x = (x.ctx.rewriter ≡ none) × (x.ctx.active_permit ≡ false)

  abbrev pub Judges : Type 0 → Result (Unit {0}) × State l config → Type 0
  Judges refused result =
      (refused × (result.0 ≡ err (http_status 502)) × LetsGo result.1.1)
      ⊎ ((refused → ⊥) × (result.0 ≡ ok tt))
