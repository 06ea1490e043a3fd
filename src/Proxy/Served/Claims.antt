-- ===== src/Proxy/Served/Claims.antt =====
-- src/proxy.rs: how a request ends for its client.
use kse_static_rewrite_proxy.Base.{
  ◌≤◌, Bool, true, false, ◌≡◌, ◌≢◌, inl, inr, refl, ap, ◌∙◌, none, some, arith,
}
use kse_static_rewrite_proxy.Slice.{Bytes, bytes}
use kse_static_rewrite_proxy.Literal.Result as Rewriting
use kse_static_rewrite_proxy.Literal.Rewriter.{usize_max}
use kse_static_rewrite_proxy.Pipeline.{Pipeline}
use kse_static_rewrite_proxy.Pipeline.Built.{Built}
use kse_static_rewrite_proxy.Config.{EffectiveConfig}
use kse_static_rewrite_proxy.Policy.{RewriteProfile, RewriteDecision, bypass, rewrite, console_v3}
use kse_static_rewrite_proxy.Response.{build_selected_response_rewriter}
use kse_static_rewrite_proxy.Response.Claims.{build-Builds}
use kse_static_rewrite_proxy.Http.{x_request_id}
use kse_static_rewrite_proxy.Proxy.{RequestContext}
use kse_static_rewrite_proxy.Proxy.Body.Claims.{filter_all_iff, filter_all-bypass}
use kse_static_rewrite_proxy.Proxy.Session.{Libraries, Result, ok, ResponseHeader, Exchange}
use kse_static_rewrite_proxy.Proxy.Request.Claims.{
  GoesOn, WentOn, decision_of, request_filter-GoesOn,
}
use kse_static_rewrite_proxy.Proxy.ResponseFilter.{
  not_modified, response_filter, stop_rewrite, State,
}
use kse_static_rewrite_proxy.Proxy.ResponseFilter.Outcome.{
  Selects, Filters, Names, response_filter-Names,
}
use kse_static_rewrite_proxy.Proxy.ResponseFilter.Refused.{stop_rewrite-ctx}
use kse_static_rewrite_proxy.Proxy.Served.{Passes, Withholds, BodyOf, IsCovered, Served}

module _ (l : Libraries) (config : EffectiveConfig) where
  Passes-without :
      (x : Exchange l) → x.ctx.rewriter ≡ none → x.ctx.suppress_body ≡ false → Passes l config x
  Passes-without x h k bs last = filter_all-bypass l.memmem bs last x.ctx (inr h) ∙ rw k refl

  stopped-Passes :
      (x : Exchange l) (outcome : Bytes)
      → x.ctx.suppress_body ≡ false
      → Passes l config (stop_rewrite l x outcome)
  stopped-Passes x outcome h =
      let stopped = stop_rewrite-ctx l config x outcome in
      Passes-without (stop_rewrite l x outcome) (ap (λ (c : RequestContext). c.rewriter) stopped)
        (ap (λ (c : RequestContext). c.suppress_body) stopped ∙ h)

  not_modified-Withholds :
      (x : Exchange l) (response : ResponseHeader l)
      → Withholds l config (not_modified l config x response).1
  not_modified-Withholds x response bs last =
      let silent = record x { ctx = record (x.ctx) { suppress_body = true; rewriter = none } } in
      let y = stop_rewrite l silent (bytes "not_modified") in
      let hidden =
        ap (λ (c : RequestContext). c.suppress_body)
          (stop_rewrite-ctx l config silent (bytes "not_modified")) in
      filter_all-bypass l.memmem bs last y.ctx (inl hidden) ∙ rw hidden refl

  Built-pipeline :
      (profile : RewriteProfile) (extension : Bytes) (p : Pipeline)
      → profile ≢ console_v3
      → build_selected_response_rewriter config.base_path l.memmem l.codec profile extension
          config.max_decoded_bytes
        ≡ Rewriting.ok p
      → Built config.max_decoded_bytes p
  Built-pipeline profile extension p ne e =
      let (q, f, b) =
        build-Builds config.base_path config.max_decoded_bytes l.memmem l.codec profile extension
          ne in
      let same : q ≡ p = ground arith in rw same at b

  BodyOf-goes :
      (d : RewriteDecision) (x : Exchange l)
      → config.max_decoded_bytes ≤ usize_max
      → IsCovered l config d
      → GoesOn l config d x
      → BodyOf l config d x
  BodyOf-goes bypass x limit ne g = Passes-without x g.rewriter g.shown
  BodyOf-goes (rewrite profile extension true) x limit ne g = Passes-without x g.rewriter g.shown
  BodyOf-goes (rewrite profile extension false) x limit ne g =
      let (p, built, there) = g.rewriter in
      (
        p,
        built,
        λ bs last out.
            filter_all_iff l.memmem config.max_decoded_bytes p x.ctx bs last out limit
              (Built-pipeline profile extension p ne built) there g.shown,
      )

  response-eq :
      {r s : Result (Unit {0})} {a b : State l config}
      → ◌≡◌ {A = Result (Unit {0}) × State l config} (r, a) (s, b)
      → a ≡ b
  response-eq e = ap (λ (q : Result (Unit {0}) × State l config). q.1) e

  selected-Served :
      (profile : RewriteProfile) (extension : Bytes) (head_only : Bool) (y z : Exchange l)
      (before after : ResponseHeader l)
      → config.max_decoded_bytes ≤ usize_max
      → profile ≢ console_v3
      → GoesOn l config (rewrite profile extension head_only) y
      → Selects l config profile y before (ok tt, (after, z))
      → Served l config (rewrite profile extension head_only) y before after z
  selected-Served profile extension head_only y z before after limit ne g
        (inl (outcome, same, why)) =
      inl (record {
        reason = why refl;
        same = ap (λ (s : State l config). s.0) same;
        body = rw (ap (λ (s : State l config). s.1) same) (stopped-Passes y outcome g.shown);
      })
  selected-Served profile extension head_only y z before after limit ne g
        (inr (status, kind, plain, (headers, clean, inl ends))) =
      let e = response-eq ends in
      inr (
        inl (record {
          taken = (status, kind, plain);
          status = ap (λ (s : State l config). s.0.status) e ∙ ground arith;
          headers = rw (ap (λ (s : State l config). s.0.headers) e) clean;
          body =
              rw (ap (λ (s : State l config). s.1) e)
                (BodyOf-goes (rewrite profile extension head_only) y limit ne g);
        }))
  selected-Served profile extension head_only y z before after limit ne g
        (inr (status, kind, plain, (headers, clean, inr (derived, tagged, has_it, ends)))) =
      let e = response-eq ends in
      inr (
        inr (record {
          taken = (status, kind, plain);
          derived = derived;
          tagged = tagged;
          has_it = has_it;
          status = ap (λ (s : State l config). s.0.status) e;
          cleaned = headers;
          headers = clean;
          untyped = ap (λ (s : State l config). s.0.headers) e;
          body =
              rw (ap (λ (s : State l config). s.1) e)
                (not_modified-Withholds y (record before { headers = headers }));
        }))

  Filters-Served :
      (d : RewriteDecision) (y z : Exchange l) (before after : ResponseHeader l)
      → config.max_decoded_bytes ≤ usize_max
      → IsCovered l config d
      → GoesOn l config d y
      → Filters l config d y before (ok tt, (after, z))
      → Served l config d y before after z
  Filters-Served bypass y z before after limit ne g e =
      let same = response-eq e in
      inl (record {
        reason = tt;
        same = ap (λ (s : State l config). s.0) same;
        body = rw (ap (λ (s : State l config). s.1) same) (Passes-without y g.rewriter g.shown);
      })
  Filters-Served (rewrite profile extension head_only) y z before after limit ne g f =
      selected-Served profile extension head_only y z before after limit ne g f

  -- For a request with a fresh context that goes on, at once or behind a wait in which other requests
  -- act, and is not of `console_v3`, and a limit that a `usize` holds: if `response_filter` succeeds,
  -- the response has the header `x-request-id` put in, and then is left as it is with its body; or,
  -- with status 200 and a plain text of the profile only, has its headers cleaned and its body
  -- rewritten as a whole, whatever the chunks; or is status 304 without a body, to a client that
  -- sent the derived tag.
  pub exchange-Served :
      (x y z : Exchange l) (response after : ResponseHeader l)
      → config.max_decoded_bytes ≤ usize_max
      → x.ctx.rewriter ≡ none
      → x.ctx.suppress_body ≡ false
      → IsCovered l config (decision_of l config x)
      → WentOn l config x y
      → response_filter l config (response, y) ≡ (ok tt, (after, z))
      → (headers : l.http.HeaderMap) × (l.http.insert_header x_request_id y.ctx.request_id
            response.headers
          ≡ some headers)
        × Served l config (decision_of l config x) y (record response { headers = headers }) after z
  exchange-Served x y z response after limit fresh shown covered went e =
      let d = decision_of l config x in
      let g = request_filter-GoesOn l config x y fresh shown went in
      let named : Names l config d y response (ok tt, (after, z)) =
        rw e at (response_filter-Names l config d y response g.decided) in
      elim named [
        | inl failed ↦ let k = ap (λ (q : Result (Unit {0}) × State l config). q.0) failed in cc
        | inr (headers, inserted, f) ↦ (
          headers,
          inserted,
          Filters-Served d y z (record response { headers = headers }) after limit covered g f,
        )
      ]
