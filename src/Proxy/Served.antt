-- ===== src/Proxy/Served.antt =====
-- src/proxy.rs: what a client gets of one request, from `request_filter` over `response_filter` to
-- the last call of `response_body_filter`.
pub mod Claims
use kse_static_rewrite_proxy.Base.{
  ℕ, ◌≤◌, Bool, true, false, List, [], ◌∷◌, ◌≡◌, ◌≢◌, ◌↔◌, ◌⊎◌, inl, inr, refl, sym, ap, ◌∙◌,
  Option, none, some, if◌then◌else◌, arith, Bool-cases, ◌==◌,
}
use kse_static_rewrite_proxy.Slice.{Bytes, bytes}
use kse_static_rewrite_proxy.Run.{flatten}
use kse_static_rewrite_proxy.Literal.Result as Rewriting
use kse_static_rewrite_proxy.Literal.Rewriter.{usize_max}
use kse_static_rewrite_proxy.Pipeline.{Pipeline}
use kse_static_rewrite_proxy.Pipeline.Contract.{transform_all}
use kse_static_rewrite_proxy.Pipeline.Built.{Built}
use kse_static_rewrite_proxy.Config.{EffectiveConfig}
use kse_static_rewrite_proxy.Policy.{RewriteProfile, RewriteDecision, bypass, rewrite, console_v3}
use kse_static_rewrite_proxy.Response.{build_selected_response_rewriter}
use kse_static_rewrite_proxy.Response.Claims.{build-Builds}
use kse_static_rewrite_proxy.Http.{x_request_id, content_type, content_encoding}
use kse_static_rewrite_proxy.Proxy.{RequestContext, Admission, take_permit}
use kse_static_rewrite_proxy.Proxy.Body.{filter_all}
use kse_static_rewrite_proxy.Proxy.Body.Claims.{chunks_of, filter_all_iff, filter_all-bypass}
use kse_static_rewrite_proxy.Proxy.Etag.{if_none_match_matches}
use kse_static_rewrite_proxy.Proxy.Media.{
  is_rewritable_content_type, selects_html_by_response_content_type, is_identity_encoding,
}
use kse_static_rewrite_proxy.Proxy.Session.{
  Libraries, Result, ok, err, invalid_header, ResponseHeader, Exchange,
}
use kse_static_rewrite_proxy.Proxy.Request.Claims.{
  GoesOn, HasRewriter, WentOn, decision_of, request_filter-GoesOn,
}
use kse_static_rewrite_proxy.Proxy.ResponseFilter.{
  not_modified, response_filter, stop_rewrite, State,
}
use kse_static_rewrite_proxy.Proxy.ResponseFilter.Headers.{Cleans}
use kse_static_rewrite_proxy.Proxy.ResponseFilter.Outcome.{
  Ends, Heads, Stops, Selects, Filters, Names, tag_of, response_filter-Names,
}

module _ (l : Libraries) (config : EffectiveConfig) where
  -- What the client is sent of a body, whatever the chunks that it comes in.
  abbrev pub Passes : Exchange l → Type 0
  Passes x =
      (bs : List (Option Bytes)) (last : Option Bytes)
      → (filter_all l.memmem x.ctx bs last).0 ≡ Rewriting.ok (flatten (chunks_of bs last))

  abbrev pub Withholds : Exchange l → Type 0
  Withholds x =
      (bs : List (Option Bytes)) (last : Option Bytes)
      → (filter_all l.memmem x.ctx bs last).0 ≡ Rewriting.ok []

  abbrev pub Rewrites : Exchange l → Pipeline → Type 0
  Rewrites x p =
      (bs : List (Option Bytes)) (last : Option Bytes) (out : Bytes)
      → ((filter_all l.memmem x.ctx bs last).0 ≡ Rewriting.ok out)
        ↔ (transform_all l.memmem p (flatten (chunks_of bs last)) ≡ some out)

  -- The body of a response that is rewritten: to a `HEAD` request nothing is done to it, else it is
  -- what the stages of the profile's pipeline make of the whole.
  abbrev pub BodyOf : RewriteDecision → Exchange l → Type 0
  BodyOf bypass x = Passes x
  BodyOf (rewrite profile extension true) x = Passes x
  BodyOf (rewrite profile extension false) x =
      (p : Pipeline) × (build_selected_response_rewriter config.base_path l.memmem l.codec profile
          extension config.max_decoded_bytes
        ≡ Rewriting.ok p)
      × Rewrites x p

  -- A request that was not selected, or whose response cannot be rewritten and may go through.
  abbrev pub MayPass : RewriteDecision → ResponseHeader l → Type 0
  MayPass bypass response = Unit {0}
  MayPass (rewrite profile extension head_only) response =
      ((response.status == 200) ≡ false) ⊎ (selects_html_by_response_content_type profile ≡ true)

  abbrev pub IsTaken : RewriteDecision → ResponseHeader l → Type 0
  IsTaken bypass response = ⊥
  IsTaken (rewrite profile extension head_only) response =
      ((response.status == 200) ≡ true)
      × (is_rewritable_content_type l.http profile (l.http.get content_type response.headers)
          ≡ true)
      × (is_identity_encoding l.http (l.http.get content_encoding response.headers) ≡ true)

  pub record Untouched (d : RewriteDecision) (before after : ResponseHeader l) (x : Exchange l)
      : Type 0 where
    pub reason : MayPass d before
    pub same : after ≡ before
    pub body : Passes x

  pub record Rewritten (d : RewriteDecision) (tag : Option Bytes) (before after : ResponseHeader l)
      (x : Exchange l) : Type 0 where
    pub taken : IsTaken d before
    pub status : after.status ≡ 200
    pub headers : Cleans l tag before.headers after.headers
    pub body : BodyOf d x

  pub record NotModified (d : RewriteDecision) (tag : Option Bytes) (asked : Option Bytes)
      (before after : ResponseHeader l) (x : Exchange l) : Type 0 where
    pub taken : IsTaken d before
    pub derived : Bytes
    pub tagged : tag ≡ some derived
    pub has_it : if_none_match_matches l.http asked derived ≡ true
    pub status : after.status ≡ 304
    pub cleaned : l.http.HeaderMap
    pub headers : Cleans l tag before.headers cleaned
    pub untyped : after.headers ≡ l.http.remove_header content_type cleaned
    pub body : Withholds x

  -- A decision for which the pipeline has a contract.
  abbrev pub IsCovered : RewriteDecision → Type 0
  IsCovered bypass = Unit {0}
  IsCovered (rewrite profile extension head_only) = profile ≢ console_v3

  -- The three ends of a response that is not refused.
  abbrev pub Served :
      RewriteDecision → Exchange l → ResponseHeader l → ResponseHeader l → Exchange l → Type 0
  Served d y before after z =
      Untouched d before after z
      ⊎ (Rewritten d (tag_of l config y before) before after z
          ⊎ NotModified d (tag_of l config y before) y.ctx.client_if_none_match before after z)
