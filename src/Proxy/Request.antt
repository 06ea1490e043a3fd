-- ===== src/Proxy/Request.antt =====
-- src/proxy.rs: `request_filter` with `admit_rewrite`, `upstream_peer` and `upstream_request_filter`.
pub mod Claims
pub mod Answered
pub mod Upstream
use kse_static_rewrite_proxy.Base.{
  ℕ, Bool, true, false, not, ◌&&◌, [], ◌∷◌, ◌++◌, Option, none, some, leb, length, if◌then◌else◌,
}
use kse_static_rewrite_proxy.Slice.{Bytes, bytes}
use kse_static_rewrite_proxy.Literal.Result as Rewriting
use kse_static_rewrite_proxy.Pipeline.{Pipeline}
use kse_static_rewrite_proxy.Config.{EffectiveConfig, rewrite_policy}
use kse_static_rewrite_proxy.Config.Listeners.{SocketAddr}
use kse_static_rewrite_proxy.Policy.{RewriteProfile, RewriteDecision, bypass, rewrite}
use kse_static_rewrite_proxy.Policy.Decide.{is_empty, decide}
use kse_static_rewrite_proxy.Response.{build_selected_response_rewriter}
use kse_static_rewrite_proxy.Http.{
  x_request_id, if_none_match, if_modified_since, if_range, range, accept_encoding, retry_after,
}
use kse_static_rewrite_proxy.Proxy.{
  RequestContext, Admission, Answer, admitted, refused, must_wait, try_admit, resume,
}
use kse_static_rewrite_proxy.Proxy.ApiUri.{api_uri_with_base_path}
use kse_static_rewrite_proxy.Proxy.Media.{should_force_unconditional_full_response}
use kse_static_rewrite_proxy.Proxy.Session.{
  Libraries, Result, ok, err, panic, or_fail, internal_error, invalid_header, RequestHeader,
  Session, Exchange, disable_compression, write_response,
}

-- The request was answered or goes on, or it waits for a permit.
pub data Filtered : Type 0 where
  returned : Result Bool → Filtered
  waits : Filtered

-- `HttpPeer::new` with both timeouts, in seconds.
pub record HttpPeer : Type 0 where
  pub address : SocketAddr
  pub tls : Bool
  pub sni : Bytes
  pub connection_timeout : ℕ
  pub total_connection_timeout : ℕ

unfoldable pub upstream_peer : EffectiveConfig → HttpPeer
upstream_peer config = record {
  address = config.upstream;
  tls = false;
  sni = bytes "localhost";
  connection_timeout = 3;
  total_connection_timeout = 3;
}

module _ (l : Libraries) (config : EffectiveConfig) where
  -- The client's own identifier, if it can be taken.
  unfoldable pub client_request_id : Option Bytes → Bytes → Bytes
  client_request_id none given = given
  client_request_id (some value) given = elim (l.http.to_str value) [
    | none ↦ given
    | some request_id ↦
        if not (is_empty request_id) && leb (length request_id) 128 then request_id else given
  ]

  -- What is noted of every request, with the decision.
  unfoldable pub noted : RequestHeader l → RequestContext → RequestContext
  noted request ctx =
      let path = l.uris.path request.uri in
      record ctx {
        method = request.method;
        path = path;
        request_id = client_request_id (l.http.get x_request_id request.headers) ctx.request_id;
        client_if_none_match = l.http.get if_none_match request.headers;
        decision = decide (rewrite_policy config) request.method path;
      }

  -- The rewriter is built behind the admission.
  abbrev pub with_rewriter : Exchange l → Rewriting.Result Pipeline → Result Bool × Exchange l
  with_rewriter x (Rewriting.ok p) =
      (ok false, record x { ctx = record (x.ctx) { rewriter = some p } })
  with_rewriter x (Rewriting.err e) = (err internal_error, x)
  with_rewriter x Rewriting.panic = (panic, x)

  unfoldable pub build_rewriter : RewriteProfile → Bytes → Exchange l → Result Bool × Exchange l
  build_rewriter profile extension x = with_rewriter x (
      build_selected_response_rewriter config.base_path l.memmem l.codec profile extension
        config.max_decoded_bytes)

  abbrev pub with_permit : Exchange l → Exchange l
  with_permit x = record x { ctx = record (x.ctx) { active_permit = true } }

  -- The queue is full: the answer is status 503, and nothing is sent upstream.
  abbrev pub answered : Exchange l → Result (Unit {0}) × Session l → Filtered × Exchange l
  answered x (ok written, session) = (returned (ok true), record x { session = session })
  answered x (err e, session) = (returned (err e), record x { session = session })
  answered x (panic, session) = (returned panic, record x { session = session })

  unfoldable pub refuse : Exchange l → Filtered × Exchange l
  refuse x =
      answered (record x { ctx = record (x.ctx) { outcome = bytes "queue_full" } })
        (write_response l (disable_compression l x.session) 503 (bytes "text/plain; charset=utf-8")
          (bytes "rewrite queue is full" ++ (10 ∷ [])) (some (retry_after, bytes "1")))

  abbrev pub return_of : Result Bool × Exchange l → Filtered × Exchange l
  return_of (result, x) = (returned result, x)

  -- `admit_rewrite`, and the rewriter if a permit is there at once.
  abbrev pub admit :
      RewriteProfile → Bytes → Exchange l → Answer × Admission l.sem → Filtered × Exchange l
  admit profile extension x (admitted, admission) =
      return_of
        (build_rewriter profile extension (with_permit (record x { admission = admission })))
  admit profile extension x (refused, admission) = refuse (record x { admission = admission })
  admit profile extension x (must_wait, admission) =
      (waits, record x { admission = admission; ctx = record (x.ctx) { outcome = bytes "queued" } })

  abbrev pub selected : Bytes → Exchange l → Exchange l
  selected extension x = record x {
    ctx = record (x.ctx) { extension = some extension; outcome = bytes "rewrite" };
  }

  -- Behind the note, by the decision.
  unfoldable pub filter_decided : RewriteDecision → Exchange l → Filtered × Exchange l
  filter_decided bypass x =
      (returned (ok false), record x { session = disable_compression l x.session })
  filter_decided (rewrite profile extension head_only) x =
      if head_only
      then (returned (ok false), selected extension x)
      else admit profile extension (selected extension x) (try_admit l.sem x.admission)

  -- Up to the wait for a permit.
  unfoldable pub request_filter : Exchange l → Filtered × Exchange l
  request_filter x =
      let ctx = noted x.session.request x.ctx in
      filter_decided ctx.decision (record x { ctx = ctx })

  -- Behind the wait, for the request that a permit has been assigned to; `none` if none has been
  -- assigned. The semaphore is never closed.
  abbrev pub decided_rewriter : RewriteDecision → Exchange l → Result Bool × Exchange l
  decided_rewriter bypass x = (ok false, x)
  decided_rewriter (rewrite profile extension head_only) x = build_rewriter profile extension x

  abbrev pub resumed_with :
      Exchange l → Option (Admission l.sem) → Option (Result Bool × Exchange l)
  resumed_with x none = none
  resumed_with x (some admission) =
      some (decided_rewriter x.ctx.decision (with_permit (record x { admission = admission })))

  unfoldable pub request_filter_resumed : Exchange l → Option (Result Bool × Exchange l)
  request_filter_resumed x = resumed_with x (resume l.sem x.admission)

  -- A full response without conditions is asked for.
  abbrev pub without_conditions : Bool → l.http.HeaderMap → l.http.HeaderMap
  without_conditions false headers = headers
  without_conditions true headers = l.http.remove_header if_range (
      l.http.remove_header range
        (l.http.remove_header if_modified_since (l.http.remove_header if_none_match headers)))

  abbrev pub moved_to : RequestHeader l → Option l.uris.Uri → RequestHeader l
  moved_to request none = request
  moved_to request (some uri) = record request { uri = uri }

  abbrev pub for_decision : RewriteDecision → RequestHeader l → Result (Unit {0}) × RequestHeader l
  for_decision bypass request = (ok tt, request)
  for_decision (rewrite profile extension head_only) request =
      or_fail (l.http.insert_header accept_encoding (bytes "identity") request.headers)
        invalid_header request
        λ headers. (
          ok tt,
          record request {
            headers = without_conditions (should_force_unconditional_full_response profile) headers;
          },
        )

  unfoldable pub upstream_request_filter :
      RequestContext → RequestHeader l → Result (Unit {0}) × RequestHeader l
  upstream_request_filter ctx request =
      or_fail (l.http.insert_header x_request_id ctx.request_id request.headers) invalid_header
        request
        λ headers.
          let named = record request { headers = headers } in
          or_fail (api_uri_with_base_path l.uris request.uri config.base_path) internal_error named
            λ uri. for_decision ctx.decision (moved_to named uri)
