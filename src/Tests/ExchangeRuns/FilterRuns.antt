-- ===== src/Tests/ExchangeRuns/FilterRuns.antt =====
-- The filters, each at concrete values.
use kse_static_rewrite_proxy.Base.{[], ◌∷◌, ◌≡◌, ◌⊎◌, refl, none, some, false, arith}
use kse_static_rewrite_proxy.Slice.{bytes}
use kse_static_rewrite_proxy.Policy.{named_proxy_html}
use kse_static_rewrite_proxy.Http.{content_type, content_encoding}
use kse_static_rewrite_proxy.Proxy.{try_admit}
use kse_static_rewrite_proxy.Proxy.Session.{ok, err, http_status, Exchange, ResponseHeader}
use kse_static_rewrite_proxy.Proxy.Request.{request_filter}
use kse_static_rewrite_proxy.Proxy.ResponseFilter.{response_filter}
use kse_static_rewrite_proxy.Proxy.Request.Claims.{decision_of}
use kse_static_rewrite_proxy.Proxy.Request.Upstream.{Asks, upstream_request_filter-Asks}
use kse_static_rewrite_proxy.Proxy.ApiUri.{api_uri_with_base_path, already_scoped}
use kse_static_rewrite_proxy.Proxy.Request.{upstream_request_filter, request_filter_resumed}
use kse_static_rewrite_proxy.Proxy.Request.Answered.{
  Answers, request_filter-Answers, request_filter_resumed-IsReady, IsReady,
}
use kse_static_rewrite_proxy.Tests.AdminRuns.{config, busy}
use kse_static_rewrite_proxy.Tests.FairPermits.{permits}
use kse_static_rewrite_proxy.Tests.Libraries.{libraries, Headers, put}
use kse_static_rewrite_proxy.Tests.ExchangeRuns.{
  filters, no_headers, begun, admitted_exchange, waiting,
}

abbrev gzipped : ResponseHeader libraries
gzipped = record {
  status = 200;
  headers =
      put content_type (bytes "text/html" ∷ [])
        (put content_encoding (bytes "gzip" ∷ []) no_headers);
}

refused_502 :
    (response_filter libraries config (gzipped, admitted_exchange)).0 ≡ err (http_status 502)
unfolding filters
refused_502 = refl

-- No permit and no place in the queue is left.
abbrev late : Exchange libraries
late = record begun { admission = busy.admission }

request_filter-Answers_example :
    Answers libraries config
      (decision_of libraries config late)
      (try_admit permits late.admission).0
      (request_filter libraries config late)
unfolding begun
request_filter-Answers_example = request_filter-Answers libraries config late (omega arith)

upstream_request_filter-Asks_example :
    (named : Headers) × (upstream_request_filter libraries config admitted_exchange.ctx
        begun.session.request
      ≡ (ok tt, record { method = bytes "GET"; uri = begun.session.request.uri; headers = named }))
    × Asks libraries config admitted_exchange.ctx.decision admitted_exchange.ctx.request_id
        begun.session.request.headers named
unfolding filters begun api_uri_with_base_path already_scoped
upstream_request_filter-Asks_example =
    upstream_request_filter-Asks libraries config admitted_exchange.ctx begun.session.request none
      refl refl

request_filter_resumed-IsReady_example :
    ((request_filter_resumed libraries config waiting ≡ none)
      × (permits.assigned waiting.admission.active ≡ 0))
    ⊎ ((y : Exchange libraries) × (request_filter_resumed libraries config waiting
          ≡ some (ok false, y))
        × IsReady libraries config named_proxy_html (bytes "demo") y.ctx)
unfolding filters
request_filter_resumed-IsReady_example =
    request_filter_resumed-IsReady libraries config waiting named_proxy_html (bytes "demo") false
      refl
