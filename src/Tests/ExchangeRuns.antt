-- ===== src/Tests/ExchangeRuns.antt =====
-- One request through the filters at concrete values.
mod FilterRuns
use kse_static_rewrite_proxy.Base.{
  Bool, Option, [], ◌∷◌, ◌≡◌, ◌↔◌, ◌⊎◌, refl, inl, none, some, false, arith,
}
use kse_static_rewrite_proxy.Slice.{bytes, equal, starts_with, ends_with}
use kse_static_rewrite_proxy.Slice.Text.{
  strip_prefix, split_once, contains_byte, contains, collect, any, all_bytes, eq_ignore_ascii_case,
  to_ascii_lowercase, trim_end_matches, trim_start_matches,
}
use kse_static_rewrite_proxy.Slice.Split.{split, join, trim}
use kse_static_rewrite_proxy.Literal.Rewriter as Literal
use kse_static_rewrite_proxy.Literal.Rewriter.{from_mode, exact, usize_max}
use kse_static_rewrite_proxy.Literal.Result as Rewriting
use kse_static_rewrite_proxy.Stage.{literal}
use kse_static_rewrite_proxy.Run.{flatten}
use kse_static_rewrite_proxy.Pipeline.{
  Pipeline, new_with_exact, exact_literal_rewriters, prefix_literal_rewriters, from_rewriters,
}
use kse_static_rewrite_proxy.Pipeline.Built.{by_new_with_exact}
use kse_static_rewrite_proxy.Pipeline.Contract.{transform_all}
use kse_static_rewrite_proxy.Config.{rewrite_policy}
use kse_static_rewrite_proxy.Policy.{
  rewrite, named_proxy_html, new_with_rules, contains_rule, is_rule_enabled, number,
}
use kse_static_rewrite_proxy.Policy.Decide.{
  is_empty, proxy_profile, proxy_request, decide, decide_path,
}
use kse_static_rewrite_proxy.Response.{
  build_selected_response_rewriter, build_proxy_rewriter, attribute_rules,
}
use kse_static_rewrite_proxy.Http.{content_type, content_encoding, etag, x_request_id}
use kse_static_rewrite_proxy.Proxy.Interleaving.{
  World, start, arrived, done, leave, now, next, here, arrive,
}
use kse_static_rewrite_proxy.Proxy.{
  try_queue, release_active, resume, new_ctx, new_admission, try_admit, take_permit, RequestContext,
}
use kse_static_rewrite_proxy.Proxy.ApiUri.{before_query}
use kse_static_rewrite_proxy.Proxy.Body.{filter_all}
use kse_static_rewrite_proxy.Proxy.Body.Claims.{chunks_of, filter_all_iff}
use kse_static_rewrite_proxy.Proxy.Etag.{
  reliable_etag, is_quoted, derive_etag, hashed, if_none_match_matches,
}
use kse_static_rewrite_proxy.Proxy.Media.{
  is_rewritable_content_type, is_identity_encoding, parts_allowed, media_type_allowed,
  parameter_allowed, all_allowed, is_utf8_charset, selects_html_by_response_content_type,
}
use kse_static_rewrite_proxy.Proxy.Vary.{
  ensure_vary_accept_encoding, vary_items, listed, is_accept_encoding,
}
use kse_static_rewrite_proxy.Proxy.Session.{ok, Result, err, http_status, Exchange, ResponseHeader}
use kse_static_rewrite_proxy.Proxy.Request.{
  waits, request_filter_resumed, returned, client_request_id, noted, build_rewriter, filter_decided,
  request_filter,
}
use kse_static_rewrite_proxy.Proxy.ResponseFilter.{
  remove_headers, derived_etag, validate, rewrite_headers, filter_selected, response_filter,
  logging, stop_rewrite,
}
use kse_static_rewrite_proxy.Proxy.ResponseFilter.Refused.{IsRefused, Judges}
use kse_static_rewrite_proxy.Proxy.Served.{Served}
use kse_static_rewrite_proxy.Proxy.Served.Claims.{exchange-Served}
use kse_static_rewrite_proxy.Proxy.Permits.{
  Life, logged, begins, enqueued, others, resumed, responded, ends,
}
use kse_static_rewrite_proxy.Proxy.Permits.Claims.{Holds, Life-Holds}
use kse_static_rewrite_proxy.Proxy.Request.Claims.{decision_of}
use kse_static_rewrite_proxy.Proxy.Request.Upstream.{Asks, upstream_request_filter-Asks}
use kse_static_rewrite_proxy.Proxy.ApiUri.{api_uri_with_base_path, already_scoped}
use kse_static_rewrite_proxy.Proxy.Request.{upstream_request_filter, request_filter_resumed}
use kse_static_rewrite_proxy.Proxy.Request.Answered.{
  Answers, request_filter-Answers, request_filter_resumed-IsReady, IsReady,
}
use kse_static_rewrite_proxy.Tests.AdminRuns.{config, busy}
use kse_static_rewrite_proxy.Tests.FairPermits.{permits}
use kse_static_rewrite_proxy.Tests.Libraries.{libraries, headers, Headers, put, tally, encode}
use kse_static_rewrite_proxy.Tests.Search.{search_memmem}

pub filters : Unit {0}
unfolding equal starts_with ends_with strip_prefix split_once contains_byte contains collect any
    all_bytes eq_ignore_ascii_case to_ascii_lowercase trim_end_matches trim_start_matches split join
    trim from_mode Literal.new_exact new_with_exact exact_literal_rewriters prefix_literal_rewriters
    from_rewriters rewrite_policy new_with_rules contains_rule is_rule_enabled number is_empty
    proxy_profile proxy_request decide decide_path build_selected_response_rewriter
    build_proxy_rewriter attribute_rules new_admission try_admit take_permit before_query
    reliable_etag is_quoted derive_etag hashed if_none_match_matches is_rewritable_content_type
    is_identity_encoding parts_allowed media_type_allowed parameter_allowed all_allowed
    is_utf8_charset selects_html_by_response_content_type ensure_vary_accept_encoding vary_items
    listed is_accept_encoding client_request_id noted build_rewriter filter_decided request_filter
    remove_headers derived_etag validate rewrite_headers filter_selected response_filter logging
    stop_rewrite try_queue release_active resume request_filter_resumed put tally encode
filters = tt

abbrev pub no_headers : Headers
no_headers = λ name. []

abbrev pub begun : Exchange libraries
unfolding filters
begun = record {
  session = record {
    request = record {
      method = bytes "GET";
      uri = (bytes "/base/proxy/demo/index.html", refl, refl);
      headers = no_headers;
    };
    compression = some 6;
    written_header = none;
    written_body = none;
    writes_left = 2;
  };
  ctx = new_ctx (bytes "kserw-1-1");
  admission = new_admission permits config;
  metrics = record {
    requests = [];
    duration = [];
    rewrite_input_bytes = [];
    rewrite_output_bytes = [];
  };
}

selected : decision_of libraries config begun ≡ rewrite named_proxy_html (bytes "demo") false
unfolding filters
selected = refl

abbrev pub admitted_exchange : Exchange libraries
admitted_exchange = (request_filter libraries config begun).1

goes_on : request_filter libraries config begun ≡ (returned (ok false), admitted_exchange)
unfolding filters
goes_on = refl

abbrev html : ResponseHeader libraries
html = record {
  status = 200;
  headers =
      put content_type (bytes "text/html; charset=utf-8" ∷ [])
        (put etag (bytes "\"v1\"" ∷ []) no_headers);
}

abbrev answer : ResponseHeader libraries
answer = (response_filter libraries config (html, admitted_exchange)).1.0

abbrev answered_exchange : Exchange libraries
answered_exchange = (response_filter libraries config (html, admitted_exchange)).1.1

answers :
    response_filter libraries config (html, admitted_exchange)
    ≡ (ok tt, (answer, answered_exchange))
unfolding filters
answers = refl

exchange-Served_example :
    (named : Headers) × (headers.insert_header x_request_id admitted_exchange.ctx.request_id
        html.headers
      ≡ some named)
    × Served libraries config
        (decision_of libraries config begun)
        admitted_exchange
        (record html { headers = named })
        answer
        answered_exchange
unfolding filters
exchange-Served_example =
    exchange-Served libraries config begun admitted_exchange answered_exchange html answer
      (omega arith) refl refl (λ e. cc) (inl goes_on) answers

-- A request that comes while another is active: it waits, the other leaves, it goes on to the end.
abbrev occupied : World permits
occupied = arrived permits (start permits config)

abbrev newcomer : Exchange libraries
newcomer = record begun { admission = occupied.admission }

abbrev in_queue : Exchange libraries
in_queue = (request_filter libraries config newcomer).1

has_to_wait : request_filter libraries config newcomer ≡ (waits, in_queue)
unfolding filters
has_to_wait = refl

abbrev other_left : World permits
other_left = record { admission = release_active permits in_queue.admission; requests = done ∷ [] }

abbrev pub waiting : Exchange libraries
waiting = record in_queue { admission = other_left.admission }

abbrev result_of : Option (Result Bool × Exchange libraries) → Exchange libraries
result_of none = waiting
result_of (some (result, x)) = x

abbrev ready : Exchange libraries
ready = result_of (request_filter_resumed libraries config waiting)

goes_on_late : request_filter_resumed libraries config waiting ≡ some (ok false, ready)
unfolding filters
goes_on_late = refl

abbrev done_with : Exchange libraries
done_with = logging libraries config false (response_filter libraries config (html, ready)).1.1

whole_life : Life libraries config (done ∷ []) logged done_with
unfolding filters
whole_life = ends false (
    responded html (
      resumed (ok false) ready
        (others other_left
          (enqueued in_queue (begins occupied newcomer (next here arrive) refl refl) has_to_wait)
          (leave (done ∷ []) (now [])))
        goes_on_late))

Life-Holds_example : Holds libraries config (done ∷ []) logged done_with
Life-Holds_example = Life-Holds libraries config (omega arith) (omega arith) whole_life

abbrev one_rule : Pipeline
one_rule = record {
  rewriters =
      literal (record {
        source = bytes "old";
        mode = exact (bytes "new");
        max_bytes = usize_max;
        total_bytes = 0;
        pending = [];
        input_history = [];
        utf8_tail = [];
        finished = false;
      })
      ∷ [];
  max_bytes = 30;
  total_bytes = 0;
  finished = false;
}

abbrev rewriting : RequestContext
rewriting = record (new_ctx (bytes "kserw-1-1")) { rewriter = some one_rule }

filter_all_iff_example :
    ((filter_all search_memmem rewriting (some (bytes "an o") ∷ none ∷ []) (some (bytes "ld"))).0
      ≡ Rewriting.ok (bytes "an new"))
    ↔ (transform_all search_memmem one_rule
          (flatten (chunks_of (some (bytes "an o") ∷ none ∷ []) (some (bytes "ld"))))
        ≡ some (bytes "an new"))
unfolding filters
filter_all_iff_example =
    filter_all_iff search_memmem 30 one_rule rewriting (some (bytes "an o") ∷ none ∷ [])
      (some (bytes "ld")) (bytes "an new") (omega arith)
      (by_new_with_exact [] ((bytes "old", bytes "new") ∷ []) one_rule refl) refl refl
