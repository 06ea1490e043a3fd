-- ===== src/Tests/ProxyRuns.antt =====
-- The helpers of the proxy at concrete values.
use kse_static_rewrite_proxy.Base.{
  true, false, ◌++◌, ◌+◌, [], ◌∷◌, ◌≡◌, ◌≢◌, ◌↔◌, ◌⊎◌, refl, none, some, arith, map, Each,
}
use kse_static_rewrite_proxy.Slice.{Bytes, bytes, equal, starts_with}
use kse_static_rewrite_proxy.Slice.Text.{
  all_bytes, any, contains_byte, eq_ignore_ascii_case, split_once, strip_prefix, to_ascii_lowercase,
  trim_end_matches, trim_start_matches,
}
use kse_static_rewrite_proxy.Slice.Split.{split, join, trim}
use kse_static_rewrite_proxy.Config.BasePath.{contains_text}
use kse_static_rewrite_proxy.Policy.{js_bundle, frontend_index_js_bundle, named_proxy_html}
use kse_static_rewrite_proxy.Policy.Decide.{is_empty}
use kse_static_rewrite_proxy.Http.{vary}
use kse_static_rewrite_proxy.Proxy.ApiUri.{
  has_marker, already_scoped, before_query, api_uri_with_base_path,
}
use kse_static_rewrite_proxy.Proxy.ApiUri.Claims.{Forwards, api_uri-Forwards}
use kse_static_rewrite_proxy.Proxy.Media.{
  is_rewritable_content_type, lowercase, is_identity_encoding, parts_allowed, media_type_allowed,
  parameter_allowed, all_allowed, is_utf8_charset, selects_html_by_response_content_type,
}
use kse_static_rewrite_proxy.Proxy.Media.Claims.{
  Parameter, written_parameter, allowed_types, NamesUtf8, content_type_iff,
}
use kse_static_rewrite_proxy.Proxy.Vary.{
  ensure_vary_accept_encoding, vary_items, listed, is_accept_encoding,
}
use kse_static_rewrite_proxy.Proxy.Vary.Claims.{Varies, ensure_vary_accept_encoding-Varies}
use kse_static_rewrite_proxy.Proxy.Etag.{
  derive_etag, reliable_etag, is_quoted, if_none_match_matches, hashed, components,
}
use kse_static_rewrite_proxy.Proxy.Etag.Claims.{
  IsEntityTag, Collision, reliable_etag_iff, derive_etag-eq,
}
use kse_static_rewrite_proxy.Proxy.Etag.Matches.{if_none_match-derived}
use kse_static_rewrite_proxy.Proxy.RequestId.{new_request_id, hex_digits, request_sequence}
use kse_static_rewrite_proxy.Proxy.RequestId.Claims.{new_request_id-ne}
use kse_static_rewrite_proxy.Tests.Libraries.{headers, Headers, put, uris, Uri, digest}

texts : Unit {0}
unfolding equal starts_with all_bytes any contains_byte eq_ignore_ascii_case split_once strip_prefix
    to_ascii_lowercase trim_end_matches trim_start_matches split join trim contains_text is_empty
    has_marker already_scoped before_query api_uri_with_base_path is_rewritable_content_type
    is_identity_encoding parts_allowed media_type_allowed parameter_allowed all_allowed
    is_utf8_charset selects_html_by_response_content_type ensure_vary_accept_encoding vary_items
    listed is_accept_encoding reliable_etag is_quoted new_request_id hex_digits request_sequence put
texts = tt

-- The calls of the source's own tests.
charset_upper :
    is_rewritable_content_type headers js_bundle
      (some (bytes "application/javascript; charset=UTF-8"))
    ≡ true
unfolding texts
charset_upper = refl

charset_gbk :
    is_rewritable_content_type headers js_bundle (some (bytes "text/html; charset=gbk")) ≡ false
unfolding texts
charset_gbk = refl

plain_frontend :
    is_rewritable_content_type headers frontend_index_js_bundle
      (some (bytes "text/plain; charset=utf-8"))
    ≡ true
unfolding texts
plain_frontend = refl

css_html : is_rewritable_content_type headers named_proxy_html (some (bytes "text/css")) ≡ false
unfolding texts
css_html = refl

weak_tag : reliable_etag (bytes "W/\"asset-v1\"") ≡ some (bytes "W/\"asset-v1\"")
unfolding texts
weak_tag = refl

bare_tag : reliable_etag (bytes "asset-v1") ≡ none
unfolding texts
bare_tag = refl

one_request : new_request_id 0xABC 17 ≡ bytes "kserw-abc-11"
unfolding texts
one_request = refl

abbrev base : Bytes
base = bytes "/regions/a:b"

abbrev api_uri : Uri
unfolding texts
api_uri = (bytes "/clusters/host/apis/v1?limit=2", refl, refl)

abbrev moved_uri : Uri
unfolding texts
moved_uri = (bytes "/regions/a:b/clusters/host/apis/v1?limit=2", refl, refl)

moves : api_uri_with_base_path uris api_uri base ≡ some (some moved_uri)
unfolding texts
moves = refl

api_uri-Forwards_example : Forwards uris base api_uri moved_uri
unfolding texts
api_uri-Forwards_example =
    api_uri-Forwards uris base api_uri (some moved_uri)
      (record { rooted = refl; no_query = refl; no_fragment = refl }) refl moves

abbrev charset : Parameter
charset = record { name = bytes "Charset"; value = bytes "UTF-8"; is_quoted = true }

content_type_iff_example :
    (is_rewritable_content_type headers js_bundle
        (some (join (bytes "; ") (bytes "Text/CSS" ∷ map written_parameter (charset ∷ []))))
      ≡ true)
    ↔ ((any (λ allowed. equal (lowercase (bytes "Text/CSS")) allowed) (allowed_types js_bundle)
          ≡ true)
        × Each NamesUtf8 (charset ∷ []))
unfolding texts
content_type_iff_example =
    content_type_iff headers js_bundle (bytes "Text/CSS") (charset ∷ []) (refl, refl, refl)
      (
        record {
          item = (refl, refl, refl);
          name_free = refl;
          name_trimmed = refl;
          value_trimmed = refl;
          value_free = refl;
        },
        tt,
      )

abbrev origin_only : Headers
origin_only = put vary (bytes "Origin,  Cookie" ∷ bytes "" ∷ []) (λ name. [])

ensure_vary_example :
    (after : Headers) × (ensure_vary_accept_encoding headers origin_only ≡ some after)
    × Varies headers origin_only after
    × (ensure_vary_accept_encoding headers after ≡ some after)
ensure_vary_example = ensure_vary_accept_encoding-Varies headers origin_only

reliable_etag_iff_example :
    (reliable_etag (bytes "\"v1\"") ≡ some (bytes "\"v1\""))
    ↔ ((bytes "\"v1\"" ≡ bytes "\"v1\"") × IsEntityTag (bytes "\"v1\""))
reliable_etag_iff_example = reliable_etag_iff (bytes "\"v1\"") (bytes "\"v1\"")

derive_etag-eq_example :
    ((bytes "\"v1\"" ≡ bytes "\"v1\"") × (bytes "/b" ≡ bytes "/b") × (bytes "demo" ≡ bytes "demo"))
    ⊎ Collision digest
        (hashed (components (bytes "\"v1\"") (bytes "/b") (bytes "demo")))
        (hashed (components (bytes "\"v1\"") (bytes "/b") (bytes "demo")))
unfolding texts
derive_etag-eq_example =
    derive_etag-eq digest (bytes "\"v1\"") (bytes "/b") (bytes "demo") (bytes "\"v1\"") (bytes "/b")
      (bytes "demo") refl refl refl refl refl refl refl

if_none_match-derived_example :
    if_none_match_matches headers
      (some (
        join (bytes ", ") (
          (bytes "\"other\"" ∷ [])
          ++ (derive_etag digest (bytes "\"v1\"") (bytes "/b") (bytes "demo") ∷ []))))
      (derive_etag digest (bytes "\"v1\"") (bytes "/b") (bytes "demo"))
    ≡ true
unfolding texts
if_none_match-derived_example =
    if_none_match-derived digest (bytes "\"v1\"") (bytes "/b") (bytes "demo") headers
      (bytes "\"other\"" ∷ []) [] ((refl, refl, refl), tt) tt

new_request_id-ne_example :
    new_request_id 5 (request_sequence 3) ≢ new_request_id 5 (request_sequence (3 + 4))
new_request_id-ne_example =
    new_request_id-ne 5 5 3 4 (omega arith) (omega arith) (omega arith) (omega arith)
