-- ===== src/Proxy/Media.antt =====
-- src/proxy.rs: `is_rewritable_content_type` and the tests beside it.
pub mod Claims
use kse_static_rewrite_proxy.Base.{
  Bool, true, false, not, ◌&&◌, ◌||◌, List, [], ◌∷◌, map, Option, none, some, if◌then◌else◌,
}
use kse_static_rewrite_proxy.Slice.{Bytes, bytes, equal}
use kse_static_rewrite_proxy.Slice.Text.{
  any, eq_ignore_ascii_case, split_once, to_ascii_lowercase, trim_end_matches, trim_start_matches,
}
use kse_static_rewrite_proxy.Slice.Split.{split, trim}
use kse_static_rewrite_proxy.Policy.Decide.{is_empty}
use kse_static_rewrite_proxy.Http.{Http}
use kse_static_rewrite_proxy.Policy.{
  RewriteProfile, console_v3, frontend_index_js_bundle, ys1000_frontend_index_js_bundle, js_bundle,
  kubekey_asset_js, named_proxy_html, ys1000_html,
}

unfoldable pub selects_html_by_response_content_type : RewriteProfile → Bool
selects_html_by_response_content_type named_proxy_html = true
selects_html_by_response_content_type ys1000_html = true
selects_html_by_response_content_type _ = false

unfoldable pub should_force_unconditional_full_response : RewriteProfile → Bool
unfolding selects_html_by_response_content_type
should_force_unconditional_full_response profile =
    not (selects_html_by_response_content_type profile)

-- The two profiles that take `text/plain`.
abbrev pub is_frontend_index : RewriteProfile → Bool
is_frontend_index frontend_index_js_bundle = true
is_frontend_index ys1000_frontend_index_js_bundle = true
is_frontend_index _ = false

abbrev pub html_types : List Bytes
html_types = bytes "text/html" ∷ bytes "application/xhtml+xml" ∷ []

abbrev pub text_types : List Bytes
text_types =
    bytes "text/javascript"
    ∷ bytes "application/javascript"
    ∷ bytes "application/x-javascript"
    ∷ bytes "text/css"
    ∷ bytes "application/json"
    ∷ bytes "text/json"
    ∷ html_types

unfoldable pub media_type_allowed : RewriteProfile → Bytes → Bool
media_type_allowed profile media_type =
    (is_frontend_index profile && equal media_type (bytes "text/plain"))
    || any (λ allowed. equal media_type allowed)
        (if selects_html_by_response_content_type profile then html_types else text_types)

-- `value.to_ascii_lowercase()` and `value.trim_matches('"')`.
abbrev pub lowercase : Bytes → Bytes
lowercase value = map to_ascii_lowercase value

abbrev pub unquote : Bytes → Bytes
unquote value = trim_end_matches b'"' (trim_start_matches b'"' value)

unfoldable pub is_utf8_charset : Bytes → Bool
is_utf8_charset charset = equal charset (bytes "utf-8") || equal charset (bytes "utf8")

-- A parameter that is no charset, or names UTF-8.
unfoldable pub parameter_allowed : Bytes → Bool
parameter_allowed parameter = elim (split_once (bytes "=") parameter) [
  | none ↦ true
  | some parts ↦
      not (eq_ignore_ascii_case (trim parts.0) (bytes "charset"))
      || is_utf8_charset (lowercase (unquote (trim parts.1)))
]

unfoldable pub all_allowed : List Bytes → Bool
all_allowed [] = true
all_allowed (parameter ∷ parameters) = parameter_allowed parameter && all_allowed parameters

-- The parts of a value: the media type and the parameters.
unfoldable pub parts_allowed : RewriteProfile → List Bytes → Bool
parts_allowed profile [] = media_type_allowed profile []
parts_allowed profile (media_type ∷ parameters) =
    media_type_allowed profile (lowercase media_type) && all_allowed parameters

module _ (http : Http) where
  unfoldable pub is_rewritable_content_type : RewriteProfile → Option Bytes → Bool
  is_rewritable_content_type profile none = false
  is_rewritable_content_type profile (some header) = elim (http.to_str header) [
    | none ↦ false
    | some value ↦ parts_allowed profile (map trim (split b';' value))
  ]

  unfoldable pub is_identity_encoding : Option Bytes → Bool
  is_identity_encoding none = true
  is_identity_encoding (some header) = elim (http.to_str header) [
    | none ↦ true
    | some encoding ↦ is_empty (trim encoding) || eq_ignore_ascii_case encoding (bytes "identity")
  ]
