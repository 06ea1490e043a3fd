-- ===== src/Proxy/ApiUri.antt =====
-- src/proxy.rs: `api_uri_with_base_path`. `http::Uri` is an interface.
pub mod Claims
use kse_static_rewrite_proxy.Base.{
  ℕ, Bool, true, false, not, ◌&&◌, ◌||◌, List, [], ◌∷◌, ◌++◌, ◌≡◌, ◌⊎◌, Option, none, some, ◌==◌,
  if◌then◌else◌,
}
use kse_static_rewrite_proxy.Slice.{Bytes, bytes, equal, starts_with}
use kse_static_rewrite_proxy.Slice.Text.{any, contains_byte, strip_prefix}
use kse_static_rewrite_proxy.Config.BasePath.{contains_text}
use kse_static_rewrite_proxy.Policy.Decide.{is_empty}

-- What stands in front of the query.
unfoldable pub before_query : Bytes → Bytes
before_query [] = []
before_query (b ∷ bs) = if b == b'?' then [] else b ∷ before_query bs

-- A path is rooted, a star, or not there; it has no query and no fragment, and stands in front of
-- the query in `path_and_query`. A text without a fragment that is parsed is kept.
pub record Uris : Type 1 where
  pub Uri : Type 0
  pub path : Uri → Bytes
  pub path_and_query : Uri → Option Bytes
  pub parse : Bytes → Option Uri
  pub rooted :
      (uri : Uri)
      → (path uri ≡ []) ⊎ (path uri ≡ bytes "*") ⊎ (starts_with (bytes "/") (path uri) ≡ true)
  pub no_query : (uri : Uri) → before_query (path uri) ≡ path uri
  pub no_fragment : (uri : Uri) → contains_byte b'#' (path uri) ≡ false
  pub in_front :
      (uri : Uri) (text : Bytes)
      → path_and_query uri ≡ some text
      → (before_query text ≡ path uri) × (contains_byte b'#' text ≡ false)
  pub parsed :
      (text : Bytes) (uri : Uri)
      → starts_with (bytes "/") text ≡ true
      → contains_byte b'#' text ≡ false
      → parse text ≡ some uri
      → (path uri ≡ before_query text) × (path_and_query uri ≡ some text)

abbrev pub api_path_markers : List Bytes
api_path_markers = bytes "/api/" ∷ bytes "/apis/" ∷ bytes "/kapi/" ∷ bytes "/kapis/" ∷ []

unfoldable pub has_marker : Bytes → Bool
has_marker path = any (λ marker. contains_text marker path) api_path_markers

abbrev pub is_below : Option Bytes → Bool
is_below none = false
is_below (some suffix) = starts_with (bytes "/") suffix

unfoldable pub already_scoped : Bytes → Bytes → Bool
already_scoped base_path path = equal path base_path || is_below (strip_prefix base_path path)

abbrev pub text_of : Bytes → Option Bytes → Bytes
text_of path none = path
text_of path (some text) = text

module _ (uris : Uris) where
  -- `none` is the error of the parser, `some none` that the URI stays.
  abbrev pub rescoped : Option uris.Uri → Option (Option uris.Uri)
  rescoped none = none
  rescoped (some uri) = some (some uri)

  unfoldable pub api_uri_with_base_path : uris.Uri → Bytes → Option (Option uris.Uri)
  api_uri_with_base_path uri base_path =
      let path = uris.path uri in
      if is_empty base_path || (already_scoped base_path path || not (has_marker path))
      then some none
      else rescoped (uris.parse (base_path ++ text_of path (uris.path_and_query uri)))
