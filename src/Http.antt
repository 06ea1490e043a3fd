-- ===== src/Http.antt =====
-- The crates http and pingora, as the source uses them: headers, URIs and the errors of a filter.
use kse_static_rewrite_proxy.Base.{
  ℕ, Bool, true, ◌||◌, List, [], ◌∷◌, ◌≡◌, ◌≢◌, Option, some, ◌==◌, within, head?,
}
use kse_static_rewrite_proxy.Slice.{Bytes}
use kse_static_rewrite_proxy.Slice.Text.{all_bytes}

-- The names that the source gives, and any other.
pub data HeaderName : Type 0 where
  accept_encoding accept_ranges cache_control content_encoding content_length : HeaderName
  content_type content_md5 content_digest content_range digest etag : HeaderName
  if_modified_since if_none_match if_range last_modified range repr_digest : HeaderName
  retry_after vary x_request_id : HeaderName
  other : Bytes → HeaderName

-- Visible ASCII, a space or a tab.
abbrev pub is_visible : ℕ → Bool
is_visible b = within 32 126 b || b == 9

abbrev pub all_visible : Bytes → Bool
all_visible value = all_bytes is_visible value

-- `HeaderMap` with the methods of the same names, `insert_header` and `remove_header` of a request or
-- a response, and `HeaderValue::to_str`. A value is its bytes.
pub record Http : Type 1 where
  pub HeaderMap : Type 0
  pub empty : HeaderMap
  pub get_all : HeaderName → HeaderMap → List Bytes
  pub get : HeaderName → HeaderMap → Option Bytes
  pub insert_header : HeaderName → Bytes → HeaderMap → Option HeaderMap
  pub remove_header : HeaderName → HeaderMap → HeaderMap
  pub to_str : Bytes → Option Bytes
  pub get_first : (name : HeaderName) (h : HeaderMap) → get name h ≡ head? (get_all name h)
  pub get_all_empty : (name : HeaderName) → get_all name empty ≡ []
  pub inserts :
      (name : HeaderName) (value : Bytes) (h : HeaderMap)
      → all_visible value ≡ true
      → (after : HeaderMap) × (insert_header name value h ≡ some after)
  pub inserted :
      (name : HeaderName) (value : Bytes) (h after : HeaderMap)
      → insert_header name value h ≡ some after
      → get_all name after ≡ value ∷ []
  pub inserted_beside :
      (name beside : HeaderName) (value : Bytes) (h after : HeaderMap)
      → insert_header name value h ≡ some after
      → beside ≢ name
      → get_all beside after ≡ get_all beside h
  pub removed : (name : HeaderName) (h : HeaderMap) → get_all name (remove_header name h) ≡ []
  pub removed_beside :
      (name beside : HeaderName) (h : HeaderMap)
      → beside ≢ name
      → get_all beside (remove_header name h) ≡ get_all beside h
  pub to_str_visible : (value : Bytes) → all_visible value ≡ true → to_str value ≡ some value
  pub to_str_same :
      (value text : Bytes) → to_str value ≡ some text → (text ≡ value) × (all_visible value ≡ true)
