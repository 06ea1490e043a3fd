-- ===== src/Proxy/Vary.antt =====
-- src/proxy.rs: `ensure_vary_accept_encoding`.
pub mod Claims
use kse_static_rewrite_proxy.Base.{
  Bool, true, false, ◌||◌, List, [], ◌∷◌, ◌++◌, map, Option, none, some, if◌then◌else◌,
}
use kse_static_rewrite_proxy.Slice.{Bytes, bytes, equal}
use kse_static_rewrite_proxy.Slice.Text.{eq_ignore_ascii_case, any}
use kse_static_rewrite_proxy.Slice.Split.{split, join, trim}
use kse_static_rewrite_proxy.Http.{Http, vary}

-- `.filter(|value| !value.is_empty())`.
abbrev pub without_empty : List Bytes → List Bytes
without_empty [] = []
without_empty ([] ∷ parts) = without_empty parts
without_empty ((b ∷ bs) ∷ parts) = (b ∷ bs) ∷ without_empty parts

-- The items of one value.
unfoldable pub listed : Bytes → List Bytes
listed value = without_empty (map trim (split b',' value))

unfoldable pub is_accept_encoding : Bytes → Bool
is_accept_encoding value =
    equal value (bytes "*") || eq_ignore_ascii_case value (bytes "accept-encoding")

module _ (http : Http) where
  -- The items of the values that are visible ASCII.
  unfoldable pub vary_items : List Bytes → List Bytes
  vary_items [] = []
  vary_items (value ∷ values) = elim (http.to_str value) as (λ _. List Bytes) [
    | none ↦ vary_items values
    | some text ↦ listed text ++ vary_items values
  ]

  unfoldable pub ensure_vary_accept_encoding : http.HeaderMap → Option http.HeaderMap
  ensure_vary_accept_encoding response =
      let items = vary_items (http.get_all vary response) in
      if any is_accept_encoding items
      then some response
      else http.insert_header vary (join (bytes ", ") (items ++ (bytes "Accept-Encoding" ∷ [])))
          response
