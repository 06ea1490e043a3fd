-- ===== src/Proxy/ApiUri/Claims.antt =====
-- Which requests go below the base path upstream.
use kse_static_rewrite_proxy.Base.{
  true, false, [], ◌∷◌, ◌++◌, ◌≡◌, ◌≢◌, ◌⊎◌, inl, inr, refl, ap, ◌∙◌, Option, none, some, arith,
  Bool-cases, length, drop, drop-append_self,
}
use kse_static_rewrite_proxy.Slice.{Bytes, bytes, equal, starts_with}
use kse_static_rewrite_proxy.Slice.Text.{any, contains_byte, strip_prefix}
use kse_static_rewrite_proxy.Slice.Prefix.{starts_with→append, starts_with-append_self, equal→eq}
use kse_static_rewrite_proxy.Slice.Split.{contains_byte-append}
use kse_static_rewrite_proxy.Config.BasePath.{contains_text}
use kse_static_rewrite_proxy.Policy.Decide.{is_empty}
use kse_static_rewrite_proxy.Proxy.ApiUri.{
  Uris, before_query, has_marker, already_scoped, text_of, rescoped, api_uri_with_base_path,
}

-- The base path itself, or the base path and a slash with anything behind it.
abbrev pub IsBelow : Bytes → Bytes → Type 0
IsBelow base_path path = (path ≡ base_path) ⊎ ((rest : Bytes) × (path ≡ base_path ++ (b'/' ∷ rest)))

-- A base path that can stand in front of a path: rooted, without a query or a fragment.
pub record IsPrefixPath (base_path : Bytes) : Type 0 where
  pub rooted : starts_with (bytes "/") base_path ≡ true
  pub no_query : contains_byte b'?' base_path ≡ false
  pub no_fragment : contains_byte b'#' base_path ≡ false

starts_slash :
    (text : Bytes) → starts_with (bytes "/") text ≡ true → (rest : Bytes) × (text ≡ b'/' ∷ rest)
starts_slash text h = (drop 1 text, starts_with→append (bytes "/") text h)

scoped-IsBelow :
    (base_path path : Bytes) → already_scoped base_path path ≡ true → IsBelow base_path path
unfolding already_scoped strip_prefix
scoped-IsBelow base_path path h = elim (Bool-cases (equal path base_path)) [
  | inl same ↦ inl (equal→eq path base_path same)
  | inr differs ↦ elim (Bool-cases (starts_with base_path path)) [
    | inl below ↦
        let (rest, e) = starts_slash (drop (length base_path) path) (ground arith) in
        inr (rest, starts_with→append base_path path below ∙ ap (λ (xs : Bytes). base_path ++ xs) e)
    | inr beside ↦ absurd (ground arith)
  ]
]

below-scoped :
    (base_path rest : Bytes) → already_scoped base_path (base_path ++ (b'/' ∷ rest)) ≡ true
unfolding already_scoped strip_prefix
below-scoped base_path rest =
    rw (starts_with-append_self base_path (b'/' ∷ rest), drop-append_self base_path (b'/' ∷ rest))
      (elim (Bool-cases (equal (base_path ++ (b'/' ∷ rest)) base_path)) [
        | inl e ↦ rw e refl
        | inr e ↦ rw e (unfold starts_with in refl)
      ])

before_query-append :
    (xs ys : Bytes)
    → contains_byte b'?' xs ≡ false
    → before_query (xs ++ ys) ≡ xs ++ before_query ys
unfolding before_query contains_byte
before_query-append [] ys h = refl
before_query-append (x ∷ xs) ys h = ground (arith, before_query-append xs ys)

no_marker_nil : has_marker [] ≡ false
unfolding has_marker any contains_text starts_with
no_marker_nil = refl

no_marker_star : has_marker (bytes "*") ≡ false
unfolding has_marker any contains_text starts_with
no_marker_star = refl

starts_with-append_front :
    (n xs ys : Bytes) → starts_with n xs ≡ true → starts_with n (xs ++ ys) ≡ true
unfolding starts_with
starts_with-append_front [] xs ys h = refl
starts_with-append_front (n ∷ ns) [] ys h = cc
starts_with-append_front (n ∷ ns) (x ∷ xs) ys h = ground (arith, starts_with-append_front ns xs ys)

not_empty :
    (base_path : Bytes) → starts_with (bytes "/") base_path ≡ true → is_empty base_path ≡ false
unfolding is_empty starts_with
not_empty [] h = cc
not_empty (b ∷ bs) h = refl

module _ (uris : Uris) where
  marked-rooted :
      (uri : uris.Uri)
      → has_marker (uris.path uri) ≡ true
      → (rest : Bytes) × (uris.path uri ≡ b'/' ∷ rest)
  marked-rooted uri h = elim (uris.rooted uri) [
    | inl empty ↦ let none_there = ap has_marker empty ∙ no_marker_nil in absurd (cc)
    | inr (inl star) ↦ let none_there = ap has_marker star ∙ no_marker_star in absurd (cc)
    | inr (inr slash) ↦ starts_slash (uris.path uri) slash
  ]

  -- The text of a URI, with its path in front.
  text-path :
      (uri : uris.Uri) (o : Option Bytes)
      → uris.path_and_query uri ≡ o
      → (before_query (text_of (uris.path uri) o) ≡ uris.path uri)
        × (contains_byte b'#' (text_of (uris.path uri) o) ≡ false)
  text-path uri none e = (uris.no_query uri, uris.no_fragment uri)
  text-path uri (some text) e = uris.in_front uri text e

  rescoped-none : (o : Option uris.Uri) → rescoped uris o ≢ some none
  rescoped-none none e = cc
  rescoped-none (some u) e = ground arith

  rescoped-some :
      (o : Option uris.Uri) (v : uris.Uri) → rescoped uris o ≡ some (some v) → o ≡ some v
  rescoped-some none v e = cc
  rescoped-some (some u) v e = ground arith

  -- The URI that is sent upstream.
  abbrev pub sent_uri : uris.Uri → Option uris.Uri → uris.Uri
  sent_uri uri none = uri
  sent_uri uri (some moved) = moved

  -- It is the request's own, or the base path in front of the request's path and query; it is below
  -- the base path, and would not be moved again.
  pub record Forwards (base_path : Bytes) (uri sent : uris.Uri) : Type 0 where
    pub moved :
        (uris.path sent ≡ uris.path uri)
        ⊎ ((uris.path sent ≡ base_path ++ uris.path uri)
            × (uris.path_and_query sent
                ≡ some (base_path ++ text_of (uris.path uri) (uris.path_and_query uri))))
    pub below : IsBelow base_path (uris.path sent)
    pub settled : api_uri_with_base_path uris sent base_path ≡ some none

  settled_at :
      (base_path : Bytes) (uri : uris.Uri)
      → already_scoped base_path (uris.path uri) ≡ true
      → api_uri_with_base_path uris uri base_path ≡ some none
  unfolding api_uri_with_base_path
  settled_at base_path uri h = elim (Bool-cases (is_empty base_path)) [
    | inl e ↦ rw e refl
    | inr e ↦ rw (e, h) refl
  ]

  parsed-Forwards :
      (base_path : Bytes) (uri sent : uris.Uri)
      → IsPrefixPath base_path
      → has_marker (uris.path uri) ≡ true
      → uris.parse (base_path ++ text_of (uris.path uri) (uris.path_and_query uri)) ≡ some sent
      → Forwards base_path uri sent
  parsed-Forwards base_path uri sent h marked e =
      let text = text_of (uris.path uri) (uris.path_and_query uri) in
      let (front, no_fragment) = text-path uri (uris.path_and_query uri) refl in
      let (path, kept) =
        uris.parsed (base_path ++ text) sent
          (starts_with-append_front (bytes "/") base_path text h.rooted)
          (contains_byte-append b'#' base_path text ∙ rw (h.no_fragment, no_fragment) refl) e in
      let whole =
        path
        ∙ (before_query-append base_path text h.no_query
            ∙ ap (λ (xs : Bytes). base_path ++ xs) front) in
      let (rest, slash) = marked-rooted uri marked in
      let below = whole ∙ ap (λ (xs : Bytes). base_path ++ xs) slash in
      record {
        moved = inr (whole, kept);
        below = inr (rest, below);
        settled =
            settled_at base_path sent
              (ap (already_scoped base_path) below ∙ below-scoped base_path rest);
      }

  -- For a rooted base path without a query or a fragment and a URI whose path has an API marker: if
  -- no URI is refused, what is sent upstream is below the base path, is the request's own or has the
  -- base path in front of the same path and query, and would not be moved again.
  pub api_uri-Forwards :
      (base_path : Bytes) (uri : uris.Uri) (result : Option uris.Uri)
      → IsPrefixPath base_path
      → has_marker (uris.path uri) ≡ true
      → api_uri_with_base_path uris uri base_path ≡ some result
      → Forwards base_path uri (sent_uri uri result)
  unfolding api_uri_with_base_path
  api_uri-Forwards base_path uri (some sent) h marked e =
      elim (Bool-cases (already_scoped base_path (uris.path uri))) [
        | inl scoped ↦ let stays = settled_at base_path uri scoped in absurd (cc)
        | inr free ↦
            let ne = not_empty base_path h.rooted in
            parsed-Forwards base_path uri sent h marked
              (rescoped-some _ sent (rw (ne, free, marked) at e))
      ]
  api_uri-Forwards base_path uri none h marked e =
      elim (Bool-cases (already_scoped base_path (uris.path uri))) [
        | inl scoped ↦ record {
          moved = inl refl;
          below = scoped-IsBelow base_path (uris.path uri) scoped;
          settled = settled_at base_path uri scoped;
        }
        | inr free ↦
            let ne = not_empty base_path h.rooted in
            absurd (rescoped-none _ (rw (ne, free, marked) at e))
      ]
