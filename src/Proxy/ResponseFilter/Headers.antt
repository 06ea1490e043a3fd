-- ===== src/Proxy/ResponseFilter/Headers.antt =====
-- The headers of a response that is rewritten.
use kse_static_rewrite_proxy.Base.{
  Bool, true, false, List, [], ◌∷◌, ◌≡◌, ◌≢◌, refl, ◌∙◌, Option, none, some, Each, Each-front, ◌&&◌,
  arith,
}
use native.Mathlib.Decide.{ℕ_discrete}
use kse_static_rewrite_proxy.Slice.{Bytes, bytes}
use kse_static_rewrite_proxy.Slice.Text.{any}
use kse_static_rewrite_proxy.Http.{
  HeaderName, content_encoding, content_length, content_md5, content_digest, content_range,
  repr_digest, digest, last_modified, accept_ranges, cache_control, etag, vary,
}
use kse_static_rewrite_proxy.Proxy.Vary.{is_accept_encoding}
use kse_static_rewrite_proxy.Proxy.Vary.Claims.{items_of, Varies}
use kse_static_rewrite_proxy.Proxy.Session.{Libraries}
use kse_static_rewrite_proxy.Proxy.ResponseFilter.{stale_headers, remove_headers}

HeaderName-discrete : Discrete HeaderName
HeaderName-discrete = hlevel ℕ_discrete

-- A name that is none of the list.
abbrev pub IsBeside : List HeaderName → HeaderName → Type 0
IsBeside names name = Each (λ n. name ≢ n) names

-- The headers that say something of the upstream's own text.
abbrev pub gone_headers : List HeaderName
gone_headers =
    content_length ∷ content_encoding ∷ content_md5 ∷ content_digest ∷ repr_digest ∷ digest
    ∷ content_range ∷ last_modified ∷ []

abbrev set_headers : List HeaderName
set_headers = vary ∷ etag ∷ cache_control ∷ accept_ranges ∷ []

are_beside : List HeaderName → HeaderName → Bool
are_beside [] name = true
are_beside (n ∷ names) name = elim (HeaderName-discrete name n) as (λ _. Bool) [
  | yes same ↦ false
  | no other ↦ are_beside names name
]

-- The names of two lists are told apart by comparing them all.
are_beside-IsBeside :
    (names : List HeaderName) (name : HeaderName)
    → are_beside names name ≡ true
    → IsBeside names name
unfolding are_beside
are_beside-IsBeside [] name h = tt
are_beside-IsBeside (n ∷ names) name h =
    go (HeaderName-discrete name n) h (are_beside-IsBeside names name)
  where
    go :
        (d : Dec (name ≡ n))
        → (elim d as (λ _. Bool) [ yes same ↦ false | no other ↦ are_beside names name ]) ≡ true
        → (are_beside names name ≡ true → IsBeside names name)
        → IsBeside (n ∷ names) name
    go (yes same) e f = cc
    go (no other) e f = (other, f e)

all_beside : List HeaderName → List HeaderName → Bool
all_beside touched [] = true
all_beside touched (n ∷ names) = are_beside touched n && all_beside touched names

all_beside-IsBeside :
    (touched names : List HeaderName)
    → all_beside touched names ≡ true
    → Each (IsBeside touched) names
unfolding all_beside
all_beside-IsBeside touched [] h = tt
all_beside-IsBeside touched (n ∷ names) h =
    (are_beside-IsBeside touched n (ground arith), all_beside-IsBeside touched names (ground arith))

gone-IsBeside : Each (IsBeside set_headers) gone_headers
unfolding all_beside are_beside HeaderName-discrete ℕ_discrete
gone-IsBeside = all_beside-IsBeside set_headers gone_headers refl

cache_control-IsBeside : IsBeside (vary ∷ stale_headers) cache_control
unfolding are_beside HeaderName-discrete ℕ_discrete
cache_control-IsBeside = are_beside-IsBeside (vary ∷ stale_headers) cache_control refl

module _ (l : Libraries) where
  abbrev pub IsGone : l.http.HeaderMap → HeaderName → Type 0
  IsGone headers name = l.http.get_all name headers ≡ []

  abbrev pub IsKept : l.http.HeaderMap → l.http.HeaderMap → HeaderName → Type 0
  IsKept before after name = l.http.get_all name after ≡ l.http.get_all name before

  remove-IsGone :
      (name : HeaderName) (headers : l.http.HeaderMap) (gone : HeaderName)
      → IsGone headers gone
      → IsGone (l.http.remove_header name headers) gone
  remove-IsGone name headers gone h = elim (HeaderName-discrete gone name) [
    | yes same ↦ rw same (l.http.removed name headers)
    | no other ↦ l.http.removed_beside name gone headers other ∙ h
  ]

  remove_headers-IsGone :
      (names : List HeaderName) (headers : l.http.HeaderMap) (gone : HeaderName)
      → IsGone headers gone
      → IsGone (remove_headers l names headers) gone
  unfolding remove_headers
  remove_headers-IsGone [] headers gone h = h
  remove_headers-IsGone (name ∷ names) headers gone h =
      remove_headers-IsGone names (l.http.remove_header name headers) gone
        (remove-IsGone name headers gone h)

  pub remove_headers-all :
      (names : List HeaderName) (headers : l.http.HeaderMap)
      → Each (IsGone (remove_headers l names headers)) names
  unfolding remove_headers
  remove_headers-all [] headers = tt
  remove_headers-all (name ∷ names) headers = (
    remove_headers-IsGone names (l.http.remove_header name headers) name
        (l.http.removed name headers),
    remove_headers-all names (l.http.remove_header name headers),
  )

  pub remove_headers-IsKept :
      (names : List HeaderName) (headers : l.http.HeaderMap) (name : HeaderName)
      → IsBeside names name
      → IsKept headers (remove_headers l names headers) name
  unfolding remove_headers
  remove_headers-IsKept [] headers name h = refl
  remove_headers-IsKept (n ∷ names) headers name h =
      remove_headers-IsKept names (l.http.remove_header n headers) name h.1
      ∙ l.http.removed_beside n name headers h.0

  -- With a tag, or with none and so not to be stored.
  abbrev pub IsTagged : l.http.HeaderMap → l.http.HeaderMap → Option Bytes → Type 0
  IsTagged before after none =
      IsGone after etag × (l.http.get_all cache_control after ≡ bytes "no-store" ∷ [])
  IsTagged before after (some tag) =
      (l.http.get_all etag after ≡ tag ∷ []) × IsKept before after cache_control

  -- What the upstream's own text had is gone, no range is offered, the response varies by
  -- `Accept-Encoding` and has the tag; every other header is as before.
  pub record Cleans (tag : Option Bytes) (before after : l.http.HeaderMap) : Type 0 where
    pub gone : Each (IsGone after) gone_headers
    pub no_ranges : l.http.get_all accept_ranges after ≡ bytes "none" ∷ []
    pub varies : any is_accept_encoding (items_of l.http after) ≡ true
    pub tagged : IsTagged before after tag
    pub beside :
        (name : HeaderName)
        → IsBeside (vary ∷ (etag ∷ (cache_control ∷ stale_headers))) name
        → IsKept before after name

  -- The headers before the tag is put in.
  pub record Prepares (before after : l.http.HeaderMap) : Type 0 where
    pub gone : Each (IsGone after) gone_headers
    pub no_ranges : l.http.get_all accept_ranges after ≡ bytes "none" ∷ []
    pub varies : any is_accept_encoding (items_of l.http after) ≡ true
    pub beside :
        (name : HeaderName) → IsBeside (vary ∷ stale_headers) name → IsKept before after name

  still-IsGone :
      (touched names : List HeaderName) (before after : l.http.HeaderMap)
      → ((name : HeaderName) → IsBeside touched name → IsKept before after name)
      → Each (IsBeside touched) names
      → Each (IsGone before) names
      → Each (IsGone after) names
  still-IsGone touched [] before after kept h gone = tt
  still-IsGone touched (n ∷ names) before after kept h gone =
      (kept n h.0 ∙ gone.0, still-IsGone touched names before after kept h.1 gone.1)

  pub prepared :
      (before whole varied : l.http.HeaderMap)
      → l.http.insert_header accept_ranges (bytes "none") (remove_headers l stale_headers before)
        ≡ some whole
      → Varies l.http whole varied
      → Prepares before varied
  prepared before whole varied e v =
      let bare = remove_headers l stale_headers before in
      let all = remove_headers-all stale_headers before in
      let kept = λ (name : HeaderName) (h : IsBeside set_headers name).
        v.beside name h.0 ∙ l.http.inserted_beside accept_ranges name _ bare whole e h.1.1.1.0 in
      record {
        gone =
            still-IsGone set_headers gone_headers bare varied kept gone-IsBeside
              (Each-front (IsGone bare) gone_headers (accept_ranges ∷ []) all);
        no_ranges = v.beside accept_ranges (λ x. cc) ∙ l.http.inserted accept_ranges _ bare whole e;
        varies = v.covered;
        beside = λ name h.
            v.beside name h.0
            ∙ (l.http.inserted_beside accept_ranges name _ bare whole e h.1.1.1.1.1.1.1.1.1.0
                ∙ remove_headers-IsKept stale_headers before name h.1);
      }

  -- What `validate` leaves of the headers, with and without a tag.
  pub tagged-Cleans :
      (tag : Bytes) (before varied after : l.http.HeaderMap)
      → Prepares before varied
      → l.http.insert_header etag tag varied ≡ some after
      → Cleans (some tag) before after
  tagged-Cleans tag before varied after p e =
      let kept = λ (name : HeaderName) (h : name ≢ etag).
        l.http.inserted_beside etag name tag varied after e h in
      record {
        gone =
            still-IsGone set_headers gone_headers varied after (λ name h. kept name h.1.0)
              gone-IsBeside p.gone;
        no_ranges = kept accept_ranges (λ x. cc) ∙ p.no_ranges;
        varies = rw (kept vary (λ x. cc)) p.varies;
        tagged = (
          l.http.inserted etag tag varied after e,
          kept cache_control (λ x. cc) ∙ p.beside cache_control cache_control-IsBeside,
        );
        beside = λ name h. kept name h.1.0 ∙ p.beside name (h.0, h.1.1.1);
      }

  pub untagged-Cleans :
      (before varied after : l.http.HeaderMap)
      → Prepares before varied
      → l.http.insert_header cache_control (bytes "no-store") (l.http.remove_header etag varied)
        ≡ some after
      → Cleans none before after
  untagged-Cleans before varied after p e =
      let bare = l.http.remove_header etag varied in
      let kept = λ (name : HeaderName) (h : name ≢ cache_control) (k : name ≢ etag).
        l.http.inserted_beside cache_control name (bytes "no-store") bare after e h
        ∙ l.http.removed_beside etag name varied k in
      record {
        gone =
            still-IsGone set_headers gone_headers varied after (λ name h. kept name h.1.1.0 h.1.0)
              gone-IsBeside p.gone;
        no_ranges = kept accept_ranges (λ x. cc) (λ x. cc) ∙ p.no_ranges;
        varies = rw (kept vary (λ x. cc) (λ x. cc)) p.varies;
        tagged = (
          l.http.inserted_beside cache_control etag (bytes "no-store") bare after e (λ x. cc)
              ∙ l.http.removed etag varied,
          l.http.inserted cache_control (bytes "no-store") bare after e,
        );
        beside = λ name h. kept name h.1.1.0 h.1.0 ∙ p.beside name (h.0, h.1.1.1);
      }
