-- ===== src/Proxy/Etag/Matches.antt =====
-- What a client has to send to be told that nothing has changed.
use kse_static_rewrite_proxy.Base.{
  ℕ, Bool, true, false, not, inr, ◌||◌, List, [], ◌∷◌, ◌++◌, ◌≡◌, ◌↔◌, refl, ap, ◌∙◌, some, ◌==◌,
  Each, Each-append, arith,
}
use kse_static_rewrite_proxy.Slice.{Bytes, bytes, equal}
use kse_static_rewrite_proxy.Slice.Prefix.{equal_refl}
use kse_static_rewrite_proxy.Slice.Text.{all_bytes, any, contains_byte}
use kse_static_rewrite_proxy.Slice.Split.{
  join, trim, trim_start, trim_end, all_bytes-append, contains_byte-append, is_whitespace,
  keep_visible,
}
use kse_static_rewrite_proxy.Slice.Items.{IsListItem, parts-join, join-visible}
use kse_static_rewrite_proxy.Http.{Http, all_visible, is_visible}
use kse_static_rewrite_proxy.Proxy.Etag.{
  Digest, hashed, components, derive_etag, is_etag_byte, is_url_safe, matches_any,
  if_none_match_matches,
}
use kse_static_rewrite_proxy.Proxy.Etag.Claims.{IsEntityTag}

-- The tag stands in the list, or a star.
abbrev pub IsAsked : Bytes → List Bytes → Type 0
IsAsked tag items = any (λ item. equal item (bytes "*") || equal item tag) items ≡ true

-- An `If-None-Match` with a list of items matches exactly if the derived tag or a star is among
-- them.
pub if_none_match_iff :
    (http : Http) (tag item : Bytes) (items : List Bytes)
    → IsListItem b',' item
    → Each (IsListItem b',') items
    → (if_none_match_matches http (some (join (bytes ", ") (item ∷ items))) tag ≡ true)
      ↔ IsAsked tag (item ∷ items)
unfolding if_none_match_matches matches_any
if_none_match_iff http tag item items h k =
    rw
      (
        http.to_str_visible (join (bytes ", ") (item ∷ items))
            (join-visible b',' item items refl h k),
        if_none_match_matches,
      )
      (rw (parts-join b',' item items refl h k) (λ e. e, λ e. e))

-- Every byte of a derived tag but its quotes and its slash is of the alphabet of base64.
all_bytes-weaken :
    (test weaker : ℕ → Bool) (text : Bytes)
    → ((b : ℕ) → test b ≡ true → weaker b ≡ true)
    → all_bytes test text ≡ true
    → all_bytes weaker text ≡ true
unfolding all_bytes
all_bytes-weaken test weaker [] f h = refl
all_bytes-weaken test weaker (b ∷ bs) f h = ground (arith, f b, all_bytes-weaken test weaker bs f)

safe-etag : (b : ℕ) → is_url_safe b ≡ true → is_etag_byte b ≡ true
safe-etag b h = ground arith

safe-free : (b : ℕ) → is_url_safe b ≡ true → not (b == b',') ≡ true
safe-free b h = ground arith

safe-visible : (b : ℕ) → is_url_safe b ≡ true → is_visible b ≡ true
safe-visible b h = ground arith

all_bytes-free :
    (b : ℕ) (text : Bytes)
    → all_bytes (λ c. not (c == b)) text ≡ true
    → contains_byte b text ≡ false
unfolding all_bytes contains_byte
all_bytes-free b [] h = refl
all_bytes-free b (c ∷ cs) h = ground (arith, all_bytes-free b cs)

trim_end-last :
    (text : Bytes) (last : ℕ)
    → is_whitespace last ≡ false
    → trim_end (text ++ (last ∷ [])) ≡ text ++ (last ∷ [])
unfolding trim_end
trim_end-last [] last h = ground arith
trim_end-last (b ∷ []) last h = ground (arith, trim_end-last [] last h)
trim_end-last (b ∷ (c ∷ cs)) last h = ap (keep_visible b) (trim_end-last (c ∷ cs) last h)

any-found :
    (test : Bytes → Bool) (before : List Bytes) (found : Bytes) (after : List Bytes)
    → test found ≡ true
    → any test (before ++ (found ∷ after)) ≡ true
unfolding any
any-found test [] found after h = rw h refl
any-found test (x ∷ before) found after h = ground (arith, any-found test before found after h)

module _ (digest : Digest) (etag base_path extension : Bytes) where
  abbrev code : Bytes
  code = digest.encode (digest.hash (hashed (components etag base_path extension)))

  -- A derived tag is a weak entity tag.
  pub derive_etag-IsEntityTag : IsEntityTag (derive_etag digest etag base_path extension)
  unfolding derive_etag all_bytes
  derive_etag-IsEntityTag = inr (
    bytes "\"kserw-v34-" ++ (code ++ bytes "\""),
    refl,
    (
      bytes "kserw-v34-" ++ code,
      refl,
      all_bytes-weaken is_url_safe is_etag_byte code safe-etag (digest.encode_safe _),
    ),
  )

  derive_etag-trim :
      trim (derive_etag digest etag base_path extension)
      ≡ derive_etag digest etag base_path extension
  unfolding derive_etag trim trim_start
  derive_etag-trim = trim_end-last (bytes "W/\"kserw-v34-" ++ code) b'"' refl

  pub derive_etag-visible : all_visible (derive_etag digest etag base_path extension) ≡ true
  unfolding derive_etag all_bytes
  derive_etag-visible =
      all_bytes-append is_visible code (bytes "\"")
      ∙ rw (all_bytes-weaken is_url_safe is_visible code safe-visible (digest.encode_safe _)) refl

  derive_etag-free : contains_byte b',' (derive_etag digest etag base_path extension) ≡ false
  unfolding derive_etag contains_byte
  derive_etag-free =
      contains_byte-append b',' code (bytes "\"")
      ∙ rw
          (all_bytes-free b',' code (
            all_bytes-weaken is_url_safe (λ c. not (c == b',')) code safe-free
              (digest.encode_safe _)))
          refl

  abbrev tag : Bytes
  tag = derive_etag digest etag base_path extension

  tag-IsListItem : IsListItem b',' tag
  tag-IsListItem = (derive_etag-free, derive_etag-trim, derive_etag-visible)

  self-asked : (equal tag (bytes "*") || equal tag tag) ≡ true
  self-asked = let same = equal_refl tag in ground arith

  -- A client that sends a derived tag back, alone or in a list with other items, is told that nothing
  -- has changed.
  pub if_none_match-derived :
      (http : Http) (before : List Bytes) (after : List Bytes)
      → Each (IsListItem b',') before
      → Each (IsListItem b',') after
      → if_none_match_matches http
          (some
            (join (bytes ", ") (before ++ (derive_etag digest etag base_path extension ∷ after))))
          (derive_etag digest etag base_path extension)
        ≡ true
  if_none_match-derived http [] after h k =
      (if_none_match_iff http tag tag after tag-IsListItem k).1
        (any-found (λ item. equal item (bytes "*") || equal item tag) [] tag after self-asked)
  if_none_match-derived http (item ∷ before) after h k =
      (if_none_match_iff http tag item (before ++ (tag ∷ after)) h.0
          (Each-append (IsListItem b',') before (tag ∷ after) h.1 (tag-IsListItem, k))).1
        (any-found (λ item. equal item (bytes "*") || equal item tag) (item ∷ before) tag after
          self-asked)
