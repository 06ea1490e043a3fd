-- ===== src/Proxy/Media/Claims.antt =====
-- Which content types are rewritten.
use kse_static_rewrite_proxy.Base.{
  ℕ, Bool, true, false, List, [], ◌∷◌, ◌++◌, map, ◌≡◌, ◌↔◌, ◌⊎◌, inl, inr, refl, ap, ◌∙◌, some,
  Each, arith, Bool-cases, if◌then◌else◌,
}
use kse_static_rewrite_proxy.Slice.{Bytes, bytes, equal}
use kse_static_rewrite_proxy.Slice.Text.{
  any, contains_byte, eq_ignore_ascii_case, trim_end_matches, trim_start_matches, keep_unless,
}
use kse_static_rewrite_proxy.Slice.Split.{join, trim}
use kse_static_rewrite_proxy.Slice.Prefix.{equal→eq, equal_refl}
use kse_static_rewrite_proxy.Slice.Items.{IsListItem, parts-join, join-visible}
use kse_static_rewrite_proxy.Http.{Http}
use kse_static_rewrite_proxy.Policy.Route.{split_once-append_first}
use kse_static_rewrite_proxy.Policy.{
  RewriteProfile, console_v3, frontend_index_js_bundle, ys1000_frontend_index_js_bundle, js_bundle,
  kubekey_asset_js, named_proxy_html, ys1000_html,
}
use kse_static_rewrite_proxy.Proxy.Media.{
  html_types, text_types, media_type_allowed, lowercase, unquote, is_utf8_charset,
  parameter_allowed, all_allowed, parts_allowed, is_rewritable_content_type,
  selects_html_by_response_content_type,
}

-- What may be rewritten by each profile.
abbrev pub allowed_types : RewriteProfile → List Bytes
allowed_types named_proxy_html = html_types
allowed_types ys1000_html = html_types
allowed_types frontend_index_js_bundle = bytes "text/plain" ∷ text_types
allowed_types ys1000_frontend_index_js_bundle = bytes "text/plain" ∷ text_types
allowed_types console_v3 = text_types
allowed_types js_bundle = text_types
allowed_types kubekey_asset_js = text_types

-- A parameter of a content type, with or without quotes round its value.
pub record Parameter : Type 0 where
  pub name : Bytes
  pub value : Bytes
  pub is_quoted : Bool

abbrev pub quoted_value : Parameter → Bytes
quoted_value p = if p.is_quoted then b'"' ∷ (p.value ++ bytes "\"") else p.value

abbrev pub written_parameter : Parameter → Bytes
written_parameter p = p.name ++ (bytes "=" ++ quoted_value p)

-- It has no space round its name and its value, and no other separator.
pub record IsParameter (p : Parameter) : Type 0 where
  pub item : IsListItem b';' (written_parameter p)
  pub name_free : contains_byte b'=' p.name ≡ false
  pub name_trimmed : trim p.name ≡ p.name
  pub value_trimmed : trim (quoted_value p) ≡ quoted_value p
  pub value_free : contains_byte b'"' p.value ≡ false

-- A charset names UTF-8; any other parameter is free.
abbrev pub NamesUtf8 : Parameter → Type 0
NamesUtf8 p =
    lowercase p.name ≡ bytes "charset"
    → (lowercase p.value ≡ bytes "utf-8") ⊎ (lowercase p.value ≡ bytes "utf8")

trim_start_free :
    (b : ℕ) (text : Bytes) → contains_byte b text ≡ false → trim_start_matches b text ≡ text
unfolding trim_start_matches contains_byte
trim_start_free b [] h = refl
trim_start_free b (c ∷ cs) h = ground arith

trim_end_free :
    (b : ℕ) (text : Bytes) → contains_byte b text ≡ false → trim_end_matches b text ≡ text
unfolding trim_end_matches contains_byte
trim_end_free b [] h = refl
trim_end_free b (c ∷ cs) h = rw (trim_end_free b cs (ground arith)) (go cs)
  where
    go : (r : Bytes) → keep_unless b c r ≡ c ∷ r
    go [] = ground arith
    go (d ∷ ds) = refl

trim_end_last :
    (b : ℕ) (text : Bytes)
    → contains_byte b text ≡ false
    → trim_end_matches b (text ++ (b ∷ [])) ≡ text
unfolding trim_end_matches contains_byte
trim_end_last b [] h = ground arith
trim_end_last b (c ∷ cs) h = rw (trim_end_last b cs (ground arith)) (go cs)
  where
    go : (r : Bytes) → keep_unless b c r ≡ c ∷ r
    go [] = ground arith
    go (d ∷ ds) = refl

unquote-quoted :
    (p : Parameter) → contains_byte b'"' p.value ≡ false → unquote (quoted_value p) ≡ p.value
unquote-quoted p h = go p.is_quoted p.value h
  where
    go :
        (q : Bool) (value : Bytes)
        → contains_byte b'"' value ≡ false
        → unquote (if q then b'"' ∷ (value ++ bytes "\"") else value) ≡ value
    go false value h =
        ap (trim_end_matches b'"') (trim_start_free b'"' value h) ∙ trim_end_free b'"' value h
    go true [] h = unfold trim_start_matches trim_end_matches in refl
    go true (c ∷ cs) h =
        let start : trim_start_matches b'"' (b'"' ∷ ((c ∷ cs) ++ bytes "\""))
            ≡ (c ∷ cs) ++ bytes "\"" =
          unfold trim_start_matches contains_byte in ground arith in
        ap (trim_end_matches b'"') start ∙ trim_end_last b'"' (c ∷ cs) h

equal_iff : (xs ys : Bytes) → (equal xs ys ≡ true) ↔ (xs ≡ ys)
equal_iff xs ys = (equal→eq xs ys, λ e. rw e (equal_refl ys))

utf8_iff :
    (text : Bytes)
    → (is_utf8_charset text ≡ true) ↔ ((text ≡ bytes "utf-8") ⊎ (text ≡ bytes "utf8"))
unfolding is_utf8_charset
utf8_iff text = (
  λ e. elim (Bool-cases (equal text (bytes "utf-8"))) [
    | inl found ↦ inl (equal→eq text (bytes "utf-8") found)
    | inr missed ↦ inr (equal→eq text (bytes "utf8") (ground arith))
  ],
  elim [
    | inl e ↦ let k = (equal_iff text (bytes "utf-8")).1 e in ground arith
    | inr e ↦ let k = (equal_iff text (bytes "utf8")).1 e in ground arith
  ],
)

charset_iff :
    (name : Bytes)
    → (eq_ignore_ascii_case name (bytes "charset") ≡ true) ↔ (lowercase name ≡ bytes "charset")
unfolding eq_ignore_ascii_case
charset_iff name = equal_iff (lowercase name) (bytes "charset")

parameter_allowed_iff :
    (p : Parameter) → IsParameter p → (parameter_allowed (written_parameter p) ≡ true) ↔ NamesUtf8 p
unfolding parameter_allowed
parameter_allowed_iff p h =
    rw (split_once-append_first b'=' [] p.name (quoted_value p) h.name_free, parameter_allowed)
      (rw (h.name_trimmed, h.value_trimmed, unquote-quoted p h.value_free)
        (
          λ e named.
              (utf8_iff (lowercase p.value)).0
                (let is_charset = (charset_iff p.name).1 named in ground arith),
          λ f. elim (Bool-cases (eq_ignore_ascii_case p.name (bytes "charset"))) [
            | inl charset ↦
                let utf8 = (utf8_iff (lowercase p.value)).1 (f ((charset_iff p.name).0 charset)) in
                ground arith
            | inr other ↦ rw other refl
          ],
        ))

all_allowed_iff :
    (ps : List Parameter)
    → Each IsParameter ps
    → (all_allowed (map written_parameter ps) ≡ true) ↔ Each NamesUtf8 ps
unfolding all_allowed
all_allowed_iff [] h = (λ e. tt, λ u. refl)
all_allowed_iff (p ∷ ps) h =
    let (right, left) = parameter_allowed_iff p h.0 in
    let (rest, back) = all_allowed_iff ps h.1 in
    (
      λ e. (right (ground arith), rest (ground arith)),
      λ (f, g). let one = left f in let others = back g in ground arith,
    )

media_type_allowed-any :
    (profile : RewriteProfile) (media_type : Bytes)
    → media_type_allowed profile media_type
      ≡ any (λ allowed. equal media_type allowed) (allowed_types profile)
unfolding media_type_allowed selects_html_by_response_content_type any
media_type_allowed-any console_v3 media_type = refl
media_type_allowed-any frontend_index_js_bundle media_type = refl
media_type_allowed-any ys1000_frontend_index_js_bundle media_type = refl
media_type_allowed-any js_bundle media_type = refl
media_type_allowed-any kubekey_asset_js media_type = refl
media_type_allowed-any named_proxy_html media_type = refl
media_type_allowed-any ys1000_html media_type = refl

-- A value put together from a media type and parameters, in any letter case, with or without quotes,
-- is rewritten by a profile exactly if the profile takes the media type and every `charset` names
-- UTF-8.
pub content_type_iff :
    (http : Http) (profile : RewriteProfile) (media_type : Bytes) (ps : List Parameter)
    → IsListItem b';' media_type
    → Each IsParameter ps
    → (is_rewritable_content_type http profile
          (some (join (bytes "; ") (media_type ∷ map written_parameter ps)))
        ≡ true)
      ↔ ((any (λ allowed. equal (lowercase media_type) allowed) (allowed_types profile) ≡ true)
          × Each NamesUtf8 ps)
unfolding is_rewritable_content_type parts_allowed
content_type_iff http profile media_type ps h k =
    let items = items_of ps k in
    let text = join (bytes "; ") (media_type ∷ map written_parameter ps) in
    let (right, left) = all_allowed_iff ps k in
    rw
      (
        http.to_str_visible text
            (join-visible b';' media_type (map written_parameter ps) refl h items),
        is_rewritable_content_type,
      )
      (rw
        (
          parts-join b';' media_type (map written_parameter ps) refl h items,
          media_type_allowed-any profile (lowercase media_type),
        )
        (λ e. (ground arith, right (ground arith)), λ (f, g). let allowed = left g in ground arith))
  where
    items_of :
        (qs : List Parameter)
        → Each IsParameter qs
        → Each (IsListItem b';') (map written_parameter qs)
    items_of [] u = tt
    items_of (q ∷ qs) (u, us) = (u.item, items_of qs us)
