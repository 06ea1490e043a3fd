-- ===== src/Proxy/Vary/Claims.antt =====
-- What `ensure_vary_accept_encoding` leaves in a response.
use kse_static_rewrite_proxy.Base.{
  Bool, true, false, ◌||◌, List, [], ◌∷◌, ◌++◌, map, ◌≡◌, ◌≢◌, refl, ap, ◌∙◌, Option, none, some,
  arith, if◌then◌else◌, Bool-cases, inl, inr, Each, Each-append, append-nil,
}
use kse_static_rewrite_proxy.Slice.{Bytes, bytes, equal}
use kse_static_rewrite_proxy.Slice.Text.{
  eq_ignore_ascii_case, any, contains_byte, all_bytes, to_ascii_lowercase,
}
use kse_static_rewrite_proxy.Slice.Split.{
  split, join, trim, longer_first, split-append, split-single, all_bytes-append, IsPart,
  split-IsPart,
}
use kse_static_rewrite_proxy.Slice.Trim.{trim-trim, trim-space, trim-contains, trim-all}
use kse_static_rewrite_proxy.Http.{Http, HeaderName, vary, is_visible}
use kse_static_rewrite_proxy.Proxy.Vary.{
  without_empty, listed, is_accept_encoding, vary_items, ensure_vary_accept_encoding,
}

-- A trimmed item that is not empty, with visible ASCII and no comma.
abbrev IsItem : Bytes → Type 0
IsItem item = (item ≢ []) × (trim item ≡ item) × IsPart b',' is_visible item

without_empty-IsItem :
    (parts : List Bytes)
    → Each (IsPart b',' is_visible) parts
    → Each IsItem (without_empty (map trim parts))
without_empty-IsItem [] h = tt
without_empty-IsItem (part ∷ parts) h =
    let (free, shown) = h.0 in
    go (trim part) (trim-trim part) (trim-contains b',' part free) (trim-all is_visible part shown)
      (without_empty-IsItem parts h.1)
  where
    go :
        (t : Bytes)
        → trim t ≡ t
        → contains_byte b',' t ≡ false
        → all_bytes is_visible t ≡ true
        → Each IsItem (without_empty (map trim parts))
        → Each IsItem (without_empty (t ∷ map trim parts))
    go [] e f k rest = rest
    go (b ∷ bs) e f k rest = ((λ x. cc, e, (f, k)), rest)

listed-IsItem : (value : Bytes) → all_bytes is_visible value ≡ true → Each IsItem (listed value)
unfolding listed
listed-IsItem value h =
    without_empty-IsItem (split b',' value) (split-IsPart b',' is_visible value h)

without_empty-cons :
    (item : Bytes) (parts : List Bytes)
    → item ≢ []
    → without_empty (item ∷ parts) ≡ item ∷ without_empty parts
without_empty-cons [] parts h = absurd (h refl)
without_empty-cons (b ∷ bs) parts h = refl

-- The space behind a comma is trimmed away.
listed-space : (value : Bytes) → listed (32 ∷ value) ≡ listed value
unfolding listed split
listed-space value = go (split b',' value)
  where
    go :
        (parts : List Bytes)
        → without_empty (map trim (longer_first 32 parts)) ≡ without_empty (map trim parts)
    go [] = unfold trim in refl
    go (part ∷ parts) = rw (trim-space part) refl

without_empty-append :
    (xs ys : List Bytes) → without_empty (xs ++ ys) ≡ without_empty xs ++ without_empty ys
without_empty-append [] ys = refl
without_empty-append ([] ∷ xs) ys = without_empty-append xs ys
without_empty-append ((b ∷ bs) ∷ xs) ys = ap (◌∷◌ (b ∷ bs)) (without_empty-append xs ys)

listed-item : (item : Bytes) → IsItem item → listed item ≡ item ∷ []
unfolding listed
listed-item item (filled, trimmed, (free, shown)) =
    rw (split-single b',' item free, trimmed) (without_empty-cons item [] filled)

listed-comma :
    (item rest : Bytes) → IsItem item → listed (item ++ (b',' ∷ rest)) ≡ item ∷ listed rest
unfolding listed
listed-comma item rest (filled, trimmed, (free, shown)) =
    rw (split-append b',' item rest, split-single b',' item free, trimmed)
      (without_empty-cons item (map trim (split b',' rest)) filled)

visible_comma :
    (item text : Bytes)
    → all_bytes is_visible item ≡ true
    → all_bytes is_visible text ≡ true
    → all_bytes is_visible (item ++ (b',' ∷ (32 ∷ text))) ≡ true
unfolding all_bytes
visible_comma item text h k = rw (all_bytes-append is_visible item (b',' ∷ (32 ∷ text)), h) k

-- Splitting a list of items that was joined gives the items back.
listed-join : (items : List Bytes) → Each IsItem items → listed (join (bytes ", ") items) ≡ items
unfolding join
listed-join [] h = unfold listed split trim in refl
listed-join (item ∷ []) h = listed-item item h.0
listed-join (item ∷ (next ∷ items)) h =
    let text = join (bytes ", ") (next ∷ items) in
    listed-comma item (32 ∷ text) h.0
    ∙ ap (◌∷◌ item) (listed-space text ∙ listed-join (next ∷ items) h.1)

join-visible :
    (items : List Bytes) → Each IsItem items → all_bytes is_visible (join (bytes ", ") items) ≡ true
unfolding join
join-visible [] h = unfold all_bytes in refl
join-visible (item ∷ []) h = h.0.2.1
join-visible (item ∷ (next ∷ items)) h =
    let text = join (bytes ", ") (next ∷ items) in
    visible_comma item text h.0.2.1 (join-visible (next ∷ items) h.1)

any-append : (p : Bytes → Bool) (xs ys : List Bytes) → any p (xs ++ ys) ≡ (any p xs || any p ys)
unfolding any
any-append p [] ys = refl
any-append p (x ∷ xs) ys = ground (arith, any-append p xs ys)

module _ (http : Http) where
  vary_items-IsItem : (values : List Bytes) → Each IsItem (vary_items http values)
  unfolding vary_items
  vary_items-IsItem [] = tt
  vary_items-IsItem (value ∷ values) =
      go (http.to_str value) (λ text e. http.to_str_same value text e) (vary_items-IsItem values)
    where
      go :
          (o : Option Bytes)
          → ((text : Bytes) → o ≡ some text → (text ≡ value) × (all_bytes is_visible value ≡ true))
          → Each IsItem (vary_items http values)
          → Each IsItem (elim o as (λ _. List Bytes) [
            | none ↦ vary_items http values
            | some text ↦ listed text ++ vary_items http values
          ])
      go none same rest = rest
      go (some text) same rest =
          let (e, shown) = same text refl in
          Each-append IsItem (listed text) (vary_items http values)
            (listed-IsItem text (rw e shown)) rest

  -- The items of a response, in the order of its values.
  abbrev pub items_of : http.HeaderMap → List Bytes
  items_of response = vary_items http (http.get_all vary response)

  -- A value that is put in is read back.
  vary_items-join :
      (items : List Bytes)
      → Each IsItem items
      → vary_items http (join (bytes ", ") items ∷ []) ≡ items
  unfolding vary_items
  vary_items-join items h =
      rw (http.to_str_visible (join (bytes ", ") items) (join-visible items h), vary_items)
        (append-nil (listed (join (bytes ", ") items)) ∙ listed-join items h)

  -- What stands in a response afterwards: the items as before, with `Accept-Encoding` behind them if
  -- none of them stood for it, and every other header as before.
  pub record Varies (before after : http.HeaderMap) : Type 0 where
    pub items : items_of after ≡ (
        if any is_accept_encoding (items_of before)
        then items_of before
        else items_of before ++ (bytes "Accept-Encoding" ∷ []))
    pub covered : any is_accept_encoding (items_of after) ≡ true
    pub beside :
        (name : HeaderName) → name ≢ vary → http.get_all name after ≡ http.get_all name before

  ensure-Varies :
      (before : http.HeaderMap)
      → (after : http.HeaderMap) × (ensure_vary_accept_encoding http before ≡ some after)
        × Varies before after
  unfolding ensure_vary_accept_encoding
  ensure-Varies before = elim (Bool-cases (any is_accept_encoding (items_of before))) [
    | inl there ↦ (
      before,
      rw there refl,
      record { items = rw there refl; covered = there; beside = λ name ne. refl },
    )
    | inr missing ↦
        let items = items_of before ++ (bytes "Accept-Encoding" ∷ []) in
        let each : Each IsItem items =
          Each-append IsItem (items_of before) _ (vary_items-IsItem _) (ours, tt) in
        let (after, e) =
          http.inserts vary (join (bytes ", ") items) before (join-visible items each) in
        let same : items_of after ≡ items =
          rw (http.inserted vary (join (bytes ", ") items) before after e)
            (vary_items-join items each) in
        (
          after,
          rw missing e,
          record {
            items = rw missing same;
            covered =
                rw same
                  (any-append is_accept_encoding (items_of before) _ ∙ rw (missing, own) refl);
            beside = λ name ne. http.inserted_beside vary name _ before after e ne;
          },
        )
  ]
    where
      ours : IsItem (bytes "Accept-Encoding")
      ours = unfold trim contains_byte all_bytes in (λ e. cc, refl, (refl, refl))

      own : any is_accept_encoding (bytes "Accept-Encoding" ∷ []) ≡ true
      own = unfold any is_accept_encoding equal eq_ignore_ascii_case to_ascii_lowercase in refl

  -- For any headers: the call succeeds, a response varies by `Accept-Encoding` afterwards, with its
  -- items in their order and its other headers as before, and a second call changes nothing.
  pub ensure_vary_accept_encoding-Varies :
      (before : http.HeaderMap)
      → (after : http.HeaderMap) × (ensure_vary_accept_encoding http before ≡ some after)
        × Varies before after
        × (ensure_vary_accept_encoding http after ≡ some after)
  unfolding ensure_vary_accept_encoding
  ensure_vary_accept_encoding-Varies before =
      let (after, e, v) = ensure-Varies before in
      let covered = v.covered in (after, e, v, rw covered refl)
