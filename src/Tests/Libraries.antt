-- ===== src/Tests/Libraries.antt =====
-- Libraries that meet the proxy's interfaces: headers as a function, the text of a URI, and a digest in an alphabet of two bytes.
use kse_static_rewrite_proxy.Base.{
  ℕ, zero, suc, ◌+◌, Bool, true, false, List, [], ◌∷◌, ◌≡◌, ◌≢◌, inl, inr, refl, sym, ap, ◌∙◌,
  Option, none, some, if◌then◌else◌, ◌==◌, arith, Bool-cases, head?,
}
use native.Mathlib.Decide.{ℕ_discrete}
use kse_static_rewrite_proxy.Slice.{Bytes, bytes, starts_with}
use kse_static_rewrite_proxy.Slice.Text.{all_bytes, contains_byte}
use kse_static_rewrite_proxy.Http.{Http, HeaderName, all_visible}
use kse_static_rewrite_proxy.Proxy.ApiUri.{Uris, before_query}
use kse_static_rewrite_proxy.Proxy.Etag.{Digest, is_url_safe}
use kse_static_rewrite_proxy.Proxy.Session.{Libraries}
use kse_static_rewrite_proxy.Tests.FairPermits.{permits}
use kse_static_rewrite_proxy.Tests.Search.{search_memmem}
use kse_static_rewrite_proxy.Tests.MigMetaRuns.{plain}

abbrev pub Headers : Type 0
Headers = HeaderName → List Bytes

unfoldable pub HeaderName-discrete : Discrete HeaderName
HeaderName-discrete = hlevel ℕ_discrete

unfoldable pub put : HeaderName → List Bytes → Headers → Headers
unfolding HeaderName-discrete ℕ_discrete
put name values h beside = elim (HeaderName-discrete beside name) as (λ _. List Bytes) [
  | yes same ↦ values
  | no other ↦ h beside
]

pub put_self :
    (name : HeaderName) (values : List Bytes) (h : Headers) → put name values h name ≡ values
unfolding put
put_self name values h = go (HeaderName-discrete name name)
  where
    go :
        (d : Dec (name ≡ name))
        → (elim d as (λ _. List Bytes) [ yes same ↦ values | no other ↦ h name ]) ≡ values
    go (yes same) = refl
    go (no other) = absurd (other refl)

pub put_beside :
    (name beside : HeaderName) (values : List Bytes) (h : Headers)
    → beside ≢ name
    → put name values h beside ≡ h beside
unfolding put
put_beside name beside values h ne = go (HeaderName-discrete beside name)
  where
    go :
        (d : Dec (beside ≡ name))
        → (elim d as (λ _. List Bytes) [ yes same ↦ values | no other ↦ h beside ]) ≡ h beside
    go (yes same) = absurd (ne same)
    go (no other) = refl

abbrev pub insert : HeaderName → Bytes → Headers → Option Headers
insert name value h = if all_visible value then some (put name (value ∷ []) h) else none

pub insert-some :
    (name : HeaderName) (value : Bytes) (h after : Headers)
    → insert name value h ≡ some after
    → put name (value ∷ []) h ≡ after
insert-some name value h after e = elim (Bool-cases (all_visible value)) [
  | inl shown ↦ some_eq (rw shown at e)
  | inr hidden ↦ let k = rw hidden at e in cc
]
  where
    some_eq : {a b : Headers} → some a ≡ some b → a ≡ b
    some_eq e = cc

abbrev pub visible : Bytes → Option Bytes
visible value = if all_visible value then some value else none

pub visible_same :
    (value text : Bytes) → visible value ≡ some text → (text ≡ value) × (all_visible value ≡ true)
visible_same value text e = elim (Bool-cases (all_visible value)) [
  | inl shown ↦ (let k = rw shown at e in ground arith, shown)
  | inr hidden ↦ let k = rw hidden at e in cc
]

abbrev pub headers : Http
headers = record {
  HeaderMap = Headers;
  empty = λ name. [];
  get_all = λ name h. h name;
  get = λ name h. head? (h name);
  insert_header = insert;
  remove_header = λ name h. put name [] h;
  to_str = visible;
  get_first = λ name h. refl;
  get_all_empty = λ name. refl;
  inserts = λ name value h shown. (put name (value ∷ []) h, rw shown refl);
  inserted = λ name value h after e.
      ap (λ (k : Headers). k name) (sym (insert-some name value h after e))
      ∙ put_self name (value ∷ []) h;
  inserted_beside = λ name beside value h after e ne.
      ap (λ (k : Headers). k beside) (sym (insert-some name value h after e))
      ∙ put_beside name beside (value ∷ []) h ne;
  removed = λ name h. put_self name [] h;
  removed_beside = λ name beside h ne. put_beside name beside [] h ne;
  to_str_visible = λ value shown. rw shown refl;
  to_str_same = visible_same;
}

-- A URI is its text, a path with a query.
abbrev pub Uri : Type 0
Uri = (text : Bytes) × (starts_with (bytes "/") text ≡ true) × (contains_byte b'#' text ≡ false)

abbrev pub parse_if :
    (text : Bytes) (a b : Bool)
    → starts_with (bytes "/") text ≡ a
    → contains_byte b'#' text ≡ b
    → Option Uri
parse_if text true false e f = some (text, e, f)
parse_if text false _ e f = none
parse_if text true true e f = none

pub parse_if-text :
    (text : Bytes) (a b : Bool) (e : starts_with (bytes "/") text ≡ a)
    (f : contains_byte b'#' text ≡ b) (uri : Uri)
    → parse_if text a b e f ≡ some uri
    → uri.0 ≡ text
parse_if-text text true false e f uri h = ap (λ (o : Option Uri). text_or o) (sym h)
  where
    text_or : Option Uri → Bytes
    text_or none = text
    text_or (some u) = u.0
parse_if-text text false _ e f uri h = cc
parse_if-text text true true e f uri h = cc

pub before-starts :
    (text : Bytes)
    → starts_with (bytes "/") text ≡ true
    → starts_with (bytes "/") (before_query text) ≡ true
unfolding starts_with before_query
before-starts [] h = cc
before-starts (b ∷ bs) h = ground arith

pub before-before : (text : Bytes) → before_query (before_query text) ≡ before_query text
unfolding before_query
before-before [] = refl
before-before (b ∷ bs) = ground (arith, before-before bs)

pub before-free :
    (text : Bytes)
    → contains_byte b'#' text ≡ false
    → contains_byte b'#' (before_query text) ≡ false
unfolding before_query contains_byte
before-free [] h = refl
before-free (b ∷ bs) h = ground (arith, before-free bs)

pub in_front_text :
    (uri : Uri) (text : Bytes)
    → some uri.0 ≡ some text
    → (before_query text ≡ before_query uri.0) × (contains_byte b'#' text ≡ false)
in_front_text (own, rooted, free) text e =
    let same : own ≡ text = ground arith in (rw same refl, rw same at free)

abbrev pub uris : Uris
uris = record {
  Uri = Uri;
  path = λ uri. before_query uri.0;
  path_and_query = λ uri. some uri.0;
  parse = λ text. parse_if text (starts_with (bytes "/") text) (contains_byte b'#' text) refl refl;
  rooted = λ uri. inr (inr (before-starts uri.0 uri.1));
  no_query = λ uri. before-before uri.0;
  no_fragment = λ uri. before-free uri.0 uri.2;
  in_front = in_front_text;
  parsed = λ text uri h k e.
      let same = parse_if-text text _ _ refl refl uri e in (ap before_query same, ap some same);
}

-- So many letters for a number, and a dash behind them.
unfoldable pub tally : ℕ → Bytes → Bytes
tally zero rest = b'-' ∷ rest
tally (suc n) rest = b'A' ∷ tally n rest

unfoldable pub encode : Bytes → Bytes
unfolding tally
encode [] = []
encode (b ∷ bs) = tally b (encode bs)

unfoldable pub count : ℕ → Bytes → Bytes
count n [] = []
count n (c ∷ cs) = elim (c == b'A') [ true ↦ count (suc n) cs | false ↦ n ∷ count 0 cs ]

count-tally : (n m : ℕ) (rest : Bytes) → count m (tally n rest) ≡ (m + n) ∷ count 0 rest
unfolding count tally
count-tally zero m rest = ap (λ (k : ℕ). k ∷ count 0 rest) (omega arith)
count-tally (suc n) m rest =
    count-tally n (suc m) rest ∙ ap (λ (k : ℕ). k ∷ count 0 rest) (omega arith)

count-encode : (input : Bytes) → count 0 (encode input) ≡ input
unfolding encode
count-encode [] = unfold count in refl
count-encode (b ∷ bs) =
    count-tally b 0 (encode bs)
    ∙ (ap (λ (xs : Bytes). (0 + b) ∷ xs) (count-encode bs) ∙ ap (λ (k : ℕ). k ∷ bs) (omega arith))

pub decoded : (input : Bytes) → some (count 0 (encode input)) ≡ some input
decoded input = ap some (count-encode input)

tally-safe :
    (n : ℕ) (rest : Bytes)
    → all_bytes is_url_safe rest ≡ true
    → all_bytes is_url_safe (tally n rest) ≡ true
unfolding tally all_bytes
tally-safe zero rest h = h
tally-safe (suc n) rest h = tally-safe n rest h

pub encode-safe : (input : Bytes) → all_bytes is_url_safe (encode input) ≡ true
unfolding encode
encode-safe [] = unfold all_bytes in refl
encode-safe (b ∷ bs) = tally-safe b (encode bs) (encode-safe bs)

abbrev pub digest : Digest
digest = record {
  hash = λ input. input;
  encode = encode;
  decode = λ text. some (count 0 text);
  decode-encode = decoded;
  encode_safe = encode-safe;
}

abbrev pub libraries : Libraries
libraries = record {
  sem = permits;
  http = headers;
  uris = uris;
  memmem = search_memmem;
  codec = plain;
  digest = digest;
}
