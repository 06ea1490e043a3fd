-- ===== src/Config/BasePath/Claims.antt =====
-- What `normalize_base_path` promises to the rest of the proxy.
use kse_static_rewrite_proxy.Base.{
  ℕ, zero, suc, ◌+◌, ◌≤◌, Bool, true, false, not, ◌||◌, List, [], ◌∷◌, ◌++◌, ◌≡◌, ◌≢◌, ◌⊎◌, inl,
  inr, refl, sym, ap, ◌∙◌, some, ◌==◌, ltb, arith, Bool-cases, get_last?, append-nil,
}
use kse_static_rewrite_proxy.Slice.{Bytes, bytes, equal, starts_with}
use kse_static_rewrite_proxy.Slice.Text.{any, trim_end_matches, keep_unless}
use kse_static_rewrite_proxy.Slice.Split.{split, split-append}
use kse_static_rewrite_proxy.Config.Error.{ok, bind-ok, fail_if-ok, ok_or-ok}
use kse_static_rewrite_proxy.Config.Percent.{
  PercentDecode, validate_percent_encoding, decode_repeatedly, max_base_path_length,
}
use kse_static_rewrite_proxy.Config.Percent.Decoded.{
  IsDecoded, decode_rounds-IsDecoded, ascii_count,
}
use kse_static_rewrite_proxy.Config.BasePath.{
  Join, char_count, is_forbidden_wide, contains_forbidden_character, is_dot, has_dot_segment,
  contains_text, normalize_rooted, normalize_base_path,
}

abbrev slashes : ℕ → Bytes
slashes zero = []
slashes (suc k) = b'/' ∷ slashes k

-- A trimmed text is what stands in front of the slashes at the end, and does not end in one.
record IsTrimmed (text trimmed : Bytes) : Type 0 where
  count : ℕ
  same : text ≡ trimmed ++ slashes count
  ended : get_last? trimmed ≢ some b'/'

trim_end_matches-IsTrimmed : (text : Bytes) → IsTrimmed text (trim_end_matches b'/' text)
unfolding trim_end_matches
trim_end_matches-IsTrimmed [] = record { count = 0; same = refl; ended = λ e. cc }
trim_end_matches-IsTrimmed (c ∷ cs) = go (trim_end_matches b'/' cs) (trim_end_matches-IsTrimmed cs)
  where
    go : (t : Bytes) → IsTrimmed cs t → IsTrimmed (c ∷ cs) (keep_unless b'/' c t)
    go [] h = elim (Bool-cases (c == b'/')) [
      | inl slash ↦ rw slash (record { count = suc h.count; same = ground arith; ended = λ e. cc })
      | inr other ↦
          rw other (record { count = h.count; same = ap (◌∷◌ c) h.same; ended = λ e. ground arith })
    ]
    go (d ∷ ds) h = record { count = h.count; same = ap (◌∷◌ c) h.same; ended = h.ended }

char_count-append : (xs ys : Bytes) → char_count (xs ++ ys) ≡ char_count xs + char_count ys
unfolding char_count
char_count-append [] ys = omega arith
char_count-append (x ∷ xs) ys = ground (arith, char_count-append xs ys)

-- What is found in the front part of a text is found in the text.
is_forbidden_wide-append :
    (xs ys : Bytes) → is_forbidden_wide xs ≡ true → is_forbidden_wide (xs ++ ys) ≡ true
unfolding is_forbidden_wide
is_forbidden_wide-append [] ys h = cc
is_forbidden_wide-append (a ∷ []) ys h = cc
is_forbidden_wide-append (a ∷ (b ∷ [])) [] h = h
is_forbidden_wide-append (a ∷ (b ∷ [])) (y ∷ ys) h = ground arith
is_forbidden_wide-append (a ∷ (b ∷ (c ∷ cs))) ys h = h

forbidden-append :
    (xs ys : Bytes)
    → contains_forbidden_character (xs ++ ys) ≡ false
    → contains_forbidden_character xs ≡ false
unfolding contains_forbidden_character
forbidden-append [] ys h = refl
forbidden-append (x ∷ xs) ys h =
    ground (arith, is_forbidden_wide-append (x ∷ xs) ys, forbidden-append xs ys)

any-append : (p : Bytes → Bool) (xs ys : List Bytes) → any p (xs ++ ys) ≡ (any p xs || any p ys)
unfolding any
any-append p [] ys = refl
any-append p (x ∷ xs) ys = ground (arith, any-append p xs ys)

has_dot_segment-append :
    (xs : Bytes) (k : ℕ) → has_dot_segment (xs ++ slashes k) ≡ false → has_dot_segment xs ≡ false
unfolding has_dot_segment
has_dot_segment-append xs zero h = rw append-nil at h
has_dot_segment-append xs (suc k) h = ground (
  arith,
  ap (any is_dot) (split-append b'/' xs (slashes k)),
  any-append is_dot (split b'/' xs) (split b'/' (slashes k)),
)

-- A base path that was accepted, with the input that it comes from: the input without its slashes at
-- the end. `decoded` is what is left of the input when decoding changes it no more.
pub record IsBasePath (p : PercentDecode) (input path : Bytes) : Type 0 where
  pub count : ℕ
  pub trimmed : input ≡ path ++ slashes count
  pub rooted : starts_with (bytes "/") path ≡ true
  pub ended : get_last? path ≢ some b'/'
  pub short : char_count path ≤ 1024
  pub clean : contains_forbidden_character path ≡ false
  pub no_dots : has_dot_segment path ≡ false
  pub decoded : Bytes
  pub is_decoded : IsDecoded p input decoded
  pub clean_decoded : contains_forbidden_character decoded ≡ false
  pub no_slashes_decoded : contains_text (bytes "//") decoded ≡ false
  pub no_dots_decoded : has_dot_segment decoded ≡ false

pub ascii-le-chars : (text : Bytes) → ascii_count text ≤ char_count text
unfolding ascii_count char_count
ascii-le-chars [] = omega arith
ascii-le-chars (b ∷ bs) = ground (arith, ascii-le-chars bs)

-- What is left of a rooted text that is more than slashes begins with a slash.
trimmed_rooted :
    (input path : Bytes) (k : ℕ)
    → input ≡ path ++ slashes k
    → starts_with (bytes "/") input ≡ true
    → starts_with (bytes "//") input ≡ false
    → equal input (bytes "/") ≡ false
    → starts_with (bytes "/") path ≡ true
unfolding starts_with equal
trimmed_rooted input [] zero e r s n = rw e at r
trimmed_rooted input [] (suc zero) e r s n = absurd (ground arith)
trimmed_rooted input [] (suc (suc k)) e r s n = absurd (ground arith)
trimmed_rooted input (c ∷ cs) k e r s n = ground arith

module _ (p : PercentDecode) (join : Join) where
  accepted-IsBasePath :
      (input decoded : Bytes)
      → equal input (bytes "/") ≡ false
      → ltb max_base_path_length (char_count input) ≡ false
      → (not (starts_with (bytes "/") input) || starts_with (bytes "//") input) ≡ false
      → contains_forbidden_character input ≡ false
      → decode_repeatedly p input ≡ ok decoded
      → (contains_forbidden_character decoded
          || (contains_text (bytes "//") decoded
              || (has_dot_segment input || has_dot_segment decoded)))
        ≡ false
      → IsBasePath p input (trim_end_matches b'/' input)
  unfolding decode_repeatedly
  accepted-IsBasePath input decoded n short rooted clean decodes safe =
      let path = trim_end_matches b'/' input in
      let t = trim_end_matches-IsTrimmed input in
      let chars = ap char_count t.same ∙ char_count-append path (slashes t.count) in
      let below = ascii-le-chars input in
      record {
        count = t.count;
        trimmed = t.same;
        rooted = trimmed_rooted input path t.count t.same (ground arith) (ground arith) n;
        ended = t.ended;
        short = ground arith;
        clean =
            forbidden-append path (slashes t.count)
              (sym (ap contains_forbidden_character t.same) ∙ clean);
        no_dots =
            has_dot_segment-append path t.count (sym (ap has_dot_segment t.same) ∙ ground arith);
        decoded = decoded;
        is_decoded = decode_rounds-IsDecoded p 1024 input decoded (ground arith) decodes;
        clean_decoded = ground arith;
        no_slashes_decoded = ground arith;
        no_dots_decoded = ground arith;
      }

  normalize_rooted-IsBasePath :
      (input path : Bytes)
      → equal input (bytes "/") ≡ false
      → normalize_rooted p join input ≡ ok path
      → IsBasePath p input path
  unfolding normalize_rooted
  normalize_rooted-IsBasePath input path n h0 =
      let (short, h1) = fail_if-ok _ _ _ h0 in
      let (rooted, h2) = fail_if-ok _ _ _ h1 in
      let (clean, h3) = fail_if-ok _ _ _ h2 in
      let (u, encoded, h4) = bind-ok (validate_percent_encoding input) _ h3 in
      let (decoded, decodes, h5) = bind-ok (decode_repeatedly p input) _ h4 in
      let (safe, h6) = fail_if-ok _ _ _ h5 in
      let (parsed, joined, h7) = ok_or-ok (join input) _ _ h6 in
      let (same, h8) = fail_if-ok _ _ _ h7 in
      let made : trim_end_matches b'/' input ≡ path = ground arith in
      rw (← made) (accepted-IsBasePath input decoded n short rooted clean decodes safe)

  -- Whatever the crates percent-encoding (by its documented laws) and url do: an accepted base path
  -- is empty, or it is the input without slashes at its end, begins with a slash, does not end in
  -- one, has 1024 characters at most, and has no forbidden character and no dot segment; and the
  -- input, decoded until decoding changes it no more, has none of these either and no double slash.
  pub normalize-IsBasePath :
      (input path : Bytes)
      → normalize_base_path p join input ≡ ok path
      → (path ≡ []) ⊎ IsBasePath p input path
  unfolding normalize_base_path
  normalize-IsBasePath input path h = elim (Bool-cases (equal input [])) [
    | inl empty ↦ inl (ground arith)
    | inr other ↦ elim (Bool-cases (equal input (bytes "/"))) [
      | inl root ↦ inl (ground arith)
      | inr more ↦ inr (normalize_rooted-IsBasePath input path more (ground arith))
    ]
  ]
