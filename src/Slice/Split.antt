-- ===== src/Slice/Split.antt =====
-- `split`, `join` and `trim` of `str`, on UTF-8 bytes, with laws. A text that is trimmed in the source
-- is ASCII, so `trim` has the white space of ASCII.
use kse_static_rewrite_proxy.Base.{
  ℕ, Bool, true, false, ◌&&◌, ◌||◌, Each, List, [], ◌∷◌, ◌++◌, ◌≡◌, ◌≢◌, refl, arith, ◌==◌, within,
  if◌then◌else◌, if-elim,
}
use kse_static_rewrite_proxy.Slice.{Bytes}
use kse_static_rewrite_proxy.Slice.Text.{contains_byte, all_bytes}

-- One more byte in front of the first part.
abbrev pub longer_first : ℕ → List Bytes → List Bytes
longer_first c [] = (c ∷ []) ∷ []
longer_first c (part ∷ parts) = (c ∷ part) ∷ parts

-- `value.split(b)` for one byte: one part at least.
unfoldable pub split : ℕ → Bytes → List Bytes
split b [] = [] ∷ []
split b (c ∷ cs) = if c == b then [] ∷ split b cs else longer_first c (split b cs)

longer_first-append :
    (c : ℕ) (xs ys : List Bytes) → xs ≢ [] → longer_first c (xs ++ ys) ≡ longer_first c xs ++ ys
longer_first-append c [] ys ne = absurd (ne refl)
longer_first-append c (x ∷ xs) ys ne = refl

longer_first-ne-nil : (c : ℕ) (parts : List Bytes) → longer_first c parts ≢ []
longer_first-ne-nil c [] = λ e. cc
longer_first-ne-nil c (part ∷ parts) = λ e. cc

pub split-ne-nil : (b : ℕ) (xs : Bytes) → split b xs ≢ []
unfolding split
split-ne-nil b [] = λ e. cc
split-ne-nil b (x ∷ xs) =
    if-elim (λ parts. parts ≢ []) (x == b) _ _ (λ _ e. cc) (λ _. longer_first-ne-nil x (split b xs))

pub split-append : (b : ℕ) (xs ys : Bytes) → split b (xs ++ (b ∷ ys)) ≡ split b xs ++ split b ys
unfolding split
split-append b [] ys = ground arith
split-append b (x ∷ xs) ys = ground (
  arith,
  split-append b xs ys,
  longer_first-append x (split b xs) (split b ys) (split-ne-nil b xs),
)

pub split-single : (b : ℕ) (xs : Bytes) → contains_byte b xs ≡ false → split b xs ≡ xs ∷ []
unfolding split contains_byte
split-single b [] h = refl
split-single b (x ∷ xs) h = ground (arith, split-single b xs)

pub all_bytes-append :
    (test : ℕ → Bool) (xs ys : Bytes)
    → all_bytes test (xs ++ ys) ≡ (all_bytes test xs && all_bytes test ys)
unfolding all_bytes
all_bytes-append test [] ys = refl
all_bytes-append test (x ∷ xs) ys = ground (arith, all_bytes-append test xs ys)

pub contains_byte-append :
    (b : ℕ) (xs ys : Bytes)
    → contains_byte b (xs ++ ys) ≡ (contains_byte b xs || contains_byte b ys)
unfolding contains_byte
contains_byte-append b [] ys = refl
contains_byte-append b (x ∷ xs) ys = ground (arith, contains_byte-append b xs ys)

-- A text is taken apart in one way at the first place of a byte.
pub byte_split :
    (b : ℕ) (x y r s : Bytes)
    → contains_byte b x ≡ false
    → contains_byte b y ≡ false
    → x ++ (b ∷ r) ≡ y ++ (b ∷ s)
    → (x ≡ y) × (r ≡ s)
unfolding contains_byte
byte_split b [] [] r s h k e = (refl, ground arith)
byte_split b [] (y ∷ ys) r s h k e = absurd (ground arith)
byte_split b (x ∷ xs) [] r s h k e = absurd (ground arith)
byte_split b (x ∷ xs) (y ∷ ys) r s h k e =
    let (same, rest) = byte_split b xs ys r s (ground arith) (ground arith) (ground arith) in
    (ground arith, rest)

-- No part has the byte, and what every byte of the text passes every byte of a part passes.
abbrev pub IsPart : ℕ → (ℕ → Bool) → Bytes → Type 0
IsPart b test part = (contains_byte b part ≡ false) × (all_bytes test part ≡ true)

longer_first-IsPart :
    (b : ℕ) (test : ℕ → Bool) (c : ℕ) (parts : List Bytes)
    → (c == b) ≡ false
    → test c ≡ true
    → Each (IsPart b test) parts
    → Each (IsPart b test) (longer_first c parts)
unfolding contains_byte all_bytes
longer_first-IsPart b test c [] e k h = ((ground arith, ground arith), tt)
longer_first-IsPart b test c (part ∷ parts) e k h =
    let (free, passed) = h.0 in ((ground arith, ground arith), h.1)

pub split-IsPart :
    (b : ℕ) (test : ℕ → Bool) (xs : Bytes)
    → all_bytes test xs ≡ true
    → Each (IsPart b test) (split b xs)
unfolding split contains_byte all_bytes
split-IsPart b test [] h = ((refl, refl), tt)
split-IsPart b test (x ∷ xs) h =
    let rest = split-IsPart b test xs (ground arith) in
    if-elim (Each (IsPart b test)) (x == b) ([] ∷ split b xs) (longer_first x (split b xs))
      (λ same. ((refl, refl), rest))
      (λ differs. longer_first-IsPart b test x (split b xs) differs (ground arith) rest)

-- `parts.join(separator)`.
unfoldable pub join : Bytes → List Bytes → Bytes
join separator [] = []
join separator (part ∷ []) = part
join separator (part ∷ (next ∷ parts)) = part ++ (separator ++ join separator (next ∷ parts))

-- `char::is_whitespace` for ASCII.
abbrev pub is_whitespace : ℕ → Bool
is_whitespace b = within 9 13 b || b == 32

unfoldable pub trim_start : Bytes → Bytes
trim_start [] = []
trim_start (b ∷ bs) = if is_whitespace b then trim_start bs else b ∷ bs

-- A byte stays if something stays behind it.
abbrev pub keep_visible : ℕ → Bytes → Bytes
keep_visible b [] = if is_whitespace b then [] else b ∷ []
keep_visible b (c ∷ cs) = b ∷ (c ∷ cs)

unfoldable pub trim_end : Bytes → Bytes
trim_end [] = []
trim_end (b ∷ bs) = keep_visible b (trim_end bs)

unfoldable pub trim : Bytes → Bytes
unfolding trim_start trim_end
trim text = trim_end (trim_start text)
