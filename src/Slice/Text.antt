-- ===== src/Slice/Text.antt =====
-- The operations on `str` that the source takes from Rust's standard library, on UTF-8 bytes. Where
-- the source searches for text, the needle is ASCII and not empty.
use kse_static_rewrite_proxy.Base.{
  ℕ, ◌+◌, ◌-◌, Bool, true, false, ◌&&◌, ◌||◌, List, [], ◌∷◌, map, Option, none, some, ◌==◌, within,
  length, drop, take, if◌then◌else◌,
}
use kse_static_rewrite_proxy.Slice.{Bytes, equal, starts_with, ends_with}

-- `s.strip_prefix(prefix)` and `s.strip_suffix(suffix)`, with the part first.
unfoldable pub strip_prefix : Bytes → Bytes → Option Bytes
strip_prefix part text = if starts_with part text then some (drop (length part) text) else none

unfoldable pub strip_suffix : Bytes → Bytes → Option Bytes
strip_suffix part text =
    if ends_with part text then some (take (length text - length part) text) else none

-- One more byte in front of the first part.
abbrev pub longer : ℕ → Option (Bytes × Bytes) → Option (Bytes × Bytes)
longer c none = none
longer c (some (before, after)) = some (c ∷ before, after)

-- `s.split_once(needle)`: at the first occurrence.
unfoldable pub split_once : Bytes → Bytes → Option (Bytes × Bytes)
split_once needle [] = if starts_with needle [] then some ([], []) else none
split_once needle (c ∷ cs) =
    if starts_with needle (c ∷ cs)
    then some ([], drop (length needle) (c ∷ cs))
    else longer c (split_once needle cs)

-- `s.contains(b)` for one byte.
unfoldable pub contains_byte : ℕ → Bytes → Bool
contains_byte b [] = false
contains_byte b (c ∷ cs) = c == b || contains_byte b cs

unfoldable pub to_ascii_lowercase : ℕ → ℕ
to_ascii_lowercase c = if within b'A' b'Z' c then c + 32 else c

unfoldable pub eq_ignore_ascii_case : Bytes → Bytes → Bool
unfolding to_ascii_lowercase
eq_ignore_ascii_case a b = equal (map to_ascii_lowercase a) (map to_ascii_lowercase b)

-- `s.trim_end_matches(b)` for one byte: a byte stays if something stays behind it.
abbrev pub keep_unless : ℕ → ℕ → Bytes → Bytes
keep_unless b c [] = if c == b then [] else c ∷ []
keep_unless b c (d ∷ ds) = c ∷ (d ∷ ds)

unfoldable pub trim_end_matches : ℕ → Bytes → Bytes
trim_end_matches b [] = []
trim_end_matches b (c ∷ cs) = keep_unless b c (trim_end_matches b cs)

unfoldable pub trim_start_matches : ℕ → Bytes → Bytes
trim_start_matches b [] = []
trim_start_matches b (c ∷ cs) = if c == b then trim_start_matches b cs else c ∷ cs

-- `s.rsplit(b).next()`: what stands behind the last `b`.
unfoldable pub last_part : ℕ → Bytes → Bytes
unfolding contains_byte
last_part b [] = []
last_part b (c ∷ cs) = if contains_byte b cs then last_part b cs else if c == b then cs else c ∷ cs

-- `text.iter().all(test)`.
unfoldable pub all_bytes : (ℕ → Bool) → Bytes → Bool
all_bytes test [] = true
all_bytes test (b ∷ bs) = test b && all_bytes test bs

unfoldable pub any : (Bytes → Bool) → List Bytes → Bool
any p [] = false
any p (x ∷ xs) = p x || any p xs

-- A `HashSet<String>` as a list with no repetition: `contains`, and `collect`.
unfoldable pub contains : List Bytes → Bytes → Bool
unfolding equal
contains [] key = false
contains (x ∷ xs) key = equal x key || contains xs key

unfoldable pub collect : List Bytes → List Bytes
unfolding contains
collect [] = []
collect (x ∷ xs) = let rest = collect xs in if contains rest x then rest else x ∷ rest
