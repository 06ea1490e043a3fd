-- ===== src/Config/BasePath.antt =====
-- src/config.rs: `normalize_base_path`, with the crate url as an interface.
pub mod Claims
use kse_static_rewrite_proxy.Base.{
  ℕ, ◌+◌, Bool, true, false, not, ◌&&◌, ◌||◌, List, [], ◌∷◌, Option, none, some, ◌==◌, ltb, within,
  if◌then◌else◌,
}
use kse_static_rewrite_proxy.Slice.{Bytes, bytes, equal, starts_with}
use kse_static_rewrite_proxy.Slice.Text.{any, trim_end_matches}
use kse_static_rewrite_proxy.Slice.Split.{split}
use kse_static_rewrite_proxy.Config.Error.{
  Result, ok, err, invalid_base_path, ◌>>◌, ◌>>=◌, fail_if, ok_or,
}
use kse_static_rewrite_proxy.Config.Percent.{
  PercentDecode, validate_percent_encoding, decode_repeatedly, max_base_path_length,
}

-- `Url::join(&self, input)` for the base `http://kubesphere.local`: whether the origin is still that
-- of the base, and the path.
abbrev pub Join : Type 0
Join = Bytes → Option (Bool × Bytes)

-- `value.chars().count()`: a character has one byte that is no continuation byte.
unfoldable pub char_count : Bytes → ℕ
char_count [] = 0
char_count (b ∷ bs) = if within 0x80 0xBF b then char_count bs else char_count bs + 1

-- The ASCII ones of the forbidden characters, with those that `is_control` accepts.
abbrev pub is_forbidden_ascii : ℕ → Bool
is_forbidden_ascii b =
    (b == b'?' || (b == b'#' || (b == 39 || (b == b'"' || b == 92)))) || (ltb b 0x20 || b == 0x7F)

-- U+0080 to U+009F begin with 0xC2, U+2028 and U+2029 are 0xE2 0x80 0xA8 and 0xE2 0x80 0xA9.
unfoldable pub is_forbidden_wide : Bytes → Bool
is_forbidden_wide [] = false
is_forbidden_wide (a ∷ []) = false
is_forbidden_wide (a ∷ (b ∷ [])) = a == 0xC2 && within 0x80 0x9F b
is_forbidden_wide (a ∷ (b ∷ (c ∷ _))) =
    (a == 0xC2 && within 0x80 0x9F b) || (a == 0xE2 && (b == 0x80 && within 0xA8 0xA9 c))

unfoldable pub contains_forbidden_character : Bytes → Bool
unfolding is_forbidden_wide
contains_forbidden_character [] = false
contains_forbidden_character (b ∷ bs) =
    (is_forbidden_ascii b || is_forbidden_wide (b ∷ bs)) || contains_forbidden_character bs

abbrev pub is_dot : Bytes → Bool
is_dot segment = equal segment (bytes ".") || equal segment (bytes "..")

unfoldable pub has_dot_segment : Bytes → Bool
unfolding split
has_dot_segment value = any is_dot (split b'/' value)

-- `value.contains("//")`.
unfoldable pub contains_text : Bytes → Bytes → Bool
unfolding starts_with
contains_text needle [] = starts_with needle []
contains_text needle (b ∷ bs) = starts_with needle (b ∷ bs) || contains_text needle bs

-- The joined URL has the base's origin and the input as its path.
abbrev pub is_same_path : Bytes → Bool × Bytes → Bool
is_same_path input (same_origin, path) = same_origin && equal path input

module _ (p : PercentDecode) (join : Join) where
  -- What follows the early return for no base path.
  unfoldable pub normalize_rooted : Bytes → Result Bytes
  normalize_rooted input = do
    fail_if (ltb max_base_path_length (char_count input))
        (invalid_base_path (bytes "must not exceed 1024 characters"))
    fail_if (not (starts_with (bytes "/") input) || starts_with (bytes "//") input)
        (invalid_base_path (bytes "must be an absolute same-origin path"))
    fail_if (contains_forbidden_character input) (
        invalid_base_path (
          bytes
            "must not contain query, hash, quotes, backslash, line separators, or control characters"))
    validate_percent_encoding input
    decoded ← decode_repeatedly p input
    fail_if
        (contains_forbidden_character decoded
          || (contains_text (bytes "//") decoded
              || (has_dot_segment input || has_dot_segment decoded)))
        (invalid_base_path (bytes "contains unsafe encoded characters or path segments"))
    parsed ← ok_or (join input) (invalid_base_path (bytes "must be an absolute same-origin path"))
    fail_if (not (is_same_path input parsed))
        (invalid_base_path (bytes "must not change when URL-normalized"))
    ok (trim_end_matches b'/' input)

  unfoldable pub normalize_base_path : Bytes → Result Bytes
  normalize_base_path input =
      if equal input [] || equal input (bytes "/") then ok [] else normalize_rooted input
