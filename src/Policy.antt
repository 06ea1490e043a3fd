-- ===== src/Policy.antt =====
-- src/rewrite.rs: `RewritePolicy`, which response is rewritten and by which profile. The sets of
-- the source are lists with no repetition.
pub mod Claims
pub mod Decide
pub mod Route
pub mod Selected
use kse_static_rewrite_proxy.Base.{
  ℕ, Bool, true, false, not, ◌&&◌, ◌||◌, List, [], ◌∷◌, ◌++◌, Option, none, some, ◌==◌, leb, within,
  length, drop, if◌then◌else◌,
}
use kse_static_rewrite_proxy.Slice.{Bytes, bytes, equal, starts_with, ends_with}
use kse_static_rewrite_proxy.Slice.Text.{
  strip_prefix, strip_suffix, split_once, contains_byte, eq_ignore_ascii_case, trim_end_matches,
  last_part, any, contains, collect,
}

pub data RewriteRule : Type 0 where
  console_v3_rule js_bundle_rule frontend_index_js_bundle_rule : RewriteRule
  named_proxy_html_rule ys1000_html_rule kubekey_asset_js_rule : RewriteRule

pub data RewriteProfile : Type 0 where
  console_v3 frontend_index_js_bundle ys1000_frontend_index_js_bundle js_bundle : RewriteProfile
  kubekey_asset_js named_proxy_html ys1000_html : RewriteProfile

-- `rewrite profile extension head_only`.
pub data RewriteDecision : Type 0 where
  bypass : RewriteDecision
  rewrite : RewriteProfile → Bytes → Bool → RewriteDecision

pub data ExtensionMatcher : Type 0 where
  all : ExtensionMatcher
  allowlist : List Bytes → ExtensionMatcher

-- `RewriteRule::number`.
unfoldable pub number : RewriteRule → ℕ
number console_v3_rule = 1
number js_bundle_rule = 2
number frontend_index_js_bundle_rule = 3
number named_proxy_html_rule = 4
number ys1000_html_rule = 5
number kubekey_asset_js_rule = 6

abbrev pub all_rules : List RewriteRule
all_rules =
    console_v3_rule ∷ js_bundle_rule ∷ frontend_index_js_bundle_rule ∷ named_proxy_html_rule
    ∷ ys1000_html_rule ∷ kubekey_asset_js_rule ∷ []

-- `find(|rule| rule.number() == number)`.
unfoldable pub find_rule : ℕ → List RewriteRule → Option RewriteRule
find_rule n [] = none
find_rule n (rule ∷ rules) = if number rule == n then some rule else find_rule n rules

-- `RewriteRule::try_from`; `none` is the error.
unfoldable pub try_from : ℕ → Option RewriteRule
unfolding find_rule number
try_from n = find_rule n all_rules

pub record RewritePolicy : Type 0 where
  pub base_path : Bytes
  pub extensions : ExtensionMatcher
  pub disabled_extensions : List Bytes
  pub enabled_rules : List RewriteRule

unfoldable pub from_matcher :
    Bytes → ExtensionMatcher → List Bytes → List RewriteRule → RewritePolicy
from_matcher base_path extensions disabled_extensions enabled_rules = record {
  base_path = trim_end_matches b'/' base_path;
  extensions = extensions;
  disabled_extensions = disabled_extensions;
  enabled_rules = enabled_rules;
}

unfoldable pub matcher_of : List Bytes → ExtensionMatcher
matcher_of enabled =
    if length enabled == 1 && contains enabled (bytes "*") then all else allowlist enabled

unfoldable pub new_with_rules : Bytes → List Bytes → List Bytes → List RewriteRule → RewritePolicy
unfolding from_matcher matcher_of
new_with_rules base_path enabled_extensions disabled_extensions enabled_rules =
    from_matcher base_path (matcher_of (collect enabled_extensions)) (collect disabled_extensions)
      enabled_rules

-- `RewritePolicy::new_with_disabled_extensions` and `RewritePolicy::new`.
unfoldable pub new_with_disabled_extensions : Bytes → List Bytes → List Bytes → RewritePolicy
unfolding new_with_rules
new_with_disabled_extensions base_path enabled disabled =
    new_with_rules base_path enabled disabled all_rules

unfoldable pub new : Bytes → List Bytes → RewritePolicy
unfolding new_with_disabled_extensions
new base_path enabled = new_with_disabled_extensions base_path enabled []

unfoldable pub for_all_extensions : Bytes → RewritePolicy
unfolding new
for_all_extensions base_path = new base_path (bytes "*" ∷ [])

unfoldable pub contains_rule : List RewriteRule → RewriteRule → Bool
contains_rule [] rule = false
contains_rule (x ∷ xs) rule = number x == number rule || contains_rule xs rule

unfoldable pub is_rule_enabled : RewritePolicy → RewriteRule → Bool
is_rule_enabled policy rule = contains_rule policy.enabled_rules rule

unfoldable pub is_ascii_alphanumeric : ℕ → Bool
is_ascii_alphanumeric b = within b'0' b'9' b || (within b'A' b'Z' b || within b'a' b'z' b)

unfoldable pub all_name_bytes : Bytes → Bool
unfolding is_ascii_alphanumeric
all_name_bytes [] = true
all_name_bytes (b ∷ bs) =
    (is_ascii_alphanumeric b || (b == b'-' || (b == b'_' || b == b'.'))) && all_name_bytes bs

unfoldable pub is_safe_extension_name : Bytes → Bool
unfolding all_name_bytes is_ascii_alphanumeric
is_safe_extension_name [] = false
is_safe_extension_name (b ∷ bs) =
    leb (length (b ∷ bs)) 128 && (all_name_bytes (b ∷ bs) && is_ascii_alphanumeric b)

abbrev pub is_listed : ExtensionMatcher → Bytes → Bool
is_listed all extension = true
is_listed (allowlist enabled) extension = contains enabled extension

unfoldable pub is_extension_enabled : RewritePolicy → Bytes → Bool
is_extension_enabled policy extension =
    is_safe_extension_name extension
    && (not (contains policy.disabled_extensions extension)
        && is_listed policy.extensions extension)

unfoldable pub is_text_asset : Bytes → Bool
is_text_asset asset_path =
    any (λ suffix. ends_with suffix (last_part b'/' asset_path))
      (bytes ".js"
        ∷ bytes ".mjs"
        ∷ bytes ".css"
        ∷ bytes ".json"
        ∷ bytes ".html"
        ∷ bytes ".htm"
        ∷ [])

-- `strip_prefix(name).and_then(|path| path.strip_prefix('/'))`.
unfoldable pub strip_directory : Bytes → Bytes → Option Bytes
strip_directory name path = elim (strip_prefix name path) [
  | none ↦ none
  | some rest ↦ strip_prefix (bytes "/") rest
]

unfoldable pub jsbundle_asset_path : Bytes → Bytes → Option Bytes
unfolding strip_directory
jsbundle_asset_path extension distribution_path =
    elim (strip_directory extension distribution_path) [
      | some path ↦ some path
      | none ↦ elim (strip_suffix (bytes "-frontend") extension) [
        | none ↦ none
        | some distribution_name ↦ strip_directory distribution_name distribution_path
      ]
    ]
