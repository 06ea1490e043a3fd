-- ===== src/Policy/Decide.antt =====
-- src/rewrite.rs: `RewritePolicy::decide`, with its three branches as functions of their own, and
-- `metrics_extension_label`.
use kse_static_rewrite_proxy.Base.{
  Bool, true, false, not, ◌&&◌, ◌||◌, [], ◌∷◌, ◌++◌, Option, none, some, if◌then◌else◌,
}
use kse_static_rewrite_proxy.Slice.{Bytes, bytes, equal, starts_with, ends_with}
use kse_static_rewrite_proxy.Slice.Text.{
  strip_prefix, split_once, contains_byte, eq_ignore_ascii_case,
}
use kse_static_rewrite_proxy.Policy.{
  RewriteProfile, RewriteDecision, bypass, rewrite, RewritePolicy, is_rule_enabled,
  is_extension_enabled, is_text_asset, jsbundle_asset_path, console_v3_rule, js_bundle_rule,
  frontend_index_js_bundle_rule, named_proxy_html_rule, ys1000_html_rule, kubekey_asset_js_rule,
  console_v3, frontend_index_js_bundle, ys1000_frontend_index_js_bundle, js_bundle,
  kubekey_asset_js, named_proxy_html, ys1000_html, ExtensionMatcher, all, allowlist,
}

unfoldable pub is_empty : Bytes → Bool
is_empty [] = true
is_empty (b ∷ bs) = false

-- `condition.then_some(value)`.
abbrev pub then_some : {A : Type 0} → Bool → A → Option A
then_some true a = some a
then_some false a = none

-- `first.or_else(|| second)`.
abbrev pub or_else : {A : Type 0} → Option A → Option A → Option A
or_else (some a) second = some a
or_else none second = second

-- One label for all extensions, or each its own.
abbrev pub listed_label : ExtensionMatcher → Bytes → Bytes
listed_label all extension = bytes "*"
listed_label (allowlist _) extension = extension

module _ (policy : RewritePolicy) where
  unfoldable pub proxy_profile : Bytes → Bytes → Option RewriteProfile
  proxy_profile name asset_path =
      if equal name (bytes "ys1000")
      then or_else (then_some (is_rule_enabled policy ys1000_html_rule) ys1000_html)
          (then_some (is_rule_enabled policy named_proxy_html_rule) named_proxy_html)
      else if not (is_empty asset_path) && ends_with (bytes ".js") asset_path
      then then_some
          (equal name (bytes "kubekey")
            && (starts_with (bytes "assets/") asset_path
                && is_rule_enabled policy kubekey_asset_js_rule))
          kubekey_asset_js
      else then_some (is_rule_enabled policy named_proxy_html_rule) named_proxy_html

  -- The name and the asset path of a named proxy request.
  unfoldable pub proxy_request : Bytes → Option (Bytes × Bytes)
  proxy_request path = elim (strip_prefix (policy.base_path ++ bytes "/proxy/") path) [
    | none ↦ none
    | some proxy_path ↦ elim (split_once (bytes "/") proxy_path) [
      | none ↦ none
      | some request ↦ then_some (not (is_empty request.0)) request
    ]
  ]

  unfoldable pub bundle_profile : Bytes → Bytes → Bytes → Option RewriteProfile
  bundle_profile extension distribution_path asset_path =
      if (ends_with (bytes "-frontend") extension && equal asset_path (bytes "index.js"))
        && is_rule_enabled policy frontend_index_js_bundle_rule
      then some (
          if equal extension (bytes "ys1000-frontend")
            && equal distribution_path (bytes "ys1000-frontend/index.js")
          then ys1000_frontend_index_js_bundle
          else frontend_index_js_bundle)
      else then_some (is_rule_enabled policy js_bundle_rule) js_bundle

  -- The conditions behind `jsbundle_asset_path`.
  unfoldable pub is_bundle_asset : Bytes → Bytes → Bool
  is_bundle_asset extension asset_path =
      is_extension_enabled policy extension
      && (not (is_empty asset_path)
          && (not (contains_byte b'/' asset_path) && ends_with (bytes ".js") asset_path))

  -- The extension and the profile of a bundle request.
  unfoldable pub bundle_of : Bytes → Bytes → Option (Bytes × RewriteProfile)
  bundle_of extension distribution_path = elim (jsbundle_asset_path extension distribution_path) [
    | none ↦ none
    | some asset_path ↦
        if is_bundle_asset extension asset_path
        then (elim (bundle_profile extension distribution_path asset_path) [
          | none ↦ none
          | some profile ↦ some (extension, profile)
        ])
        else none
  ]

  unfoldable pub bundle_request : Bytes → Option (Bytes × RewriteProfile)
  bundle_request path = elim (strip_prefix (policy.base_path ++ bytes "/jsbundles/") path) [
    | none ↦ none
    | some bundle_path ↦ elim (split_once (bytes "/dist/") bundle_path) [
      | none ↦ none
      | some parts ↦ bundle_of parts.0 parts.1
    ]
  ]

  unfoldable pub is_static_asset : Bytes → Bytes → Bool
  is_static_asset extension asset_path = not (
      is_empty extension
      || (is_empty asset_path
          || (contains_byte b'/' extension
              || (not (is_rule_enabled policy console_v3_rule)
                  || (not (is_extension_enabled policy extension)
                      || not (is_text_asset asset_path))))))

  -- The extension of a static asset request.
  unfoldable pub static_request : Bytes → Option Bytes
  static_request path = elim (strip_prefix (policy.base_path ++ bytes "/extensions-static/") path) [
    | none ↦ none
    | some extension_path ↦ elim (split_once (bytes "/dist/v3dist/") extension_path) [
      | none ↦ none
      | some parts ↦ then_some (is_static_asset parts.0 parts.1) parts.0
    ]
  ]

  abbrev pub decision : Option RewriteProfile → Bytes → Bool → RewriteDecision
  decision none extension head_only = bypass
  decision (some profile) extension head_only = rewrite profile extension head_only

  -- The branches for a path, in order.
  unfoldable pub decide_path : Bytes → Bool → RewriteDecision
  decide_path path head_only = elim (proxy_request path) [
    | some (name, asset_path) ↦ decision (proxy_profile name asset_path) name head_only
    | none ↦ elim (bundle_request path) [
      | some (extension, profile) ↦ rewrite profile extension head_only
      | none ↦ elim (static_request path) [
        | some extension ↦ rewrite console_v3 extension head_only
        | none ↦ bypass
      ]
    ]
  ]

  unfoldable pub decide : Bytes → Bytes → RewriteDecision
  decide method path =
      if is_empty policy.base_path
        || (not (eq_ignore_ascii_case method (bytes "GET"))
            && not (eq_ignore_ascii_case method (bytes "HEAD")))
      then bypass
      else decide_path path (eq_ignore_ascii_case method (bytes "HEAD"))

  unfoldable pub metrics_extension_label : RewriteProfile → Bytes → Bytes
  metrics_extension_label kubekey_asset_js extension = bytes "kubekey-assets"
  metrics_extension_label named_proxy_html extension = bytes "proxy-html"
  metrics_extension_label ys1000_html extension = bytes "ys1000-html"
  metrics_extension_label console_v3 extension = listed_label policy.extensions extension
  metrics_extension_label frontend_index_js_bundle extension =
      listed_label policy.extensions extension
  metrics_extension_label ys1000_frontend_index_js_bundle extension =
      listed_label policy.extensions extension
  metrics_extension_label js_bundle extension = listed_label policy.extensions extension
