-- ===== src/Tests/PolicyRuns.antt =====
-- The rewrite policy at concrete paths.
use kse_static_rewrite_proxy.Base.{true, false, [], ◌∷◌, ◌≡◌, refl}
use kse_static_rewrite_proxy.Slice.{bytes, equal, starts_with, ends_with}
use kse_static_rewrite_proxy.Slice.Text.{
  strip_prefix, strip_suffix, split_once, contains_byte, contains, collect, any, last_part,
  trim_end_matches, eq_ignore_ascii_case, to_ascii_lowercase,
}
use kse_static_rewrite_proxy.Policy.{
  RewritePolicy, bypass, rewrite, new, number, console_v3, js_bundle, ys1000_html,
  is_ascii_alphanumeric, is_safe_extension_name, jsbundle_asset_path, is_extension_enabled,
  all_name_bytes, contains_rule, is_rule_enabled, is_text_asset, strip_directory,
}
use kse_static_rewrite_proxy.Policy.Decide.{
  is_empty, is_bundle_asset, bundle_profile, is_static_asset, proxy_profile, decide, decide_path,
  proxy_request, bundle_request, bundle_of, static_request,
}
use kse_static_rewrite_proxy.Policy.Claims.{Selected, decide-Selected, decide-route}
use kse_static_rewrite_proxy.Policy.Route.{js_bundles}

abbrev policy : RewritePolicy
policy = new (bytes "/base/") (bytes "demo" ∷ [])

decides : Unit {0}
unfolding new decide is_empty trim_end_matches eq_ignore_ascii_case to_ascii_lowercase decide_path
    proxy_request strip_prefix starts_with ends_with bundle_request split_once bundle_of
    jsbundle_asset_path is_bundle_asset is_extension_enabled is_safe_extension_name contains collect
    contains_byte bundle_profile is_static_asset proxy_profile static_request all_name_bytes
    contains_rule is_ascii_alphanumeric is_rule_enabled is_text_asset number strip_directory any
    last_part strip_suffix equal
decides = tt

decide_console :
    decide policy (bytes "get") (bytes "/base/extensions-static/demo/dist/v3dist/app.css")
    ≡ rewrite console_v3 (bytes "demo") false
unfolding decides
decide_console = refl

decide_other :
    decide policy (bytes "GET") (bytes "/base/extensions-static/other/dist/v3dist/app.css") ≡ bypass
unfolding decides
decide_other = refl

decide_post : decide policy (bytes "POST") (bytes "/base/proxy/ys1000/index.html") ≡ bypass
unfolding decides
decide_post = refl

decide_head :
    decide policy (bytes "HEAD") (bytes "/base/proxy/ys1000/index.html")
    ≡ rewrite ys1000_html (bytes "ys1000") true
unfolding decides
decide_head = refl

decide-Selected_example :
    Selected policy
      (bytes "GET")
      (bytes "/base/jsbundles/demo/dist/demo/main.js")
      js_bundle
      (bytes "demo")
      false
unfolding decides
decide-Selected_example =
    decide-Selected policy (bytes "GET") (bytes "/base/jsbundles/demo/dist/demo/main.js")
      (bytes "demo") js_bundle false refl

decide-route_example :
    decide policy (bytes "hEaD") (bytes "/base/jsbundles/demo/dist/demo/main.js")
    ≡ rewrite js_bundle (bytes "demo") true
unfolding decides
decide-route_example =
    decide-route policy (bytes "hEaD") (js_bundles (bytes "demo") (bytes "demo/main.js")) refl refl
      refl
