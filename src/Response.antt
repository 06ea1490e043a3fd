-- ===== src/Response.antt =====
-- src/rewrite.rs: `build_selected_response_rewriter` and `build_response_rewriter`, the stages of
-- each profile.
pub mod Claims
pub mod Total
use kse_static_rewrite_proxy.Base.{ℕ, List, [], ◌∷◌, ◌++◌, map, if◌then◌else◌}
use kse_static_rewrite_proxy.Slice.{Bytes, bytes, equal}
use kse_static_rewrite_proxy.Slice.Text.{trim_start_matches}
use kse_static_rewrite_proxy.Memmem.{Memmem}
use kse_static_rewrite_proxy.Literal.Result.{Result, ok, ◌>>=◌}
use kse_static_rewrite_proxy.MigMeta.{Codec, rewrite_mig_meta_base_uri}
use kse_static_rewrite_proxy.Pipeline.{
  Pipeline, new_with_exact, new_with_exact_and_member_expression_patterns, new_with_appended_suffix,
  with_exact_rules, with_identifier_template_patterns, with_buffered_transform,
}
use kse_static_rewrite_proxy.Policy.{
  RewriteProfile, console_v3, frontend_index_js_bundle, ys1000_frontend_index_js_bundle, js_bundle,
  kubekey_asset_js, named_proxy_html, ys1000_html,
}

unfoldable pub kubekey_legacy_root_rule : Bytes → Bytes × Bytes
kubekey_legacy_root_rule base_path = (bytes "/57516e69-2cb0-4d48-a8a8-2833cfff87a9", base_path)

abbrev pub attributes : List Bytes
attributes = bytes "href=\"" ∷ bytes "href='" ∷ bytes "src=\"" ∷ bytes "src='" ∷ []

-- A space, and the bytes `\t`, `\r`, `\n` and `\x0C`.
abbrev pub boundaries : Bytes
boundaries = 32 ∷ 9 ∷ 13 ∷ 10 ∷ 12 ∷ []

module _ (base_path : Bytes) where
  -- The rules of the named proxies: each boundary with each attribute.
  unfoldable pub attribute_rules : Bytes → Bytes → List (Bytes × Bytes)
  attribute_rules proxy_root [] = []
  attribute_rules proxy_root (b ∷ bs) =
      map
        (λ (attribute : Bytes).
          (b ∷ (attribute ++ proxy_root), b ∷ (attribute ++ (base_path ++ proxy_root))))
        attributes
      ++ attribute_rules proxy_root bs

  abbrev pub exact_rules : List (Bytes × Bytes)
  exact_rules =
      (
        bytes "return requestURL.replace(/\\\\/\\\\/+/, '/');",
        bytes
              "return requestURL.toLowerCase().startsWith('http://') || requestURL.toLowerCase().startsWith('https://') || requestURL.startsWith('//') ? requestURL : (requestURL.replace(/\\\\/\\\\/+/, '/') === '"
            ++ (base_path
                ++ (bytes "' || requestURL.replace(/\\\\/\\\\/+/, '/').startsWith('"
                    ++ (base_path
                        ++ (bytes "/') ? requestURL.replace(/\\\\/\\\\/+/, '/') : '"
                            ++ (base_path
                                ++ bytes
                                    "/'.concat(requestURL.replace(/\\\\/\\\\/+/, '/').replace(/^\\\\/+/, '')));"))))),
      )
      ∷ (
        bytes "return \"/\".concat(path.trimLeft('/'));",
        bytes "return path.startsWith('/') ? path : \"/\".concat(path);",
      )
      ∷ (
        bytes "return \\\"/\\\".concat(path.trimLeft('/'));",
        bytes "return path.startsWith('/') ? path : \\\"/\\\".concat(path);",
      )
      ∷ (
        bytes "if (path.startsWith('http')) {",
        bytes
            "if (path.toLowerCase().startsWith('http://') || path.toLowerCase().startsWith('https://')) {",
      )
      ∷ []

  abbrev pub member_expression_rules : List (Bytes × Bytes × Bytes)
  member_expression_rules =
      (
        bytes "basename: \"\".concat(",
        bytes ", \"/consolev3\")",
        bytes "basename: \"" ++ (base_path ++ bytes "/\".concat("),
      )
      ∷ (
        bytes "basename:\"\".concat(",
        bytes ",\"/consolev3\")",
        bytes "basename:\"" ++ (base_path ++ bytes "/\".concat("),
      )
      ∷ (
        bytes "basename: \\\"\\\".concat(",
        bytes ", \\\"/consolev3\\\")",
        bytes "basename: \\\"" ++ (base_path ++ bytes "/\\\".concat("),
      )
      ∷ (
        bytes "basename:\\\"\\\".concat(",
        bytes ",\\\"/consolev3\\\")",
        bytes "basename:\\\"" ++ (base_path ++ bytes "/\\\".concat("),
      )
      ∷ []

  -- The test that the three templates share, between their heads and their ends.
  abbrev pub based_identifier : Bytes
  based_identifier =
      bytes "{identifier}===\""
      ++ (base_path
          ++ (bytes "\"||{identifier}.startsWith(\""
              ++ (base_path
                  ++ (bytes "/\")?{identifier}:\""
                      ++ (base_path ++ bytes "/\".concat({identifier}.replace(/^\\/+/,\"\")))")))))

  abbrev pub identifier_rules : List (Bytes × Bytes × Bytes)
  identifier_rules =
      (bytes "\"/\".concat(", bytes ".trimLeft(\"/\"))", bytes "(" ++ based_identifier)
      ∷ (
        bytes "return\"/\".concat(",
        bytes ".trimLeft(\"/\"))",
        bytes "return(" ++ based_identifier,
      )
      ∷ (
        bytes ")),",
        bytes ".replace(/\\/\\/+/,\"/\")}",
        bytes ")),({identifier}={identifier}.replace(/\\/\\/+/,\"/\"),"
            ++ (based_identifier ++ bytes "}"),
      )
      ∷ []

  unfoldable pub build_response_rewriter : Bytes → Bytes → ℕ → Result Pipeline
  build_response_rewriter source replacement max_bytes =
      new_with_exact_and_member_expression_patterns
        ((source, replacement)
          ∷ (bytes "/extensions-static/", base_path ++ bytes "/extensions-static/")
          ∷ [])
        exact_rules member_expression_rules max_bytes
      >>= λ pipeline. with_identifier_template_patterns pipeline identifier_rules

  -- The pipeline of the two profiles for JavaScript bundles.
  unfoldable pub build_js_bundle_rewriter : ℕ → Result Pipeline
  build_js_bundle_rewriter max_bytes =
      new_with_appended_suffix (bytes "`//${window.location.host}/")
        (trim_start_matches b'/' base_path ++ bytes "/") max_bytes

  -- The pipeline of the named proxies.
  unfoldable pub build_proxy_rewriter : Bytes → ℕ → Result Pipeline
  build_proxy_rewriter extension max_bytes =
      let proxy_root = bytes "/proxy/" ++ (extension ++ bytes "/") in
      let rules = attribute_rules proxy_root boundaries in
      new_with_exact []
        (if equal extension (bytes "kubekey")
          then rules ++ (kubekey_legacy_root_rule base_path ∷ [])
          else rules)
        max_bytes

  abbrev pub quoted_rule : ℕ → Bytes × Bytes
  quoted_rule quote = (
    quote ∷ (bytes "/proxy/ys1000/" ++ (quote ∷ [])),
    quote ∷ (base_path ++ (bytes "/proxy/ys1000/" ++ (quote ∷ []))),
  )

  module _ (memmem : Memmem) (codec : Codec) where
    unfoldable pub build_selected_response_rewriter : RewriteProfile → Bytes → ℕ → Result Pipeline
    build_selected_response_rewriter console_v3 extension max_bytes =
        let source = bytes "/extensions-static/" ++ (extension ++ bytes "/dist/v3dist/") in
        build_response_rewriter source (base_path ++ source) max_bytes
    build_selected_response_rewriter frontend_index_js_bundle extension max_bytes =
        build_js_bundle_rewriter max_bytes
    build_selected_response_rewriter js_bundle extension max_bytes =
        build_js_bundle_rewriter max_bytes
    build_selected_response_rewriter ys1000_frontend_index_js_bundle extension max_bytes =
        build_js_bundle_rewriter max_bytes >>= λ pipeline.
        with_exact_rules pipeline (quoted_rule b'"' ∷ quoted_rule 39 ∷ [])
    build_selected_response_rewriter kubekey_asset_js extension max_bytes =
        new_with_exact [] (kubekey_legacy_root_rule base_path ∷ []) max_bytes
    build_selected_response_rewriter named_proxy_html extension max_bytes =
        build_proxy_rewriter extension max_bytes
    build_selected_response_rewriter ys1000_html extension max_bytes =
        build_proxy_rewriter extension max_bytes >>= λ pipeline. ok (
          with_buffered_transform pipeline
            (rewrite_mig_meta_base_uri memmem codec (base_path ++ (bytes "/proxy/" ++ extension))))
