-- ===== src/Response/Claims.antt =====
-- What `build_selected_response_rewriter` promises to the proxy.
use kse_static_rewrite_proxy.Base.{ℕ, [], ◌∷◌, ◌++◌, ◌≡◌, ◌≢◌, refl, if-elim}
use kse_static_rewrite_proxy.Slice.{Bytes, bytes, equal}
use kse_static_rewrite_proxy.Slice.Text.{trim_start_matches}
use kse_static_rewrite_proxy.Memmem.{Memmem}
use kse_static_rewrite_proxy.Literal.Result.{Result, ok, ◌>>=◌}
use kse_static_rewrite_proxy.Literal.Rewriter as Literal
use kse_static_rewrite_proxy.Literal.Rewriter.{from_mode}
use kse_static_rewrite_proxy.MigMeta.{Codec}
use kse_static_rewrite_proxy.Pipeline.{
  Pipeline, new_with_exact, new_with_appended_suffix, with_exact_rules, with_buffered_transform,
  exact_literal_rewriters, from_rewriters, prefix_literal_rewriters,
}
use kse_static_rewrite_proxy.Pipeline.Built.{
  Built, by_new_with_exact, by_new_with_appended_suffix, by_with_exact_rules,
  by_with_buffered_transform,
}
use kse_static_rewrite_proxy.Policy.{
  RewriteProfile, console_v3, frontend_index_js_bundle, ys1000_frontend_index_js_bundle, js_bundle,
  kubekey_asset_js, named_proxy_html, ys1000_html,
}
use kse_static_rewrite_proxy.Response.{
  kubekey_legacy_root_rule, attribute_rules, boundaries, quoted_rule, build_js_bundle_rewriter,
  build_proxy_rewriter, build_selected_response_rewriter,
}

-- A construction that succeeds, with a pipeline of literal and buffered stages.
abbrev pub Builds : ℕ → Result Pipeline → Type 0
Builds max_bytes r = (p : Pipeline) × (r ≡ ok p) × Built max_bytes p

module _ (base_path : Bytes) (max_bytes : ℕ) where
  build_js_bundle_rewriter-Builds : Builds max_bytes (build_js_bundle_rewriter base_path max_bytes)
  unfolding build_js_bundle_rewriter new_with_appended_suffix Literal.new_with_appended_suffix
      from_mode from_rewriters
  build_js_bundle_rewriter-Builds = (
    _,
    refl,
    by_new_with_appended_suffix (bytes "`//${window.location.host}/")
        (trim_start_matches b'/' base_path ++ bytes "/") _ refl,
  )

  build_proxy_rewriter-Builds :
      (extension : Bytes) → Builds max_bytes (build_proxy_rewriter base_path extension max_bytes)
  unfolding build_proxy_rewriter new_with_exact attribute_rules kubekey_legacy_root_rule
      Literal.new_exact from_mode exact_literal_rewriters prefix_literal_rewriters from_rewriters
  build_proxy_rewriter-Builds extension =
      let proxy_root = bytes "/proxy/" ++ (extension ++ bytes "/") in
      let rules = attribute_rules base_path proxy_root boundaries in
      if-elim (λ xs. Builds max_bytes (new_with_exact [] xs max_bytes))
        (equal extension (bytes "kubekey")) (rules ++ (kubekey_legacy_root_rule base_path ∷ []))
        rules
        (λ _. (
          _,
          refl,
          by_new_with_exact [] (rules ++ (kubekey_legacy_root_rule base_path ∷ [])) _ refl,
        ))
        (λ _. (_, refl, by_new_with_exact [] rules _ refl))

  kubekey-Builds :
      Builds max_bytes (new_with_exact [] (kubekey_legacy_root_rule base_path ∷ []) max_bytes)
  unfolding new_with_exact kubekey_legacy_root_rule Literal.new_exact from_mode
      exact_literal_rewriters prefix_literal_rewriters from_rewriters
  kubekey-Builds = (_, refl, by_new_with_exact [] (kubekey_legacy_root_rule base_path ∷ []) _ refl)

  -- Two more rules, and a transformation behind a pipeline.
  quoted_rules-Builds :
      (r : Result Pipeline)
      → Builds max_bytes r
      → Builds max_bytes (
          r >>= λ p.
          with_exact_rules p (quoted_rule base_path b'"' ∷ quoted_rule base_path 39 ∷ []))
  unfolding with_exact_rules exact_literal_rewriters Literal.new_exact from_mode
  quoted_rules-Builds r (p, e, b) = rw e (
    _,
    refl,
    by_with_exact_rules (quoted_rule base_path b'"' ∷ quoted_rule base_path 39 ∷ []) p _ b refl,
  )

  transformed-Builds :
      (transform : Bytes → Bytes) (r : Result Pipeline)
      → Builds max_bytes r
      → Builds max_bytes (r >>= λ p. ok (with_buffered_transform p transform))
  transformed-Builds transform r (p, e, b) =
      rw e (_, refl, by_with_buffered_transform transform p b)

  -- Whatever the base path, the extension and the limit, every profile but `console_v3` builds a
  -- pipeline without an error, and the pipeline is one of literal and buffered stages.
  pub build-Builds :
      (memmem : Memmem) (codec : Codec) (profile : RewriteProfile) (extension : Bytes)
      → profile ≢ console_v3
      → Builds max_bytes
          (build_selected_response_rewriter base_path memmem codec profile extension max_bytes)
  unfolding build_selected_response_rewriter
  build-Builds memmem codec console_v3 extension ne = absurd (ne refl)
  build-Builds memmem codec frontend_index_js_bundle extension ne = build_js_bundle_rewriter-Builds
  build-Builds memmem codec js_bundle extension ne = build_js_bundle_rewriter-Builds
  build-Builds memmem codec ys1000_frontend_index_js_bundle extension ne =
      quoted_rules-Builds (build_js_bundle_rewriter base_path max_bytes)
        build_js_bundle_rewriter-Builds
  build-Builds memmem codec kubekey_asset_js extension ne = kubekey-Builds
  build-Builds memmem codec named_proxy_html extension ne = build_proxy_rewriter-Builds extension
  build-Builds memmem codec ys1000_html extension ne =
      transformed-Builds _ (build_proxy_rewriter base_path extension max_bytes)
        (build_proxy_rewriter-Builds extension)
