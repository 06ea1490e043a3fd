-- ===== src/Response/Total.antt =====
-- The pipeline of `console_v3`, and of any profile.
use kse_static_rewrite_proxy.Base.{ℕ, ◌∷◌, ◌++◌, ◌≡◌, refl}
use kse_static_rewrite_proxy.Slice.{Bytes, bytes}
use kse_static_rewrite_proxy.Slice.Prefix.{ends_with-append}
use kse_static_rewrite_proxy.Memmem.{Memmem}
use kse_static_rewrite_proxy.Literal.Result.{ok}
use kse_static_rewrite_proxy.Literal.Rewriter as Literal
use kse_static_rewrite_proxy.Literal.Rewriter.{LiteralRewriter, from_mode, usize_max}
use kse_static_rewrite_proxy.Expression.Scanner as Expression
use kse_static_rewrite_proxy.MigMeta.{Codec}
use kse_static_rewrite_proxy.Pipeline.{
  Pipeline, new_with_exact, new_with_exact_and_member_expression_patterns, member_rewriters,
  template_rewriters, with_identifier_template_patterns, exact_literal_rewriters, from_rewriters,
  prefix_literal_rewriters,
}
use kse_static_rewrite_proxy.Policy.{RewriteProfile, console_v3}
use kse_static_rewrite_proxy.Response.{build_response_rewriter, build_selected_response_rewriter}
use kse_static_rewrite_proxy.Response.Claims.{build-Builds}

-- A rule whose replacement is its source behind the base path.
new-scoped :
    (base_path : Bytes) (b : ℕ) (bs : Bytes)
    → (r : LiteralRewriter) × (Literal.new (b ∷ bs) (base_path ++ (b ∷ bs)) usize_max ≡ ok r)
unfolding Literal.new Literal.strip_suffix from_mode
new-scoped base_path b bs =
    rw (Literal.new, Literal.strip_suffix, ends_with-append base_path (b ∷ bs), Literal.new)
      (_, refl)

module _ (base_path : Bytes) (max_bytes : ℕ) where
  console-ok :
      (b : ℕ) (bs : Bytes)
      → (p : Pipeline) × (build_response_rewriter base_path
            (b ∷ bs)
            (base_path ++ (b ∷ bs))
            max_bytes
          ≡ ok p)
  unfolding build_response_rewriter new_with_exact_and_member_expression_patterns new_with_exact
      member_rewriters template_rewriters with_identifier_template_patterns exact_literal_rewriters
      from_rewriters Literal.new_exact from_mode Expression.new_member_expression
      Expression.new_template prefix_literal_rewriters
  console-ok b bs =
      let (r, e) = new-scoped base_path b bs in
      let (s, f) = new-scoped base_path b'/' (bytes "extensions-static/") in rw (e, f) (_, refl)

  -- Whatever the base path, the extension and the limit, a pipeline is built for every profile,
  -- without an error or a panic.
  pub build-ok :
      (memmem : Memmem) (codec : Codec) (profile : RewriteProfile) (extension : Bytes)
      → (p : Pipeline) × (build_selected_response_rewriter base_path memmem codec profile extension
            max_bytes
          ≡ ok p)
  build-ok memmem codec console_v3 extension =
      unfold build_selected_response_rewriter in
      console-ok b'/' (bytes "extensions-static/" ++ (extension ++ bytes "/dist/v3dist/"))
  build-ok memmem codec profile extension =
      let (p, e, built) =
        build-Builds base_path max_bytes memmem codec profile extension (λ e. cc) in
      (p, e)
