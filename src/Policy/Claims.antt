-- ===== src/Policy/Claims.antt =====
-- What `RewritePolicy::decide` promises to the proxy.
use kse_static_rewrite_proxy.Base.{
  Bool, true, false, [], ◌++◌, ◌≡◌, ◌≢◌, if◌then◌else◌, ◌||◌, arith, Option-cases, Bool-cases, inl,
  inr,
}
use mathlib.Core.Path.{subst, refl}
use kse_static_rewrite_proxy.Slice.{Bytes, bytes}
use kse_static_rewrite_proxy.Slice.Text.{eq_ignore_ascii_case}
use kse_static_rewrite_proxy.Policy.{RewriteProfile, rewrite, RewritePolicy}
use kse_static_rewrite_proxy.Policy.Decide.{
  is_empty, proxy_profile, proxy_request, bundle_request, static_request, decide_path, decide,
}
use kse_static_rewrite_proxy.Policy.Route.{Route, path_of, IsRoute, decide_route, decide_path-route}
use kse_static_rewrite_proxy.Policy.Selected.{
  SelectedPath, proxy_profile-rule, proxy_request-parts, Belongs-SelectedPath,
  bundle_request-SelectedPath, static_request-SelectedPath,
}

pub record Selected (policy : RewritePolicy) (method path : Bytes) (profile : RewriteProfile)
    (extension : Bytes) (head_only : Bool) : Type 0 where
  pub based : policy.base_path ≢ []
  pub of_method :
      eq_ignore_ascii_case method (if head_only then bytes "HEAD" else bytes "GET") ≡ true
  pub head : eq_ignore_ascii_case method (bytes "HEAD") ≡ head_only
  pub of_path : SelectedPath policy path profile extension

module _ (policy : RewritePolicy) where
  decide_path-SelectedPath :
      (path extension : Bytes) (profile : RewriteProfile) (head asked : Bool)
      → decide_path policy path asked ≡ rewrite profile extension head
      → SelectedPath policy path profile extension × (asked ≡ head)
  unfolding decide_path
  decide_path-SelectedPath path extension profile head asked e =
      elim (Option-cases (proxy_request policy path)) [
        | inr ((name, asset_path), request) ↦
            elim (Option-cases (proxy_profile policy name asset_path)) [
              | inl missing ↦ absurd (ground arith)
              | inr (profile', chosen) ↦ (
                Belongs-SelectedPath policy path profile (bytes "/proxy/") (bytes "/") extension
                    asset_path false
                    (proxy_profile-rule policy name asset_path profile (ground arith))
                    (ground (arith, proxy_request-parts policy path name asset_path request)) refl,
                ground arith,
              )
            ]
        | inl missing ↦ elim (Option-cases (bundle_request policy path)) [
          | inr ((extension', profile'), request) ↦ (
            bundle_request-SelectedPath policy path extension profile (ground arith),
            ground arith,
          )
          | inl missing' ↦ elim (Option-cases (static_request policy path)) [
            | inr (extension', request) ↦ (
              subst (λ p. SelectedPath policy path p extension) (ground arith)
                  (static_request-SelectedPath policy path extension (ground arith)),
              ground arith,
            )
            | inl missing'' ↦ absurd (ground arith)
          ]
        ]
      ]

  -- A decision to rewrite is made for a GET or a HEAD request only, of a policy with a base path,
  -- says which of the two it is, and has the profile's rule enabled; the path stands below the base
  -- path at the profile's root, is the extension, the profile's middle part and an asset, and the
  -- extension is enabled where the profile depends on that.
  pub decide-Selected :
      (method path extension : Bytes) (profile : RewriteProfile) (head : Bool)
      → decide policy method path ≡ rewrite profile extension head
      → Selected policy method path profile extension head
  unfolding decide is_empty
  decide-Selected method path extension profile head e =
      let (selected, asked) =
        decide_path-SelectedPath path extension profile head
          (eq_ignore_ascii_case method (bytes "HEAD")) (ground arith) in
      record {
        based = λ b. absurd (ground arith);
        of_method = ground arith;
        head = asked;
        of_path = selected;
      }

  -- For a policy with a base path and a GET or a HEAD request, with any letter case: a path that is
  -- put together from a name or an extension without a slash, a name that is not empty, and the rest
  -- of the path, is decided by exactly its own branch from exactly these parts, and the decision
  -- says whether the request was a HEAD.
  pub decide-route :
      (method : Bytes) (route : Route)
      → is_empty policy.base_path ≡ false
      → (eq_ignore_ascii_case method (bytes "GET") || eq_ignore_ascii_case method (bytes "HEAD"))
        ≡ true
      → IsRoute route
      → decide policy method (policy.base_path ++ path_of route)
        ≡ decide_route policy route (eq_ignore_ascii_case method (bytes "HEAD"))
  unfolding decide
  decide-route method route based asked h =
      let same = decide_path-route policy route (eq_ignore_ascii_case method (bytes "HEAD")) h in
      elim (Bool-cases (eq_ignore_ascii_case method (bytes "GET"))) [
        | inl get ↦ rw (based, get) same
        | inr not_get ↦ elim (Bool-cases (eq_ignore_ascii_case method (bytes "HEAD"))) [
          | inl head ↦ rw (based, not_get, head) (rw head at same)
          | inr fails ↦ absurd (ground arith)
        ]
      ]
