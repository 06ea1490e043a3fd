-- ===== src/Policy/Route.antt =====
-- The three kinds of paths that `RewritePolicy::decide` takes apart, put together from their parts.
use kse_static_rewrite_proxy.Base.{
  ℕ, Bool, false, [], ◌∷◌, ◌++◌, ◌≡◌, refl, ◌∙◌, none, some, arith, if◌then◌else◌, length, drop,
  drop-append_self, Bool-cases, Option-cases, inl, inr,
}
use kse_static_rewrite_proxy.Slice.{Bytes, bytes, starts_with}
use kse_static_rewrite_proxy.Slice.Prefix.{starts_with-append_self}
use kse_static_rewrite_proxy.Slice.Text.{strip_prefix, split_once, contains_byte}
use kse_static_rewrite_proxy.Policy.{RewriteDecision, bypass, rewrite, RewritePolicy, console_v3}
use kse_static_rewrite_proxy.Policy.Decide.{
  is_empty, then_some, decision, proxy_profile, proxy_request, bundle_of, bundle_request,
  is_static_asset, static_request, decide_path,
}

pub data Route : Type 0 where
  named_proxy : (name asset_path : Bytes) → Route
  js_bundles : (extension distribution_path : Bytes) → Route
  extensions_static : (extension asset_path : Bytes) → Route

-- The path behind the base path.
abbrev pub path_of : Route → Bytes
path_of (named_proxy name asset_path) = bytes "/proxy/" ++ (name ++ (bytes "/" ++ asset_path))
path_of (js_bundles extension distribution_path) =
    bytes "/jsbundles/" ++ (extension ++ (bytes "/dist/" ++ distribution_path))
path_of (extensions_static extension asset_path) =
    bytes "/extensions-static/" ++ (extension ++ (bytes "/dist/v3dist/" ++ asset_path))

-- The name or the extension is one segment of the path, and a name is not empty.
abbrev pub IsRoute : Route → Type 0
IsRoute (named_proxy name _) = (contains_byte b'/' name ≡ false) × (is_empty name ≡ false)
IsRoute (js_bundles extension _) = contains_byte b'/' extension ≡ false
IsRoute (extensions_static extension _) = contains_byte b'/' extension ≡ false

-- What is decided for a route.
abbrev pub decide_route : RewritePolicy → Route → Bool → RewriteDecision
decide_route policy (named_proxy name asset_path) head_only =
    decision policy (proxy_profile policy name asset_path) name head_only
decide_route policy (js_bundles extension distribution_path) head_only =
    elim (bundle_of policy extension distribution_path) [
      | none ↦ bypass
      | some (name, profile) ↦ rewrite profile name head_only
    ]
decide_route policy (extensions_static extension asset_path) head_only =
    if is_static_asset policy extension asset_path
    then rewrite console_v3 extension head_only
    else bypass

starts_with-append_both :
    (base n xs : Bytes) → starts_with (base ++ n) (base ++ xs) ≡ starts_with n xs
unfolding starts_with
starts_with-append_both [] n xs = refl
starts_with-append_both (b ∷ bs) n xs = ground (arith, starts_with-append_both bs n xs)

drop-append_both : (base n xs : Bytes) → drop (length (base ++ n)) (base ++ xs) ≡ drop (length n) xs
drop-append_both [] n xs = refl
drop-append_both (b ∷ bs) n xs = drop-append_both bs n xs

-- Below the base path only the roots are compared.
strip_prefix-append_both :
    (base n xs : Bytes) → strip_prefix (base ++ n) (base ++ xs) ≡ strip_prefix n xs
unfolding strip_prefix
strip_prefix-append_both base n xs =
    rw (starts_with-append_both base n xs, drop-append_both base n xs) refl

strip_prefix-append_self : (n xs : Bytes) → strip_prefix n (n ++ xs) ≡ some xs
unfolding strip_prefix
strip_prefix-append_self n xs = rw (starts_with-append_self n xs, drop-append_self n xs) refl

strip_root : (base n xs : Bytes) → strip_prefix (base ++ n) (base ++ (n ++ xs)) ≡ some xs
strip_root base n xs = strip_prefix-append_both base n (n ++ xs) ∙ strip_prefix-append_self n xs

-- A separator is found behind a part that does not have its first byte.
pub split_once-append_first :
    (b : ℕ) (ns before after : Bytes)
    → contains_byte b before ≡ false
    → split_once (b ∷ ns) (before ++ ((b ∷ ns) ++ after)) ≡ some (before, after)
unfolding split_once contains_byte starts_with
split_once-append_first b ns [] after h =
    rw (starts_with-append_self (b ∷ ns) after, drop-append_self (b ∷ ns) after) refl
split_once-append_first b ns (c ∷ cs) after h =
    ground (arith, split_once-append_first b ns cs after)

module _ (policy : RewritePolicy) where
  abbrev full_path : Route → Bytes
  full_path route = policy.base_path ++ path_of route

  proxy_request-named :
      (name asset_path : Bytes)
      → IsRoute (named_proxy name asset_path)
      → proxy_request policy (full_path (named_proxy name asset_path)) ≡ some (name, asset_path)
  unfolding proxy_request
  proxy_request-named name asset_path (h, k) =
      rw
        (
          proxy_request,
          strip_root policy.base_path (bytes "/proxy/") (name ++ (bytes "/" ++ asset_path)),
          split_once-append_first b'/' [] name asset_path h,
          k,
        )
        refl

  -- A path at another root is not a proxy's.
  proxy_request-other :
      (tail : Bytes)
      → strip_prefix (bytes "/proxy/") tail ≡ none
      → proxy_request policy (policy.base_path ++ tail) ≡ none
  unfolding proxy_request
  proxy_request-other tail h =
      rw (proxy_request, strip_prefix-append_both policy.base_path (bytes "/proxy/") tail, h) refl

  bundle_request-other :
      (tail : Bytes)
      → strip_prefix (bytes "/jsbundles/") tail ≡ none
      → bundle_request policy (policy.base_path ++ tail) ≡ none
  unfolding bundle_request
  bundle_request-other tail h =
      rw (bundle_request, strip_prefix-append_both policy.base_path (bytes "/jsbundles/") tail, h)
        refl

  static_request-other :
      (tail : Bytes)
      → strip_prefix (bytes "/extensions-static/") tail ≡ none
      → static_request policy (policy.base_path ++ tail) ≡ none
  unfolding static_request
  static_request-other tail h =
      rw
        (
          static_request,
          strip_prefix-append_both policy.base_path (bytes "/extensions-static/") tail,
          h,
        )
        refl

  bundle_request-bundle :
      (extension distribution_path : Bytes)
      → IsRoute (js_bundles extension distribution_path)
      → bundle_request policy (full_path (js_bundles extension distribution_path))
        ≡ bundle_of policy extension distribution_path
  unfolding bundle_request
  bundle_request-bundle extension distribution_path h =
      rw
        (
          bundle_request,
          strip_root policy.base_path (bytes "/jsbundles/")
              (extension ++ (bytes "/dist/" ++ distribution_path)),
          split_once-append_first b'/' (bytes "dist/") extension distribution_path h,
        )
        refl

  static_request-static :
      (extension asset_path : Bytes)
      → IsRoute (extensions_static extension asset_path)
      → static_request policy (full_path (extensions_static extension asset_path))
        ≡ then_some (is_static_asset policy extension asset_path) extension
  unfolding static_request
  static_request-static extension asset_path h =
      rw
        (
          static_request,
          strip_root policy.base_path (bytes "/extensions-static/")
              (extension ++ (bytes "/dist/v3dist/" ++ asset_path)),
          split_once-append_first b'/' (bytes "dist/v3dist/") extension asset_path h,
        )
        refl

  pub decide_path-route :
      (route : Route) (head_only : Bool)
      → IsRoute route
      → decide_path policy (full_path route) head_only ≡ decide_route policy route head_only
  unfolding decide_path strip_prefix starts_with
  decide_path-route (named_proxy name asset_path) head_only h =
      rw (decide_path, proxy_request-named name asset_path h) refl
  decide_path-route (js_bundles extension distribution_path) head_only h =
      let tail = path_of (js_bundles extension distribution_path) in
      let proxied = proxy_request-other tail refl in
      let bundled = bundle_request-bundle extension distribution_path h in
      elim (Option-cases (bundle_of policy extension distribution_path)) [
        | inl missing ↦
            rw
              (decide_path, decide_route, proxied, bundled, missing, static_request-other tail refl)
              refl
        | inr (bundle, found) ↦ rw (decide_path, decide_route, proxied, bundled, found) refl
      ]
  decide_path-route (extensions_static extension asset_path) head_only h =
      let tail = path_of (extensions_static extension asset_path) in
      let proxied = proxy_request-other tail refl in
      let unbundled = bundle_request-other tail refl in
      let static = static_request-static extension asset_path h in
      elim (Bool-cases (is_static_asset policy extension asset_path)) [
        | inl holds ↦ rw (decide_path, decide_route, proxied, unbundled, static, holds) refl
        | inr fails ↦ rw (decide_path, decide_route, proxied, unbundled, static, fails) refl
      ]
