-- ===== src/Policy/Selected.antt =====
-- What a decision to rewrite has established.
use kse_static_rewrite_proxy.Base.{
  Bool, true, false, not, ◌||◌, [], ◌∷◌, ◌++◌, ◌≡◌, refl, sym, ap, ◌∙◌, some, arith, Option-cases,
  Bool-cases, inl, inr, append_assoc,
}
use kse_static_rewrite_proxy.Slice.{Bytes, bytes, starts_with}
use kse_static_rewrite_proxy.Slice.Prefix.{starts_with→append}
use kse_static_rewrite_proxy.Slice.Text.{strip_prefix, split_once}
use kse_static_rewrite_proxy.Policy.{
  RewriteProfile, RewriteRule, RewritePolicy, is_rule_enabled, is_extension_enabled,
  jsbundle_asset_path, console_v3_rule, js_bundle_rule, frontend_index_js_bundle_rule,
  named_proxy_html_rule, ys1000_html_rule, kubekey_asset_js_rule, console_v3,
  frontend_index_js_bundle, ys1000_frontend_index_js_bundle, js_bundle, kubekey_asset_js,
  named_proxy_html, ys1000_html,
}
use kse_static_rewrite_proxy.Policy.Decide.{
  is_empty, proxy_profile, proxy_request, bundle_profile, is_bundle_asset, bundle_of,
  bundle_request, is_static_asset, static_request,
}

pub strip_prefix-append :
    (part text rest : Bytes) → strip_prefix part text ≡ some rest → text ≡ part ++ rest
unfolding strip_prefix
strip_prefix-append part text rest e = ground (arith, starts_with→append part text)

pub split_once-append :
    (needle text before after : Bytes)
    → split_once needle text ≡ some (before, after)
    → text ≡ before ++ (needle ++ after)
unfolding split_once
split_once-append [] [] before after e = ground arith
split_once-append (n ∷ ns) [] before after e =
    absurd (ground (arith, starts_with→append (n ∷ ns) []))
split_once-append needle (c ∷ cs) before after e = elim (Bool-cases (starts_with needle (c ∷ cs))) [
  | inl holds ↦ ground (arith, starts_with→append needle (c ∷ cs))
  | inr fails ↦ elim (Option-cases (split_once needle cs)) [
    | inl none_found ↦ ground arith
    | inr ((before', after'), found) ↦
        ground (arith, split_once-append needle cs before' after' found)
  ]
]

-- The rule that switches a profile, its root below the base path, and what follows the extension.
abbrev pub rule_of : RewriteProfile → RewriteRule
rule_of console_v3 = console_v3_rule
rule_of frontend_index_js_bundle = frontend_index_js_bundle_rule
rule_of ys1000_frontend_index_js_bundle = frontend_index_js_bundle_rule
rule_of js_bundle = js_bundle_rule
rule_of kubekey_asset_js = kubekey_asset_js_rule
rule_of named_proxy_html = named_proxy_html_rule
rule_of ys1000_html = ys1000_html_rule

abbrev pub root_of : RewriteProfile → Bytes
root_of console_v3 = bytes "/extensions-static/"
root_of frontend_index_js_bundle = bytes "/jsbundles/"
root_of ys1000_frontend_index_js_bundle = bytes "/jsbundles/"
root_of js_bundle = bytes "/jsbundles/"
root_of _ = bytes "/proxy/"

abbrev pub middle_of : RewriteProfile → Bytes
middle_of console_v3 = bytes "/dist/v3dist/"
middle_of frontend_index_js_bundle = bytes "/dist/"
middle_of ys1000_frontend_index_js_bundle = bytes "/dist/"
middle_of js_bundle = bytes "/dist/"
middle_of _ = bytes "/"

-- The profiles that `enabledExtensions` and `disabledExtensions` control.
abbrev pub is_controlled : RewriteProfile → Bool
is_controlled kubekey_asset_js = false
is_controlled named_proxy_html = false
is_controlled ys1000_html = false
is_controlled _ = true

pub record SelectedPath (policy : RewritePolicy) (path : Bytes) (profile : RewriteProfile)
    (extension : Bytes) : Type 0 where
  pub asset : Bytes
  pub below_root :
      path ≡ policy.base_path ++ (root_of profile ++ (extension ++ (middle_of profile ++ asset)))
  pub rule_on : is_rule_enabled policy (rule_of profile) ≡ true
  pub extension_on : (not (is_controlled profile) || is_extension_enabled policy extension) ≡ true

-- A path that is taken apart is its parts again.
path_of_parts :
    (base root needle path rest before after : Bytes)
    → strip_prefix (base ++ root) path ≡ some rest
    → split_once needle rest ≡ some (before, after)
    → path ≡ base ++ (root ++ (before ++ (needle ++ after)))
path_of_parts base root needle path rest before after e f =
    strip_prefix-append (base ++ root) path rest e
    ∙ append_assoc base root rest
    ∙ ap (λ (xs : Bytes). base ++ (root ++ xs)) (split_once-append needle rest before after f)

module _ (policy : RewritePolicy) where
  -- What each branch knows of its profile.
  unfoldable pub Belongs : RewriteProfile → Bytes → Bytes → Bool → Type 0
  Belongs profile root middle controlled =
      (is_rule_enabled policy (rule_of profile) ≡ true)
      × (root_of profile ≡ root)
      × (middle_of profile ≡ middle)
      × (is_controlled profile ≡ controlled)

  pub proxy_profile-rule :
      (name asset_path : Bytes) (profile : RewriteProfile)
      → proxy_profile policy name asset_path ≡ some profile
      → Belongs profile (bytes "/proxy/") (bytes "/") false
  unfolding proxy_profile Belongs
  proxy_profile-rule name asset_path console_v3 e = absurd (ground arith)
  proxy_profile-rule name asset_path kubekey_asset_js e = (ground arith, refl, refl, refl)
  proxy_profile-rule name asset_path named_proxy_html e = (ground arith, refl, refl, refl)
  proxy_profile-rule name asset_path ys1000_html e = (ground arith, refl, refl, refl)
  proxy_profile-rule name asset_path frontend_index_js_bundle e = absurd (ground arith)
  proxy_profile-rule name asset_path ys1000_frontend_index_js_bundle e = absurd (ground arith)
  proxy_profile-rule name asset_path js_bundle e = absurd (ground arith)

  bundle_profile-rule :
      (extension distribution_path asset_path : Bytes) (profile : RewriteProfile)
      → bundle_profile policy extension distribution_path asset_path ≡ some profile
      → Belongs profile (bytes "/jsbundles/") (bytes "/dist/") true
  unfolding bundle_profile Belongs
  bundle_profile-rule extension distribution_path asset_path console_v3 e = absurd (ground arith)
  bundle_profile-rule extension distribution_path asset_path kubekey_asset_js e =
      absurd (ground arith)
  bundle_profile-rule extension distribution_path asset_path named_proxy_html e =
      absurd (ground arith)
  bundle_profile-rule extension distribution_path asset_path ys1000_html e = absurd (ground arith)
  bundle_profile-rule extension distribution_path asset_path frontend_index_js_bundle e =
      (ground arith, refl, refl, refl)
  bundle_profile-rule extension distribution_path asset_path ys1000_frontend_index_js_bundle e =
      (ground arith, refl, refl, refl)
  bundle_profile-rule extension distribution_path asset_path js_bundle e =
      (ground arith, refl, refl, refl)

  -- A branch's parts make a selected path.
  pub Belongs-SelectedPath :
      (path : Bytes) (profile : RewriteProfile) (root middle extension asset : Bytes)
      (controlled : Bool)
      → Belongs profile root middle controlled
      → path ≡ policy.base_path ++ (root ++ (extension ++ (middle ++ asset)))
      → (not controlled || is_extension_enabled policy extension) ≡ true
      → SelectedPath policy path profile extension
  unfolding Belongs
  Belongs-SelectedPath path profile root middle extension asset controlled (on, r, m, c) e enabled =
      record {
        asset = asset;
        below_root =
            e
            ∙ ap (λ (x : Bytes). policy.base_path ++ (x ++ (extension ++ (middle ++ asset))))
                (sym r)
            ∙ ap
                (λ (y : Bytes).
                  policy.base_path ++ (root_of profile ++ (extension ++ (y ++ asset))))
                (sym m);
        rule_on = on;
        extension_on = ground (arith, c, enabled);
      }

  pub proxy_request-parts :
      (path name asset_path : Bytes)
      → proxy_request policy path ≡ some (name, asset_path)
      → path ≡ policy.base_path ++ (bytes "/proxy/" ++ (name ++ (bytes "/" ++ asset_path)))
  unfolding proxy_request
  proxy_request-parts path name asset_path e =
      elim (Option-cases (strip_prefix (policy.base_path ++ bytes "/proxy/") path)) [
        | inl missing ↦ absurd (ground arith)
        | inr (rest, below) ↦ elim (Option-cases (split_once (bytes "/") rest)) [
          | inl missing ↦ absurd (ground arith)
          | inr ((before, after), split) ↦ elim (Bool-cases (is_empty before)) [
            | inl holds ↦ absurd (ground arith)
            | inr fails ↦ ground (
              arith,
              path_of_parts policy.base_path (bytes "/proxy/") (bytes "/") path rest before after
                  below split,
            )
          ]
        ]
      ]

  bundle_of-rule :
      (extension distribution_path name : Bytes) (profile : RewriteProfile)
      → bundle_of policy extension distribution_path ≡ some (name, profile)
      → (name ≡ extension)
        × (is_extension_enabled policy extension ≡ true)
        × Belongs profile (bytes "/jsbundles/") (bytes "/dist/") true
  unfolding bundle_of is_bundle_asset
  bundle_of-rule extension distribution_path name profile e =
      elim (Option-cases (jsbundle_asset_path extension distribution_path)) [
        | inl missing ↦ absurd (ground arith)
        | inr (asset_path, found) ↦
            elim (Option-cases (bundle_profile policy extension distribution_path asset_path)) [
              | inl missing ↦ absurd (ground arith)
              | inr (profile', chosen) ↦ (
                ground arith,
                ground arith,
                bundle_profile-rule extension distribution_path asset_path profile (ground arith),
              )
            ]
      ]

  pub bundle_request-SelectedPath :
      (path extension : Bytes) (profile : RewriteProfile)
      → bundle_request policy path ≡ some (extension, profile)
      → SelectedPath policy path profile extension
  unfolding bundle_request
  bundle_request-SelectedPath path extension profile e =
      elim (Option-cases (strip_prefix (policy.base_path ++ bytes "/jsbundles/") path)) [
        | inl missing ↦ absurd (ground arith)
        | inr (rest, below) ↦ elim (Option-cases (split_once (bytes "/dist/") rest)) [
          | inl missing ↦ absurd (ground arith)
          | inr ((before, after), split) ↦
              let (same, enabled, belongs) =
                bundle_of-rule before after extension profile (ground arith) in
              Belongs-SelectedPath path profile (bytes "/jsbundles/") (bytes "/dist/") extension
                after true belongs
                (ground (
                  arith,
                  path_of_parts policy.base_path (bytes "/jsbundles/") (bytes "/dist/") path rest
                      before after below split,
                ))
                (ground arith)
        ]
      ]

  pub static_request-SelectedPath :
      (path extension : Bytes)
      → static_request policy path ≡ some extension
      → SelectedPath policy path console_v3 extension
  unfolding static_request is_static_asset Belongs
  static_request-SelectedPath path extension e =
      elim (Option-cases (strip_prefix (policy.base_path ++ bytes "/extensions-static/") path)) [
        | inl missing ↦ absurd (ground arith)
        | inr (rest, below) ↦ elim (Option-cases (split_once (bytes "/dist/v3dist/") rest)) [
          | inl missing ↦ absurd (ground arith)
          | inr ((before, after), split) ↦ elim (Bool-cases (is_static_asset policy before after)) [
            | inl holds ↦
                Belongs-SelectedPath path console_v3 (bytes "/extensions-static/")
                  (bytes "/dist/v3dist/") extension after true (ground arith, refl, refl, refl)
                  (ground (
                    arith,
                    path_of_parts policy.base_path (bytes "/extensions-static/")
                        (bytes "/dist/v3dist/") path rest before after below split,
                  ))
                  (ground arith)
            | inr fails ↦ absurd (ground arith)
          ]
        ]
      ]
