-- ===== src/Config/Claims.antt =====
-- What a configuration that `from_yaml` accepted guarantees to the proxy.
use kse_static_rewrite_proxy.Base.{
  ◌<◌, Bool, true, List, [], ◌∷◌, ◌≡◌, ◌≢◌, ◌⊎◌, inl, inr, refl, ap, ◌∙◌, some, arith, Bool-cases,
  length,
}
use kse_static_rewrite_proxy.Slice.{Bytes, bytes}
use kse_static_rewrite_proxy.Slice.Prefix.{equal→eq}
use kse_static_rewrite_proxy.Slice.Text.{contains}
use kse_static_rewrite_proxy.Policy.{
  console_v3_rule, js_bundle_rule, frontend_index_js_bundle_rule, named_proxy_html_rule,
  ys1000_html_rule, kubekey_asset_js_rule, RewriteRule, number, all_rules, contains_rule,
  is_rule_enabled, new_with_rules, from_matcher,
}
use kse_static_rewrite_proxy.Config.Error.{ok, fail_if, bind-ok, fail_if-ok, ok_or-ok}
use kse_static_rewrite_proxy.Config.BasePath.{normalize_base_path}
use kse_static_rewrite_proxy.Config.BasePath.Claims.{IsBasePath, normalize-IsBasePath}
use kse_static_rewrite_proxy.Config.Listeners.{SocketAddr, localhost_v4, parse_upstream}
use kse_static_rewrite_proxy.Config.Listeners.Claims.{
  AreApart, overlap-AreApart, parse_upstream_lem,
}
use kse_static_rewrite_proxy.Config.Extensions.{validate_explicit_extensions, switch_rules}
use kse_static_rewrite_proxy.Config.Extensions.Claims.{
  AreSafe, AreDistinct, validate_explicit_extensions_iff, lookup, switched, switch_rules-lookup,
}
use kse_static_rewrite_proxy.Config.{
  EffectiveConfig, RawRewriteConfig, Keys, get_or, default_admin_listen, with_defaults, Parsers,
  validate_enabled, validate_limits, parse_addresses, assembled, from_yaml, rewrite_policy,
}

-- The wildcard alone, or safe names with none twice.
abbrev pub AreEnabled : List Bytes → Type 0
AreEnabled extensions =
    (extensions ≡ bytes "*" ∷ []) ⊎ (AreSafe extensions × AreDistinct extensions)

pub record IsEffective (parsers : Parsers) (keys : Keys) (config : EffectiveConfig) : Type 0 where
  pub based :
      (config.base_path ≡ [])
      ⊎ IsBasePath parsers.percent (get_or keys.base_path []) config.base_path
  pub local : (config.upstream.ip ≡ localhost_v4) × (config.upstream.port ≢ 80)
  pub listeners_apart : AreApart config.listen config.admin_listen
  pub upstream_apart :
      AreApart config.listen config.upstream × AreApart config.admin_listen config.upstream
  pub some_bytes : 0 < config.max_decoded_bytes
  pub some_active : 0 < config.max_concurrent
  pub enabled : AreEnabled config.enabled_extensions
  pub disabled : AreSafe config.disabled_extensions × AreDistinct config.disabled_extensions
  pub rules :
      (rule : RewriteRule)
      → is_rule_enabled (rewrite_policy config) rule
        ≡ switched true (lookup (number rule) (with_defaults keys.rewrite).rules)

contains_one :
    (xs : List Bytes) (key : Bytes) → contains xs key ≡ true → length xs ≡ 1 → xs ≡ key ∷ []
unfolding contains
contains_one [] key h l = cc
contains_one (x ∷ []) key h l = ap (λ (y : Bytes). y ∷ []) (equal→eq x key (ground arith))
contains_one (x ∷ (y ∷ ys)) key h l = absurd (omega arith)

validate_enabled-AreEnabled :
    (extensions : List Bytes) → validate_enabled extensions ≡ ok tt → AreEnabled extensions
unfolding validate_enabled fail_if
validate_enabled-AreEnabled extensions h = elim (Bool-cases (contains extensions (bytes "*"))) [
  | inl wildcard ↦ inl (contains_one extensions (bytes "*") wildcard (ground arith))
  | inr explicit ↦ inr (
      (validate_explicit_extensions_iff (bytes "enabledExtensions") extensions).0
        (rw explicit at h))
]

validate_limits-positive :
    (rewrite : RawRewriteConfig)
    → validate_limits rewrite ≡ ok tt
    → (0 < rewrite.max_decoded_bytes) × (0 < rewrite.max_concurrent)
unfolding validate_limits fail_if
validate_limits-positive rewrite h = ground arith

contains-all_rules : (rule : RewriteRule) → contains_rule all_rules rule ≡ true
unfolding contains_rule number
contains-all_rules console_v3_rule = refl
contains-all_rules js_bundle_rule = refl
contains-all_rules frontend_index_js_bundle_rule = refl
contains-all_rules named_proxy_html_rule = refl
contains-all_rules ys1000_html_rule = refl
contains-all_rules kubekey_asset_js_rule = refl

is_rule_enabled-policy :
    (config : EffectiveConfig) (rule : RewriteRule)
    → is_rule_enabled (rewrite_policy config) rule ≡ contains_rule config.enabled_rules rule
unfolding is_rule_enabled rewrite_policy new_with_rules from_matcher
is_rule_enabled-policy config rule = refl

module _ (parsers : Parsers) where
  -- What the three addresses have to do with one another.
  abbrev Addresses : SocketAddr × SocketAddr × SocketAddr → Type 0
  Addresses (listen, admin_listen, upstream) =
      AreApart listen admin_listen
      × AreApart listen upstream
      × AreApart admin_listen upstream
      × (upstream.ip ≡ localhost_v4)
      × (upstream.port ≢ 80)

  parse_addresses-Addresses :
      (raw : Keys) (addresses : SocketAddr × SocketAddr × SocketAddr)
      → parse_addresses parsers raw ≡ ok addresses
      → Addresses addresses
  unfolding parse_addresses
  parse_addresses-Addresses raw addresses h =
      let (a, listens, h1) = ok_or-ok (parsers.sockets.parse raw.listen) _ _ h in
      let (b, admins, h2) =
        ok_or-ok (parsers.sockets.parse (get_or raw.admin_listen default_admin_listen)) _ _ h1 in
      let (apart, h3) = fail_if-ok _ _ _ h2 in
      let (u, upstreams, h4) =
        bind-ok (parse_upstream parsers.sockets parsers.urls raw.upstream) _ h3 in
      let (apart_a, h5) = fail_if-ok _ _ _ h4 in
      let (apart_b, h6) = fail_if-ok _ _ _ h5 in
      let (ip, range, port) =
        parse_upstream_lem parsers.sockets parsers.urls raw.upstream u upstreams in
      let same : (a, b, u) ≡ addresses = ground arith in
      rw (← same) (
        overlap-AreApart a b apart,
        overlap-AreApart a u apart_a,
        overlap-AreApart b u apart_b,
        ip,
        port,
      )

  -- For any text and any parsers that keep their documented laws: a configuration that is accepted
  -- comes from keys that the parser read, and with these keys its base path is empty or safe, its
  -- upstream is on 127.0.0.1 and not on port 80, no two of its addresses overlap, its limits on bytes
  -- and active rewrites are positive, its extensions are the wildcard alone or safe names with none
  -- twice, its disabled extensions are safe names with none twice, and its policy has a rule enabled
  -- exactly if no switch turns it off.
  pub from_yaml-IsEffective :
      (input : Bytes) (config : EffectiveConfig)
      → from_yaml parsers input ≡ ok config
      → (keys : Keys) × (parsers.from_str input ≡ some keys) × IsEffective parsers keys config
  unfolding from_yaml
  from_yaml-IsEffective input config h =
      let (raw, read, h1) = ok_or-ok (parsers.from_str input) _ _ h in
      let rewrite = with_defaults raw.rewrite in
      let (path, normalized, h2) =
        bind-ok (normalize_base_path parsers.percent parsers.join (get_or raw.base_path [])) _ h1 in
      let (addresses, addressed, h3) = bind-ok (parse_addresses parsers raw) _ h2 in
      let (u1, limits, h4) = bind-ok (validate_limits rewrite) _ h3 in
      let (u2, enabled, h5) = bind-ok (validate_enabled rewrite.enabled_extensions) _ h4 in
      let (u3, disabled, h6) =
        bind-ok
          (validate_explicit_extensions (bytes "disabledExtensions") rewrite.disabled_extensions) _
          h5 in
      let (rules, switches, h7) = bind-ok (switch_rules rewrite.rules all_rules) _ h6 in
      let (apart, apart_a, apart_b, ip, port) = parse_addresses-Addresses raw addresses addressed in
      let (some_bytes, some_active) = validate_limits-positive rewrite limits in
      let same : assembled path addresses rewrite rules ≡ config = ground arith in
      (
        raw,
        read,
        rw (← same) (record {
          based =
              normalize-IsBasePath parsers.percent parsers.join (get_or raw.base_path []) path
                normalized;
          local = (ip, port);
          listeners_apart = apart;
          upstream_apart = (apart_a, apart_b);
          some_bytes = some_bytes;
          some_active = some_active;
          enabled = validate_enabled-AreEnabled rewrite.enabled_extensions enabled;
          disabled =
              (validate_explicit_extensions_iff (bytes "disabledExtensions")
                  rewrite.disabled_extensions).0
                disabled;
          rules = λ rule.
              is_rule_enabled-policy (assembled path addresses rewrite rules) rule
              ∙ switch_rules-lookup rewrite.rules all_rules rules rule
                  (parsers.distinct input raw read) switches
              ∙ ap (λ (b : Bool). switched b (lookup (number rule) rewrite.rules))
                  (contains-all_rules rule);
        }),
      )
