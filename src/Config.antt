-- ===== src/Config.antt =====
-- src/config.rs: `EffectiveConfig` and `from_yaml`, with the crate yaml_serde as an interface: it
-- gives what the text has at the known keys, and the defaults are filled in here.
pub mod Error
pub mod Percent
pub mod BasePath
pub mod Listeners
pub mod Extensions
pub mod Claims
use kse_static_rewrite_proxy.Base.{
  ℕ, ◌*◌, Bool, true, false, not, ◌&&◌, ◌||◌, ◌≡◌, List, [], ◌∷◌, Option, none, some, ◌==◌,
  if◌then◌else◌, length,
}
use kse_static_rewrite_proxy.Slice.{Bytes, bytes, equal}
use kse_static_rewrite_proxy.Slice.Text.{contains}
use kse_static_rewrite_proxy.Policy.{RewriteRule, RewritePolicy, all_rules, new_with_rules}
use Error.{
  Result, ok, err, invalid_yaml, invalid_listen, invalid_admin_listen, conflicting_listeners,
  listener_overlaps_upstream, wildcard_with_extensions, non_positive_limit, ◌>>◌, ◌>>=◌, fail_if,
  ok_or,
}
use Percent.{PercentDecode}
use BasePath.{Join, normalize_base_path}
use Listeners.{SocketAddr, SocketParser, UrlParser, socket_addrs_overlap, parse_upstream}
use Extensions.Claims.{AreKeysDistinct}
use Extensions.{validate_explicit_extensions, switch_rules}

pub record EffectiveConfig : Type 0 where
  pub base_path : Bytes
  pub listen : SocketAddr
  pub admin_listen : SocketAddr
  pub upstream : SocketAddr
  pub enabled_extensions : List Bytes
  pub disabled_extensions : List Bytes
  pub enabled_rules : List RewriteRule
  pub max_decoded_bytes : ℕ
  pub max_concurrent : ℕ
  pub max_queued : ℕ

-- `RawRewriteConfig`, before and behind the defaults.
pub record RewriteKeys : Type 0 where
  pub enabled_extensions : Option (List Bytes)
  pub disabled_extensions : Option (List Bytes)
  pub rules : Option (List (ℕ × Bool))
  pub max_decoded_bytes : Option ℕ
  pub max_concurrent : Option ℕ
  pub max_queued : Option ℕ

pub record RawRewriteConfig : Type 0 where
  pub enabled_extensions : List Bytes
  pub disabled_extensions : List Bytes
  pub rules : List (ℕ × Bool)
  pub max_decoded_bytes : ℕ
  pub max_concurrent : ℕ
  pub max_queued : ℕ

-- `client.basePath`, and `RawSidecarConfig`.
pub record Keys : Type 0 where
  pub base_path : Option Bytes
  pub listen : Bytes
  pub admin_listen : Option Bytes
  pub upstream : Bytes
  pub rewrite : Option RewriteKeys

abbrev pub get_or : {A : Type 0} → Option A → A → A
get_or none default = default
get_or (some a) default = a

abbrev pub default_rewrite : RawRewriteConfig
default_rewrite = record {
  enabled_extensions = [];
  disabled_extensions = [];
  rules = [];
  max_decoded_bytes = 20 * 1024 * 1024;
  max_concurrent = 4;
  max_queued = 32;
}

unfoldable pub with_defaults : Option RewriteKeys → RawRewriteConfig
with_defaults none = default_rewrite
with_defaults (some keys) = record {
  enabled_extensions = get_or keys.enabled_extensions default_rewrite.enabled_extensions;
  disabled_extensions = get_or keys.disabled_extensions default_rewrite.disabled_extensions;
  rules = get_or keys.rules default_rewrite.rules;
  max_decoded_bytes = get_or keys.max_decoded_bytes default_rewrite.max_decoded_bytes;
  max_concurrent = get_or keys.max_concurrent default_rewrite.max_concurrent;
  max_queued = get_or keys.max_queued default_rewrite.max_queued;
}

abbrev pub default_admin_listen : Bytes
default_admin_listen = bytes "0.0.0.0:9090"

-- The code that the source calls and does not hold: `yaml_serde::from_str` for the known keys (it
-- refuses an unknown one), and the parsers of paths, addresses and URLs.
pub record Parsers : Type 0 where
  pub from_str : Bytes → Option Keys
  -- A `HashMap` has no key twice.
  pub distinct :
      (input : Bytes) (keys : Keys)
      → from_str input ≡ some keys
      → AreKeysDistinct (with_defaults keys.rewrite).rules
  pub percent : PercentDecode
  pub join : Join
  pub sockets : SocketParser
  pub urls : UrlParser

-- The wildcard stands alone, or all names are explicit.
unfoldable pub validate_enabled : List Bytes → Result (Unit {0})
validate_enabled extensions =
    if contains extensions (bytes "*")
    then fail_if (not (length extensions == 1)) wildcard_with_extensions
    else validate_explicit_extensions (bytes "enabledExtensions") extensions

unfoldable pub validate_limits : RawRewriteConfig → Result (Unit {0})
validate_limits rewrite = do
  fail_if (rewrite.max_decoded_bytes == 0) (non_positive_limit (bytes "maxDecodedBytes"))
  fail_if (rewrite.max_concurrent == 0) (non_positive_limit (bytes "maxConcurrent"))

-- The value at the end of `from_yaml`.
abbrev pub assembled :
    Bytes
    → SocketAddr × SocketAddr × SocketAddr
    → RawRewriteConfig
    → List RewriteRule
    → EffectiveConfig
assembled base_path (listen, admin_listen, upstream) rewrite enabled_rules = record {
  base_path = base_path;
  listen = listen;
  admin_listen = admin_listen;
  upstream = upstream;
  enabled_extensions = rewrite.enabled_extensions;
  disabled_extensions = rewrite.disabled_extensions;
  enabled_rules = enabled_rules;
  max_decoded_bytes = rewrite.max_decoded_bytes;
  max_concurrent = rewrite.max_concurrent;
  max_queued = rewrite.max_queued;
}

module _ (parsers : Parsers) where
  -- The three addresses, which do not overlap.
  unfoldable pub parse_addresses : Keys → Result (SocketAddr × SocketAddr × SocketAddr)
  parse_addresses raw = do
    let admin_text = get_or raw.admin_listen default_admin_listen
    listen ← ok_or (parsers.sockets.parse raw.listen) (invalid_listen raw.listen)
    admin_listen ← ok_or (parsers.sockets.parse admin_text) (invalid_admin_listen admin_text)
    fail_if (socket_addrs_overlap listen admin_listen) conflicting_listeners
    upstream ← parse_upstream parsers.sockets parsers.urls raw.upstream
    fail_if (socket_addrs_overlap listen upstream) (listener_overlaps_upstream (bytes "listen"))
    fail_if (socket_addrs_overlap admin_listen upstream)
        (listener_overlaps_upstream (bytes "adminListen"))
    ok (listen, admin_listen, upstream)

  unfoldable pub from_yaml : Bytes → Result EffectiveConfig
  from_yaml input = do
    raw ← ok_or (parsers.from_str input) invalid_yaml
    base_path ← normalize_base_path parsers.percent parsers.join (get_or raw.base_path [])
    addresses ← parse_addresses raw
    let rewrite = with_defaults raw.rewrite
    validate_limits rewrite
    validate_enabled rewrite.enabled_extensions
    validate_explicit_extensions (bytes "disabledExtensions") rewrite.disabled_extensions
    enabled_rules ← switch_rules rewrite.rules all_rules
    ok (assembled base_path addresses rewrite enabled_rules)

unfoldable pub rewrite_policy : EffectiveConfig → RewritePolicy
rewrite_policy config =
    new_with_rules config.base_path config.enabled_extensions config.disabled_extensions
      config.enabled_rules
