-- ===== src/Tests/ConfigRuns.antt =====
-- The configuration at concrete keys.
use kse_static_rewrite_proxy.Config.Percent.Rounds.{decode_repeatedly-enough}
use kse_static_rewrite_proxy.Base.{
  ◌<◌, ◌≤◌, Bool, arith, ℕ, true, false, List, [], ◌∷◌, ◌≡◌, ◌↔◌, ◌⊎◌, ◌≢◌, refl, some,
}
use kse_static_rewrite_proxy.Slice.{bytes, equal, starts_with}
use kse_static_rewrite_proxy.Slice.Text.{any, contains, trim_end_matches}
use kse_static_rewrite_proxy.Slice.Split.{split}
use kse_static_rewrite_proxy.Policy.{
  contains_rule, ys1000_html_rule, console_v3_rule, kubekey_asset_js_rule, named_proxy_html_rule,
  frontend_index_js_bundle_rule, js_bundle_rule, number, try_from, find_rule,
  is_safe_extension_name, all_name_bytes, is_ascii_alphanumeric,
}
use kse_static_rewrite_proxy.Utf8.{from_utf8, check_from, first_byte, next_byte}
use kse_static_rewrite_proxy.Literal.Contract.{is_utf8}
use kse_static_rewrite_proxy.Config.Error.{ok, err, invalid_base_path, fail_if, ok_or}
use kse_static_rewrite_proxy.Config.BasePath.{
  normalize_base_path, normalize_rooted, char_count, is_forbidden_wide,
  contains_forbidden_character, has_dot_segment, contains_text,
}
use kse_static_rewrite_proxy.Config.BasePath.Claims.{IsBasePath, normalize-IsBasePath}
use kse_static_rewrite_proxy.Config.Percent.{
  decode_repeatedly, decode_rounds, decode_utf8, validate_percent_encoding, is_percent_encoded,
  is_ascii_hexdigit,
}
use kse_static_rewrite_proxy.Config.Listeners.{
  localhost_v4, v4, parse_upstream, upstream_address, socket_addrs_overlap, digits,
}
use kse_static_rewrite_proxy.Config.Listeners.Claims.{parse_upstream_lem}
use kse_static_rewrite_proxy.Config.Extensions.{
  validate_explicit_extensions, validate_unseen, switch_rules, insert_rule, remove_rule,
}
use kse_static_rewrite_proxy.Config.Extensions.Claims.{
  AreSafe, AreDistinct, validate_explicit_extensions_iff, switched, lookup, switch_rules-lookup,
}
use kse_static_rewrite_proxy.Config.{
  EffectiveConfig, Keys, from_yaml, parse_addresses, with_defaults, validate_limits,
  validate_enabled,
}
use kse_static_rewrite_proxy.Config.Claims.{IsEffective, from_yaml-IsEffective}
use kse_static_rewrite_proxy.Tests.Parsers.{
  parsers, plain_percent, plain_sockets, plain_urls, plain_join, keys, decode, value_from,
  parse_socket, parse_url,
}

abbrev config : EffectiveConfig
config = record {
  base_path = bytes "/regions/a%20b";
  listen = record { ip = v4 0; port = 8080 };
  admin_listen = record { ip = v4 0; port = 9090 };
  upstream = record { ip = localhost_v4; port = 8000 };
  enabled_extensions = bytes "demo" ∷ bytes "other" ∷ [];
  disabled_extensions = [];
  enabled_rules =
      console_v3_rule ∷ frontend_index_js_bundle_rule ∷ named_proxy_html_rule ∷ ys1000_html_rule
      ∷ kubekey_asset_js_rule ∷ [];
  max_decoded_bytes = 20971520;
  max_concurrent = 2;
  max_queued = 32;
}

configured : Unit {0}
unfolding from_yaml normalize_base_path normalize_rooted char_count is_forbidden_wide
    contains_forbidden_character split has_dot_segment contains_text validate_percent_encoding
    is_percent_encoded is_ascii_hexdigit decode_repeatedly decode_rounds decode_utf8 decode equal
    starts_with any trim_end_matches fail_if ok_or parse_addresses parse_socket value_from
    parse_upstream upstream_address parse_url digits socket_addrs_overlap with_defaults
    validate_limits validate_enabled contains validate_explicit_extensions validate_unseen
    is_safe_extension_name all_name_bytes is_ascii_alphanumeric switch_rules try_from find_rule
    number insert_rule remove_rule contains_rule is_utf8 from_utf8 check_from first_byte next_byte
configured = tt

run_base_path :
    normalize_base_path plain_percent plain_join (bytes "/regions/a%20b/")
    ≡ ok (bytes "/regions/a%20b")
unfolding configured
run_base_path = refl

run_addresses :
    parse_addresses parsers keys
    ≡ ok (
        (
          record { ip = v4 0; port = 8080 },
          record { ip = v4 0; port = 9090 },
          record { ip = localhost_v4; port = 8000 },
        ))
unfolding configured
run_addresses = refl

run_normalize :
    normalize_base_path plain_percent plain_join (bytes "/a/../b")
    ≡ err (invalid_base_path (bytes "contains unsafe encoded characters or path segments"))
unfolding configured
run_normalize = refl

run_encoded :
    normalize_base_path plain_percent plain_join (bytes "/a/%252E%252e/b")
    ≡ err (invalid_base_path (bytes "contains unsafe encoded characters or path segments"))
unfolding configured
run_encoded = refl

run_from_yaml : from_yaml parsers [] ≡ ok config
unfolding configured
run_from_yaml = refl

from_yaml-IsEffective_example :
    (read : Keys) × (parsers.from_str [] ≡ some read) × IsEffective parsers read config
from_yaml-IsEffective_example = from_yaml-IsEffective parsers [] config run_from_yaml

normalize-IsBasePath_example :
    (bytes "/regions/a%20b" ≡ [])
    ⊎ IsBasePath plain_percent (bytes "/regions/a%20b/") (bytes "/regions/a%20b")
normalize-IsBasePath_example =
    normalize-IsBasePath plain_percent plain_join (bytes "/regions/a%20b/") (bytes "/regions/a%20b")
      run_base_path

validate_explicit_extensions_iff_example :
    (validate_explicit_extensions (bytes "f") (bytes "demo" ∷ bytes "other" ∷ []) ≡ ok tt) ↔ (
      AreSafe (bytes "demo" ∷ bytes "other" ∷ []) × AreDistinct (bytes "demo" ∷ bytes "other" ∷ []))
validate_explicit_extensions_iff_example =
    validate_explicit_extensions_iff (bytes "f") (bytes "demo" ∷ bytes "other" ∷ [])

run_upstream :
    parse_upstream plain_sockets plain_urls (bytes "http://127.0.0.1:8000")
    ≡ ok (record { ip = localhost_v4; port = 8000 })
unfolding configured
run_upstream = refl

parse_upstream_lem_example : (localhost_v4 ≡ localhost_v4) × (8000 < 65536) × ◌≢◌ {A = ℕ} 8000 80
parse_upstream_lem_example =
    parse_upstream_lem plain_sockets plain_urls (bytes "http://127.0.0.1:8000")
      (record { ip = localhost_v4; port = 8000 }) run_upstream

abbrev switches : List (ℕ × Bool)
switches = (2, false) ∷ (5, true) ∷ []

run_switches :
    switch_rules switches (ys1000_html_rule ∷ js_bundle_rule ∷ []) ≡ ok (ys1000_html_rule ∷ [])
unfolding configured
run_switches = refl

switch_rules-lookup_example :
    contains_rule (ys1000_html_rule ∷ []) js_bundle_rule
    ≡ switched
        (contains_rule (ys1000_html_rule ∷ js_bundle_rule ∷ []) js_bundle_rule)
        (lookup (number js_bundle_rule) switches)
switch_rules-lookup_example =
    switch_rules-lookup switches (ys1000_html_rule ∷ js_bundle_rule ∷ []) (ys1000_html_rule ∷ [])
      js_bundle_rule (refl, (refl, tt)) run_switches

run_utf8 : (is_utf8 (bytes "/a%2541") ≡ true) × (char_count (bytes "/a%2541") ≤ 1024)
unfolding configured
run_utf8 = (refl, ground arith)

decode_repeatedly-enough_example :
    decode_rounds plain_percent 2000 (bytes "/a%2541")
    ≡ decode_repeatedly plain_percent (bytes "/a%2541")
decode_repeatedly-enough_example =
    decode_repeatedly-enough plain_percent (bytes "/a%2541") 2000 run_utf8.0 run_utf8.1
      (omega arith)
