-- ===== src/Tests/Parsers.antt =====
-- Functions that meet the interfaces of the configuration's parsers.
use kse_static_rewrite_proxy.Base.{
  ℕ, zero, suc, ◌+◌, ◌-◌, ◌*◌, ◌/◌, ◌%◌, ◌<◌, true, false, ◌&&◌, [], ◌∷◌, ◌++◌, ◌≡◌, ◌≢◌, refl, ap,
  ◌∙◌, Option, none, some, ◌==◌, ltb, leb, if◌then◌else◌, arith, drop, Bool-cases, inl, inr,
}
use kse_static_rewrite_proxy.Slice.{Bytes, bytes, equal, starts_with}
use kse_static_rewrite_proxy.Config.Percent.{PercentDecode, is_ascii_hexdigit}
use kse_static_rewrite_proxy.Config.BasePath.{Join}
use kse_static_rewrite_proxy.Config.Listeners.{
  SocketAddr, v4, localhost_v4, digits, decimal, SocketParser, Url, UrlParser,
}
use kse_static_rewrite_proxy.Config.Extensions.Claims.{AreKeysDistinct}
use kse_static_rewrite_proxy.Config.{Keys, Parsers, with_defaults}

abbrev hex_value : ℕ → ℕ
hex_value b = if leb b b'9' then b - b'0' else if leb b b'F' then b - 55 else b - 87

unfoldable pub decode : Bytes → Bytes
decode [] = []
decode (c ∷ []) = c ∷ []
decode (c ∷ (a ∷ [])) = c ∷ (a ∷ [])
decode (c ∷ (a ∷ (b ∷ cs))) =
    let escaped = (hex_value a * 16 + hex_value b) ∷ decode cs in
    let plain = c ∷ decode (a ∷ (b ∷ cs)) in
    if c == b'%' && (is_ascii_hexdigit a && is_ascii_hexdigit b) then escaped else plain

pub decode-byte : (c : ℕ) (cs : Bytes) → (c == b'%') ≡ false → decode (c ∷ cs) ≡ c ∷ decode cs
unfolding decode
decode-byte c [] h = refl
decode-byte c (a ∷ []) h = refl
decode-byte c (a ∷ (b ∷ cs)) h = rw h refl

pub decode-escape :
    (a b : ℕ) (cs : Bytes)
    → (is_ascii_hexdigit a && is_ascii_hexdigit b) ≡ true
    → (n : ℕ) × (decode (b'%' ∷ (a ∷ (b ∷ cs))) ≡ n ∷ decode cs)
unfolding decode
decode-escape a b cs h = (hex_value a * 16 + hex_value b, rw h refl)

pub decode-nil : decode [] ≡ []
unfolding decode
decode-nil = refl

abbrev pub plain_percent : PercentDecode
plain_percent = record {
  percent_decode = decode;
  decode_nil = decode-nil;
  decode_byte = decode-byte;
  decode_escape = decode-escape;
}

-- The number that decimal digits make, from the first on.
unfoldable pub value_from : ℕ → Bytes → ℕ
value_from n [] = n
value_from n (d ∷ ds) = value_from (n * 10 + (d - b'0')) ds

value_from-append :
    (n d : ℕ) (xs : Bytes) → value_from n (xs ++ (d ∷ [])) ≡ value_from n xs * 10 + (d - b'0')
unfolding value_from
value_from-append n d [] = refl
value_from-append n d (x ∷ xs) = value_from-append (n * 10 + (x - b'0')) d xs

abbrev ten_to : ℕ → ℕ
ten_to zero = 1
ten_to (suc k) = 10 * ten_to k

value-digits : (fuel n : ℕ) → n < ten_to fuel → value_from 0 (digits fuel n) ≡ n
unfolding digits value_from
value-digits zero n l = omega arith
value-digits (suc fuel) n l = elim (Bool-cases (ltb n 10)) [
  | inl small ↦ rw small (omega arith)
  | inr large ↦ rw large (
      value_from-append 0 (n % 10 + b'0') (digits fuel (n / 10))
      ∙ omega (arith, value-digits fuel (n / 10) (omega arith)))
]

-- IPv4 addresses `127.0.0.1` and `0.0.0.0` only.
unfoldable pub parse_socket : Bytes → Option SocketAddr
unfolding value_from
parse_socket text =
    if starts_with (bytes "127.0.0.1:") text
    then some (record { ip = localhost_v4; port = value_from 0 (drop 10 text) })
    else if starts_with (bytes "0.0.0.0:") text
    then some (record { ip = v4 0; port = value_from 0 (drop 8 text) })
    else none

pub parse_socket-v4 :
    (port : ℕ)
    → port < 65536
    → parse_socket (bytes "127.0.0.1:" ++ decimal port)
      ≡ some (record { ip = localhost_v4; port = port })
unfolding parse_socket starts_with
parse_socket-v4 port l =
    ap (λ (n : ℕ). some (record { ip = localhost_v4; port = n }))
      (value-digits 5 port (omega arith))

abbrev pub plain_sockets : SocketParser
plain_sockets = record { parse = parse_socket; parse_v4 = parse_socket-v4 }

abbrev local_url : Url
local_url = record {
  scheme = bytes "http";
  username = [];
  password = none;
  query = none;
  fragment = none;
  path = bytes "/";
  host_str = some (bytes "127.0.0.1");
  port = some 8000;
}

-- One URL.
unfoldable pub parse_url : Bytes → Option Url
parse_url text = if equal text (bytes "http://127.0.0.1:8000") then some local_url else none

parse_url-local : (text : Bytes) (url : Url) → parse_url text ≡ some url → local_url ≡ url
unfolding parse_url
parse_url-local text url h = ground arith

pub parse_url-bracketed :
    (text : Bytes) (url : Url) → parse_url text ≡ some url → url.host_str ≢ some (bytes "::1")
parse_url-bracketed text url h = rw (← parse_url-local text url h) (λ e. cc)

pub parse_url-no_default :
    (text : Bytes) (url : Url)
    → parse_url text ≡ some url
    → equal url.scheme (bytes "http") ≡ true
    → url.port ≢ some 80
parse_url-no_default text url h _ = rw (← parse_url-local text url h) (λ e. ground arith)

pub parse_url-range :
    (text : Bytes) (url : Url) (n : ℕ) → parse_url text ≡ some url → url.port ≡ some n → n < 65536
parse_url-range text url n h e =
    let e' : some 8000 ≡ some n = ap (λ (u : Url). u.port) (parse_url-local text url h) ∙ e in
    ground arith

abbrev pub plain_urls : UrlParser
plain_urls = record {
  parse = parse_url;
  bracketed = parse_url-bracketed;
  no_default = parse_url-no_default;
  port_range = parse_url-range;
}

abbrev pub keys : Keys
keys = record {
  base_path = some (bytes "/regions/a%20b/");
  listen = bytes "0.0.0.0:8080";
  admin_listen = none;
  upstream = bytes "http://127.0.0.1:8000";
  rewrite = some (record {
    enabled_extensions = some (bytes "demo" ∷ bytes "other" ∷ []);
    disabled_extensions = none;
    rules = some ((2, false) ∷ (5, true) ∷ []);
    max_decoded_bytes = none;
    max_concurrent = some 2;
    max_queued = none;
  });
}

abbrev pub plain_join : Join
plain_join path = some (true, path)

pub keys-distinct :
    (read : Keys)
    → ◌≡◌ {A = Option Keys} (some keys) (some read)
    → AreKeysDistinct (with_defaults read.rewrite).rules
unfolding with_defaults
keys-distinct read h = let same : keys ≡ read = ground arith in rw (← same) (refl, (refl, tt))

-- Every text has these keys.
abbrev pub parsers : Parsers
parsers = record {
  from_str = λ _. some keys;
  distinct = λ _ read h. keys-distinct read h;
  percent = plain_percent;
  join = plain_join;
  sockets = plain_sockets;
  urls = plain_urls;
}
