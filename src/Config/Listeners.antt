-- ===== src/Config/Listeners.antt =====
-- src/config.rs: `socket_addrs_overlap` and `parse_upstream`, with the crate url and the parser of
-- socket addresses in Rust's standard library as interfaces.
pub mod Claims
use kse_static_rewrite_proxy.Base.{
  ℕ, zero, suc, ◌+◌, ◌/◌, ◌%◌, ◌<◌, Bool, true, false, not, ◌&&◌, ◌||◌, [], ◌∷◌, ◌++◌, ◌≡◌, ◌≢◌,
  Option, none, some, ◌==◌, ltb, if◌then◌else◌,
}
use kse_static_rewrite_proxy.Slice.{Bytes, bytes, equal}
use kse_static_rewrite_proxy.Config.Error.{
  Result, ok, err, invalid_upstream, ◌>>◌, ◌>>=◌, fail_if, ok_or,
}

-- An address as the number that its bytes make.
pub data IpAddr : Type 0 where
  v4 v6 : ℕ → IpAddr

pub record SocketAddr : Type 0 where
  pub ip : IpAddr
  pub port : ℕ

-- `Ipv4Addr::LOCALHOST` and `Ipv6Addr::LOCALHOST`.
abbrev pub localhost_v4 : IpAddr
localhost_v4 = v4 0x7F00_0001

abbrev pub localhost_v6 : IpAddr
localhost_v6 = v6 1

abbrev pub is_unspecified : IpAddr → Bool
is_unspecified (v4 n) = n == 0
is_unspecified (v6 n) = n == 0

abbrev pub same_ip : IpAddr → IpAddr → Bool
same_ip (v4 n) (v4 k) = n == k
same_ip (v6 n) (v6 k) = n == k
same_ip _ _ = false

unfoldable pub socket_addrs_overlap : SocketAddr → SocketAddr → Bool
socket_addrs_overlap first second =
    first.port == second.port
    && (is_unspecified first.ip || (is_unspecified second.ip || same_ip first.ip second.ip))

-- A `u16` in decimal: five digits at most.
unfoldable pub digits : ℕ → ℕ → Bytes
digits zero n = []
digits (suc fuel) n =
    if ltb n 10 then (n + b'0') ∷ [] else digits fuel (n / 10) ++ ((n % 10 + b'0') ∷ [])

abbrev pub decimal : ℕ → Bytes
decimal n = digits 5 n

-- `str::parse::<SocketAddr>`: an IPv4 address and a port with a colon between them, or an IPv6
-- address in brackets, a colon and a port.
pub record SocketParser : Type 0 where
  pub parse : Bytes → Option SocketAddr
  pub parse_v4 :
      (port : ℕ)
      → port < 65536
      → parse (bytes "127.0.0.1:" ++ decimal port)
        ≡ some (record { ip = localhost_v4; port = port })

-- The parts of a `Url` that the source reads.
pub record Url : Type 0 where
  pub scheme : Bytes
  pub username : Bytes
  pub password : Option Bytes
  pub query : Option Bytes
  pub fragment : Option Bytes
  pub path : Bytes
  pub host_str : Option Bytes
  pub port : Option ℕ

-- `Url::parse`. "IPv6 addresses are given between `[` and `]` brackets" by `host_str`, and `port`
-- does not return "the default port number" of the scheme; a port is a `u16`.
pub record UrlParser : Type 0 where
  pub parse : Bytes → Option Url
  pub bracketed :
      (value : Bytes) (url : Url) → parse value ≡ some url → url.host_str ≢ some (bytes "::1")
  pub no_default :
      (value : Bytes) (url : Url)
      → parse value ≡ some url
      → equal url.scheme (bytes "http") ≡ true
      → url.port ≢ some 80
  pub port_range :
      (value : Bytes) (url : Url) (n : ℕ) → parse value ≡ some url → url.port ≡ some n → n < 65536

abbrev pub is_some : {A : Type 0} → Option A → Bool
is_some none = false
is_some (some _) = true

-- `first.parse().or_else(|_| second.parse())`.
abbrev pub or_parse : Option SocketAddr → Option SocketAddr → Option SocketAddr
or_parse none second = second
or_parse (some a) second = some a

abbrev pub has_more : Url → Bool
has_more url =
    not (equal url.username [])
    || (is_some url.password
        || (is_some url.query || (is_some url.fragment || not (equal url.path (bytes "/")))))

module _ (sockets : SocketParser) (urls : UrlParser) where
  -- The address of an accepted host.
  unfoldable pub upstream_address : Bytes → ℕ → Result SocketAddr
  upstream_address host port =
      if equal host (bytes "localhost")
      then ok (record { ip = localhost_v4; port = port })
      else ok_or
          (or_parse (sockets.parse (host ++ (bytes ":" ++ decimal port)))
            (sockets.parse (bytes "[::1]:" ++ decimal port)))
          (invalid_upstream (bytes "contains an invalid address"))

  unfoldable pub parse_upstream : Bytes → Result SocketAddr
  parse_upstream value = do
    parsed ← ok_or (urls.parse value) (invalid_upstream (bytes "must be an absolute HTTP URL"))
    fail_if (not (equal parsed.scheme (bytes "http")))
        (invalid_upstream (bytes "must use http inside the Pod"))
    fail_if (has_more parsed)
        (invalid_upstream (bytes "must contain only a loopback host and port"))
    host ← ok_or parsed.host_str (invalid_upstream (bytes "must include a host"))
    fail_if
        (not (equal host (bytes "127.0.0.1"))
          && (not (equal host (bytes "::1")) && not (equal host (bytes "localhost"))))
        (invalid_upstream (bytes "must use a loopback host"))
    port ← ok_or parsed.port (invalid_upstream (bytes "must include an explicit port"))
    upstream_address host port
