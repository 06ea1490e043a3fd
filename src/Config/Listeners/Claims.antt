-- ===== src/Config/Listeners/Claims.antt =====
-- Which upstream is accepted, and what it means for addresses not to overlap.
use kse_static_rewrite_proxy.Base.{
  ℕ, ◌<◌, true, false, not, ◌&&◌, ◌++◌, ◌≡◌, ◌≢◌, ◌⊎◌, inl, inr, refl, ap, ◌∙◌, some, ◌==◌, arith,
  Bool-cases,
}
use kse_static_rewrite_proxy.Slice.{Bytes, bytes, equal}
use kse_static_rewrite_proxy.Slice.Prefix.{equal→eq}
use kse_static_rewrite_proxy.Config.Error.{ok, ok_or, fail_if-ok, ok_or-ok}
use kse_static_rewrite_proxy.Config.Listeners.{
  IpAddr, v4, v6, SocketAddr, localhost_v4, is_unspecified, same_ip, socket_addrs_overlap, decimal,
  SocketParser, Url, UrlParser, upstream_address, parse_upstream,
}

-- Two listeners can be open at once: their ports differ, or both have an address of their own.
abbrev pub AreApart : SocketAddr → SocketAddr → Type 0
AreApart first second =
    (first.port ≢ second.port)
    ⊎ ((is_unspecified first.ip ≡ false)
        × (is_unspecified second.ip ≡ false)
        × (first.ip ≢ second.ip))

same_ip_refl : (ip : IpAddr) → same_ip ip ip ≡ true
same_ip_refl (v4 n) = ground arith
same_ip_refl (v6 n) = ground arith

pub overlap-AreApart :
    (first second : SocketAddr) → socket_addrs_overlap first second ≡ false → AreApart first second
unfolding socket_addrs_overlap
overlap-AreApart first second h = elim (Bool-cases (first.port == second.port)) [
  | inr differs ↦ inl (λ e. ground arith)
  | inl same ↦ inr (
    ground arith,
    ground arith,
    λ e. ground (arith, ap (same_ip first.ip) e, same_ip_refl first.ip),
  )
]

module _ (sockets : SocketParser) (urls : UrlParser) where
  upstream_address_lem :
      (host : Bytes) (port : ℕ) (upstream : SocketAddr)
      → port < 65536
      → equal host (bytes "::1") ≡ false
      → (not (equal host (bytes "127.0.0.1"))
          && (not (equal host (bytes "::1")) && not (equal host (bytes "localhost"))))
        ≡ false
      → upstream_address sockets urls host port ≡ ok upstream
      → upstream ≡ record { ip = localhost_v4; port = port }
  unfolding upstream_address ok_or
  upstream_address_lem host port upstream l v6_host known h =
      elim (Bool-cases (equal host (bytes "localhost"))) [
        | inl local ↦ ground arith
        | inr other ↦
            let same = equal→eq host (bytes "127.0.0.1") (ground arith) in
            let parsed =
              ap (λ (xs : Bytes). sockets.parse (xs ++ (bytes ":" ++ decimal port))) same
              ∙ sockets.parse_v4 port l in
            ground arith
      ]

  accepted_upstream :
      (value : Bytes) (url : Url) (host : Bytes) (port : ℕ) (upstream : SocketAddr)
      → urls.parse value ≡ some url
      → equal url.scheme (bytes "http") ≡ true
      → url.host_str ≡ some host
      → url.port ≡ some port
      → (not (equal host (bytes "127.0.0.1"))
          && (not (equal host (bytes "::1")) && not (equal host (bytes "localhost"))))
        ≡ false
      → upstream_address sockets urls host port ≡ ok upstream
      → (upstream.ip ≡ localhost_v4) × (upstream.port < 65536) × (upstream.port ≢ 80)
  accepted_upstream value url host port upstream parsed http named numbered known h =
      let l = urls.port_range value url port parsed numbered in
      let bare : equal host (bytes "::1") ≡ false = elim (Bool-cases (equal host (bytes "::1"))) [
        | inr fails ↦ fails
        | inl holds ↦
            absurd (
              urls.bracketed value url parsed (named ∙ ap some (equal→eq host (bytes "::1") holds)))
      ] in
      let e = upstream_address_lem host port upstream l bare known h in
      rw e (refl, l, λ same. urls.no_default value url parsed http (numbered ∙ ap some same))

  -- An upstream is accepted on 127.0.0.1 only, and never on port 80: a host `::1` is not seen, since
  -- the crate url writes it in brackets, and a port that is the default of `http` is not seen either.
  pub parse_upstream_lem :
      (value : Bytes) (upstream : SocketAddr)
      → parse_upstream sockets urls value ≡ ok upstream
      → (upstream.ip ≡ localhost_v4) × (upstream.port < 65536) × (upstream.port ≢ 80)
  unfolding parse_upstream
  parse_upstream_lem value upstream h =
      let (url, parsed, h1) = ok_or-ok (urls.parse value) _ _ h in
      let (http, h2) = fail_if-ok _ _ _ h1 in
      let (bare, h3) = fail_if-ok _ _ _ h2 in
      let (host, named, h4) = ok_or-ok url.host_str _ _ h3 in
      let (known, h5) = fail_if-ok _ _ _ h4 in
      let (port, numbered, h6) = ok_or-ok url.port _ _ h5 in
      accepted_upstream value url host port upstream parsed (ground arith) named numbered known h6
