-- ===== src/Admin.antt =====
-- src/admin.rs: `AdminApp`, the answers of the administration server. The encoder of the metrics, the
-- connection to the upstream and what the build sets are parameters.
pub mod Claims
pub mod Version
use kse_static_rewrite_proxy.Base.{
  ℕ, Bool, true, false, ◌&&◌, List, [], ◌∷◌, ◌++◌, Option, none, some, leb, length, if◌then◌else◌,
}
use kse_static_rewrite_proxy.Slice.{Bytes, bytes, equal}
use kse_static_rewrite_proxy.Slice.Text.{all_bytes}
use kse_static_rewrite_proxy.Config.Percent.{is_ascii_hexdigit}
use kse_static_rewrite_proxy.Config.Listeners.{SocketAddr, digits}
use kse_static_rewrite_proxy.Http.{
  HeaderName, content_type, content_length, cache_control, all_visible,
}
use kse_static_rewrite_proxy.Proxy.Etag.{rewrite_rule_version}

-- `http::Response<Vec<u8>>`, its headers in the order of the calls.
pub record Response : Type 0 where
  pub status : ℕ
  pub headers : List (HeaderName × Bytes)
  pub body : Bytes

-- What the build and the environment give: the package's version, the commit if one was set, whether
-- a connection to an address succeeds in time, and `Metrics::encode` with its content type.
pub record Environment : Type 0 where
  pub package_version : Bytes
  pub git_commit : Option Bytes
  pub connects : SocketAddr → Bool
  pub encode : Option (Bytes × Bytes)

-- The builder refuses a value that is not visible ASCII; `none` is the panic of `expect`.
abbrev pub all_valid : List (HeaderName × Bytes) → Bool
all_valid [] = true
all_valid ((name, value) ∷ headers) = all_visible value && all_valid headers

unfoldable pub built : Response → Option Response
built response = if all_valid response.headers then some response else none

-- `body.len()` in decimal, of 20 digits at most.
abbrev pub length_of : Bytes → Bytes
length_of body = digits 20 (length body)

unfoldable pub response : ℕ → Bytes → Bytes → Option Response
unfolding built
response status kind body = built (record {
  status = status;
  headers = (content_type, kind) ∷ (content_length, length_of body) ∷ [];
  body = body;
})

abbrev pub is_commit : Bytes → Bool
is_commit value =
    (leb 7 (length value) && leb (length value) 64) && all_bytes is_ascii_hexdigit value

unfoldable pub normalize_git_commit : Option Bytes → Bytes
normalize_git_commit none = bytes "unknown"
normalize_git_commit (some value) = if is_commit value then value else bytes "unknown"

abbrev pub newline : Bytes
newline = 10 ∷ []

unfoldable pub version_body : Environment → Bytes
version_body env =
    bytes "{\"packageVersion\":\""
    ++ (env.package_version
        ++ (bytes "\",\"rewriteRuleVersion\":\""
            ++ (rewrite_rule_version
                ++ (bytes "\",\"gitCommit\":\""
                    ++ (normalize_git_commit env.git_commit ++ (bytes "\"}" ++ newline))))))

unfoldable pub version_response : Environment → Option Response
unfolding built
version_response env =
    let body = version_body env in
    built (record {
      status = 200;
      headers =
          (content_type, bytes "application/json; charset=utf-8")
          ∷ (cache_control, bytes "no-store")
          ∷ (content_length, length_of body)
          ∷ [];
      body = body;
    })

abbrev pub text : Bytes
text = bytes "text/plain; charset=utf-8"

abbrev pub ready_response : Bool → Option Response
ready_response true = response 200 text (bytes "ready" ++ newline)
ready_response false = response 503 text (bytes "not ready" ++ newline)

abbrev pub metrics_response : Option (Bytes × Bytes) → Option Response
metrics_response none = response 500 text (bytes "failed to encode metrics" ++ newline)
metrics_response (some (kind, body)) = response 200 kind body

-- `AdminApp::response` for the path of a request; `AdminApp` has the address of the upstream.
unfoldable pub respond : Environment → SocketAddr → Bytes → Option Response
respond env upstream path =
    if equal path (bytes "/healthz")
    then response 200 text (bytes "ok" ++ newline)
    else if equal path (bytes "/readyz")
    then ready_response (env.connects upstream)
    else if equal path (bytes "/version")
    then version_response env
    else if equal path (bytes "/metrics")
    then metrics_response env.encode
    else response 404 text (bytes "not found" ++ newline)
