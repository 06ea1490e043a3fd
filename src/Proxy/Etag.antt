-- ===== src/Proxy/Etag.antt =====
-- src/proxy.rs: `reliable_etag`, `derive_etag` and `if_none_match_matches`. The crates blake3 and
-- base64 are an interface.
pub mod Claims
pub mod Matches
use kse_static_rewrite_proxy.Base.{
  ℕ, ◌-◌, ◌≤◌, Bool, true, false, not, ◌&&◌, ◌||◌, List, [], ◌∷◌, ◌++◌, map, ◌≡◌, ◌≢◌, Option, none,
  some, ◌==◌, leb, ltb, within, length, take, drop, get_last?, head?, if◌then◌else◌,
}
use kse_static_rewrite_proxy.Slice.{Bytes, bytes, equal}
use kse_static_rewrite_proxy.Slice.Text.{all_bytes, strip_prefix, any}
use kse_static_rewrite_proxy.Slice.Split.{split, trim}
use kse_static_rewrite_proxy.Http.{Http}

-- The alphabet of `URL_SAFE_NO_PAD`.
abbrev pub is_url_safe : ℕ → Bool
is_url_safe b =
    within b'A' b'Z' b || (within b'a' b'z' b || (within b'0' b'9' b || (b == b'-' || b == b'_')))

-- A hash of what a `Hasher` was updated with, the pieces one behind the other, and the engine
-- `URL_SAFE_NO_PAD`, whose output can be decoded.
pub record Digest : Type 0 where
  pub hash : Bytes → Bytes
  pub encode : Bytes → Bytes
  pub decode : Bytes → Option Bytes
  pub decode-encode : (input : Bytes) → decode (encode input) ≡ some input
  pub encode_safe : (input : Bytes) → all_bytes is_url_safe (encode input) ≡ true

-- `REWRITE_RULE_VERSION`.
abbrev pub rewrite_rule_version : Bytes
rewrite_rule_version = bytes "v34"

-- What the hasher is updated with: each component and a zero byte.
unfoldable pub hashed : List Bytes → Bytes
hashed [] = []
hashed (component ∷ components) = component ++ (0 ∷ hashed components)

abbrev pub components : Bytes → Bytes → Bytes → List Bytes
components upstream_etag base_path extension =
    upstream_etag ∷ base_path ∷ extension ∷ rewrite_rule_version ∷ []

unfoldable pub derive_etag : Digest → Bytes → Bytes → Bytes → Bytes
derive_etag digest upstream_etag base_path extension =
    bytes "W/\"kserw-"
    ++ (rewrite_rule_version
        ++ (bytes "-"
            ++ (digest.encode (digest.hash (hashed (components upstream_etag base_path extension)))
                ++ bytes "\"")))

-- A byte between the quotes.
abbrev pub is_etag_byte : ℕ → Bool
is_etag_byte b = b == 0x21 || (within 0x23 0x7E b || leb 0x80 b)

abbrev pub without_weak : Bytes → Option Bytes → Bytes
without_weak value none = value
without_weak value (some rest) = rest

abbrev pub is_quote : Option ℕ → Bool
is_quote none = false
is_quote (some b) = b == b'"'

-- The first and the last byte of `opaque`, and the bytes between them.
unfoldable pub is_quoted : Bytes → Bool
is_quoted opaque =
    (leb 2 (length opaque) && (is_quote (head? opaque) && is_quote (get_last? opaque)))
    && all_bytes is_etag_byte (take (length opaque - 2) (drop 1 opaque))

unfoldable pub reliable_etag : Bytes → Option Bytes
unfolding is_quoted
reliable_etag value =
    if is_quoted (without_weak value (strip_prefix (bytes "W/") value)) then some value else none

unfoldable pub matches_any : Bytes → Bytes → Bool
matches_any derived_etag header =
    any (λ candidate. equal candidate (bytes "*") || equal candidate derived_etag)
      (map trim (split b',' header))

module _ (http : Http) where
  unfoldable pub if_none_match_matches : Option Bytes → Bytes → Bool
  if_none_match_matches none derived_etag = false
  if_none_match_matches (some value) derived_etag = elim (http.to_str value) [
    | none ↦ false
    | some header ↦ matches_any derived_etag header
  ]
