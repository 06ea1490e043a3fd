-- ===== src/Config/Percent.antt =====
-- src/config.rs: `validate_percent_encoding` and `decode_repeatedly`, with the crate
-- percent-encoding as an interface.
pub mod Decoded
pub mod Rounds
use kse_static_rewrite_proxy.Base.{
  ℕ, zero, suc, ◌+◌, ◌*◌, Bool, true, false, not, ◌&&◌, ◌||◌, [], ◌∷◌, ◌≡◌, Option, none, some,
  ◌==◌, within, if◌then◌else◌,
}
use kse_static_rewrite_proxy.Slice.{Bytes, bytes, equal}
use kse_static_rewrite_proxy.Literal.Contract.{is_utf8}
use kse_static_rewrite_proxy.Config.Error.{Result, ok, err, invalid_base_path, ◌>>◌, ok_or, ◌>>=◌}

unfoldable pub is_ascii_hexdigit : ℕ → Bool
is_ascii_hexdigit b = within b'0' b'9' b || (within b'A' b'F' b || within b'a' b'f' b)

-- `percent_decode_str(text)` as bytes: "percent-encoded bytes" are "decoded", and what is not
-- percent-encoded is passed on.
pub record PercentDecode : Type 0 where
  pub percent_decode : Bytes → Bytes
  pub decode_nil : percent_decode [] ≡ []
  pub decode_byte :
      (c : ℕ) (cs : Bytes) → (c == b'%') ≡ false → percent_decode (c ∷ cs) ≡ c ∷ percent_decode cs
  pub decode_escape :
      (a b : ℕ) (cs : Bytes)
      → (is_ascii_hexdigit a && is_ascii_hexdigit b) ≡ true
      → (n : ℕ) × (percent_decode (b'%' ∷ (a ∷ (b ∷ cs))) ≡ n ∷ percent_decode cs)

-- The loop: a `%` stands before two hexadecimal digits.
unfoldable pub is_percent_encoded : Bytes → Bool
is_percent_encoded [] = true
is_percent_encoded (c ∷ []) = not (c == b'%')
is_percent_encoded (c ∷ (a ∷ [])) = not (c == b'%') && not (a == b'%')
is_percent_encoded (c ∷ (a ∷ (b ∷ cs))) =
    let escaped = is_percent_encoded cs in
    let plain = is_percent_encoded (a ∷ (b ∷ cs)) in
    if c == b'%' then (is_ascii_hexdigit a && is_ascii_hexdigit b) && escaped else plain

abbrev pub bad_encoding : Bytes
bad_encoding = bytes "contains invalid percent encoding"

unfoldable pub validate_percent_encoding : Bytes → Result (Unit {0})
validate_percent_encoding value =
    if is_percent_encoded value then ok tt else err (invalid_base_path bad_encoding)

abbrev pub max_base_path_length : ℕ
max_base_path_length = 1024

module _ (p : PercentDecode) where
  -- `percent_decode_str(text).decode_utf8()`.
  unfoldable pub decode_utf8 : Bytes → Option Bytes
  decode_utf8 text = if is_utf8 (p.percent_decode text) then some (p.percent_decode text) else none

  -- The rounds that are left, over the text decoded so far.
  unfoldable pub decode_rounds : ℕ → Bytes → Result Bytes
  decode_rounds zero decoded = ok decoded
  decode_rounds (suc rounds) decoded = do
    validate_percent_encoding decoded
    next ← ok_or (decode_utf8 decoded) (invalid_base_path bad_encoding)
    elim (equal next decoded) [ true ↦ ok decoded | false ↦ decode_rounds rounds next ]

  unfoldable pub decode_repeatedly : Bytes → Result Bytes
  decode_repeatedly value = decode_rounds max_base_path_length value
