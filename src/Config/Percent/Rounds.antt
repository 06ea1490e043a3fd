-- ===== src/Config/Percent/Rounds.antt =====
-- The rounds of `decode_repeatedly` are enough.
use kse_static_rewrite_proxy.Base.{
  ℕ, zero, suc, ◌*◌, ◌≤◌, true, false, [], ◌∷◌, ◌≡◌, ◌≢◌, inl, inr, refl, sym, ◌∙◌, arith,
  Bool-cases,
}
use kse_static_rewrite_proxy.Slice.{Bytes, equal}
use kse_static_rewrite_proxy.Slice.Prefix.{equal_refl}
use kse_static_rewrite_proxy.Literal.Contract.{is_utf8}
use kse_static_rewrite_proxy.Config.Error.{Result, ok, ok_or}
use kse_static_rewrite_proxy.Config.BasePath.{char_count}
use kse_static_rewrite_proxy.Config.BasePath.Claims.{ascii-le-chars}
use kse_static_rewrite_proxy.Config.Percent.{
  PercentDecode, is_percent_encoded, validate_percent_encoding, decode_utf8, decode_rounds,
  decode_repeatedly,
}
use kse_static_rewrite_proxy.Config.Percent.Decoded.{
  ascii_count, percent_decode-Shrinks, percent_decode_wide,
}

is_percent_encoded-wide : (text : Bytes) → ascii_count text ≡ 0 → is_percent_encoded text ≡ true
unfolding ascii_count is_percent_encoded
is_percent_encoded-wide [] h = refl
is_percent_encoded-wide (c ∷ []) h = ground arith
is_percent_encoded-wide (c ∷ (a ∷ [])) h = ground arith
is_percent_encoded-wide (c ∷ (a ∷ (b ∷ cs))) h =
    ground (arith, is_percent_encoded-wide (a ∷ (b ∷ cs)) (ground arith))

module _ (p : PercentDecode) where
  -- A round over a text that is well encoded and decodes to UTF-8.
  decode_rounds-suc :
      (n : ℕ) (text : Bytes)
      → is_percent_encoded text ≡ true
      → is_utf8 (p.percent_decode text) ≡ true
      → decode_rounds p (suc n) text
        ≡ (elim (equal (p.percent_decode text) text) as (λ _. Result Bytes) [
          | true ↦ ok text
          | false ↦ decode_rounds p n (p.percent_decode text)
        ])
  unfolding decode_rounds validate_percent_encoding decode_utf8 ok_or
  decode_rounds-suc n text encoded utf8 = rw (encoded, utf8) refl

  -- One round more in front: what follows matters only for a text that has changed.
  decode_rounds_cong :
      (n k : ℕ) (text : Bytes)
      → (is_percent_encoded text ≡ true
          → is_utf8 (p.percent_decode text) ≡ true
          → p.percent_decode text ≢ text
          → decode_rounds p n (p.percent_decode text) ≡ decode_rounds p k (p.percent_decode text))
      → decode_rounds p (suc n) text ≡ decode_rounds p (suc k) text
  decode_rounds_cong n k text later = elim (Bool-cases (is_percent_encoded text)) [
    | inr fails ↦ unfold decode_rounds validate_percent_encoding in rw fails refl
    | inl encoded ↦ elim (Bool-cases (is_utf8 (p.percent_decode text))) [
      | inr fails ↦
          unfold decode_rounds validate_percent_encoding decode_utf8 ok_or in
          rw (encoded, fails) refl
      | inl utf8 ↦
          rw (decode_rounds-suc n text encoded utf8, decode_rounds-suc k text encoded utf8)
            (elim (Bool-cases (equal (p.percent_decode text) text)) [
              | inl same ↦ rw same refl
              | inr differs ↦
                  let changed : p.percent_decode text ≢ text =
                    λ e. absurd (ground (arith, equal_refl text)) in
                  rw differs (later encoded utf8 changed)
            ])
    ]
  ]

  decode_rounds-fixed :
      (n : ℕ) (text : Bytes)
      → ascii_count text ≡ 0
      → is_utf8 text ≡ true
      → decode_rounds p n text ≡ ok text
  decode_rounds-fixed zero text wide utf8 = unfold decode_rounds in refl
  decode_rounds-fixed (suc n) text wide utf8 =
      let same = percent_decode_wide p text wide in
      decode_rounds-suc n text (is_percent_encoded-wide text wide) (rw same utf8)
      ∙ rw same (rw (equal_refl text) refl)

  decode_rounds-enough :
      (n k : ℕ) (text : Bytes)
      → n ≤ k
      → ascii_count text ≤ 2 * n
      → is_utf8 text ≡ true
      → decode_rounds p k text ≡ decode_rounds p n text
  decode_rounds-enough zero k text l wide utf8 =
      decode_rounds-fixed k text (omega arith) utf8
      ∙ sym (decode_rounds-fixed 0 text (omega arith) utf8)
  decode_rounds-enough (suc n) zero text l below utf8 = absurd (omega arith)
  decode_rounds-enough (suc n) (suc k) text l below utf8 =
      decode_rounds_cong k n text (λ encoded utf8' changed.
        elim (percent_decode-Shrinks p text encoded) [
          | inl e ↦ absurd (changed e)
          | inr shorter ↦
              decode_rounds-enough n k (p.percent_decode text) (omega arith) (omega arith) utf8'
        ])

  -- For any decoder with the documented laws: on a text of 1024 characters at most the loop always
  -- ends by itself, in an error or at a text that decoding does not change: with any greater number
  -- of rounds it gives the same.
  pub decode_repeatedly-enough :
      (value : Bytes) (rounds : ℕ)
      → is_utf8 value ≡ true
      → char_count value ≤ 1024
      → 1024 ≤ rounds
      → decode_rounds p rounds value ≡ decode_repeatedly p value
  unfolding decode_repeatedly
  decode_repeatedly-enough value rounds utf8 short more =
      let below = ascii-le-chars value in
      decode_rounds-enough 1024 rounds value more (omega arith) utf8
