-- ===== src/Config/Percent/Decoded.antt =====
-- Decoding ends: a round that changes the text leaves fewer ASCII bytes.
use kse_static_rewrite_proxy.Base.{
  ℕ, zero, suc, ◌+◌, ◌*◌, ◌≤◌, true, false, ◌&&◌, [], ◌∷◌, ◌≡◌, ◌⊎◌, inl, inr, refl, ◌==◌, ltb,
  arith, ap, ◌∙◌, ◌≢◌, Bool-cases, if◌then◌else◌,
}
use kse_static_rewrite_proxy.Slice.{Bytes, equal}
use kse_static_rewrite_proxy.Slice.Prefix.{equal→eq, equal_refl}
use kse_static_rewrite_proxy.Literal.Contract.{is_utf8}
use kse_static_rewrite_proxy.Config.Error.{ok, ok_or}
use kse_static_rewrite_proxy.Config.Percent.{
  PercentDecode, is_ascii_hexdigit, is_percent_encoded, validate_percent_encoding, decode_utf8,
  decode_rounds,
}

unfoldable pub ascii_count : Bytes → ℕ
ascii_count [] = 0
ascii_count (b ∷ bs) = if ltb b 0x80 then ascii_count bs + 1 else ascii_count bs

module _ (p : PercentDecode) where
  -- A text is decoded, or one round takes two ASCII bytes at least.
  abbrev pub Shrinks : Bytes → Type 0
  Shrinks text =
      (p.percent_decode text ≡ text) ⊎ (ascii_count (p.percent_decode text) + 2 ≤ ascii_count text)

  Shrinks-byte : (c : ℕ) (cs : Bytes) → (c == b'%') ≡ false → Shrinks cs → Shrinks (c ∷ cs)
  unfolding ascii_count
  Shrinks-byte c cs h (inl e) = inl (p.decode_byte c cs h ∙ ap (◌∷◌ c) e)
  Shrinks-byte c cs h (inr l) = inr (rw (p.decode_byte c cs h) (ground arith))

  Shrinks-le :
      (text : Bytes) → Shrinks text → ascii_count (p.percent_decode text) ≤ ascii_count text
  Shrinks-le text (inl e) = rw e (omega arith)
  Shrinks-le text (inr l) = omega arith

  Shrinks-escape :
      (a b : ℕ) (cs : Bytes)
      → (is_ascii_hexdigit a && is_ascii_hexdigit b) ≡ true
      → Shrinks cs
      → Shrinks (b'%' ∷ (a ∷ (b ∷ cs)))
  unfolding ascii_count is_ascii_hexdigit
  Shrinks-escape a b cs h s =
      let (n, e) = p.decode_escape a b cs h in inr (rw e (ground (arith, Shrinks-le cs s)))

  pub percent_decode-Shrinks : (text : Bytes) → is_percent_encoded text ≡ true → Shrinks text
  unfolding is_percent_encoded
  percent_decode-Shrinks [] h = inl p.decode_nil
  percent_decode-Shrinks (c ∷ []) h = Shrinks-byte c [] (ground arith) (inl p.decode_nil)
  percent_decode-Shrinks (c ∷ (a ∷ [])) h =
      Shrinks-byte c (a ∷ []) (ground arith) (Shrinks-byte a [] (ground arith) (inl p.decode_nil))
  percent_decode-Shrinks (c ∷ (a ∷ (b ∷ cs))) h = elim (Bool-cases (c == b'%')) [
    | inl escaped ↦
        let same : ◌≡◌ {A = ℕ} 37 c = ground arith in
        rw (← same)
          (Shrinks-escape a b cs (ground arith) (percent_decode-Shrinks cs (ground arith)))
    | inr plain ↦
        Shrinks-byte c (a ∷ (b ∷ cs)) plain (percent_decode-Shrinks (a ∷ (b ∷ cs)) (ground arith))
  ]

  -- A text with no ASCII bytes has nothing to decode.
  pub percent_decode_wide : (text : Bytes) → ascii_count text ≡ 0 → p.percent_decode text ≡ text
  unfolding ascii_count
  percent_decode_wide [] h = p.decode_nil
  percent_decode_wide (c ∷ cs) h =
      p.decode_byte c cs (ground arith) ∙ ap (◌∷◌ c) (percent_decode_wide cs (ground arith))

  -- Decoded `k` times.
  abbrev pub decoded_times : ℕ → Bytes → Bytes
  decoded_times zero text = text
  decoded_times (suc k) text = decoded_times k (p.percent_decode text)

  pub record IsDecoded (text decoded : Bytes) : Type 0 where
    pub times : ℕ
    pub reached : decoded ≡ decoded_times times text
    pub fixed : p.percent_decode decoded ≡ decoded

  later-IsDecoded :
      (text decoded : Bytes) → IsDecoded (p.percent_decode text) decoded → IsDecoded text decoded
  later-IsDecoded text decoded d = record {
    times = suc d.times;
    reached = d.reached;
    fixed = d.fixed;
  }

  -- A round that succeeds found the text well encoded, and stops or goes on.
  abbrev Round : ℕ → Bytes → Bytes → Type 0
  Round rounds text decoded =
      (is_percent_encoded text ≡ true)
      × (((p.percent_decode text ≡ text) × (text ≡ decoded))
          ⊎ ((p.percent_decode text ≢ text)
              × (decode_rounds p rounds (p.percent_decode text) ≡ ok decoded)))

  decode_rounds-Round :
      (rounds : ℕ) (text decoded : Bytes)
      → decode_rounds p (suc rounds) text ≡ ok decoded
      → Round rounds text decoded
  unfolding decode_rounds validate_percent_encoding decode_utf8 ok_or
  decode_rounds-Round rounds text decoded h = elim (Bool-cases (is_percent_encoded text)) [
    | inr fails ↦ absurd (ground arith)
    | inl encoded ↦ elim (Bool-cases (is_utf8 (p.percent_decode text))) [
      | inr fails ↦ absurd (ground arith)
      | inl utf8 ↦ elim (Bool-cases (equal (p.percent_decode text) text)) [
        | inl same ↦ (encoded, inl (equal→eq _ _ same, ground arith))
        | inr differs ↦
            (encoded, inr ((λ e. absurd (ground (arith, equal_refl text))), ground arith))
      ]
    ]
  ]

  pub decode_rounds-IsDecoded :
      (rounds : ℕ) (text decoded : Bytes)
      → ascii_count text ≤ 2 * rounds
      → decode_rounds p rounds text ≡ ok decoded
      → IsDecoded text decoded
  decode_rounds-IsDecoded zero text decoded l h =
      let same : text ≡ decoded = unfold decode_rounds in ground arith in
      rw (← same)
        (record { times = 0; reached = refl; fixed = percent_decode_wide text (omega arith) })
  decode_rounds-IsDecoded (suc rounds) text decoded l h =
      let (encoded, step) = decode_rounds-Round rounds text decoded h in
      elim step [
        | inl (fixed, same) ↦ rw (← same) (record { times = 0; reached = refl; fixed = fixed })
        | inr (changed, h') ↦ elim (percent_decode-Shrinks text encoded) [
          | inl e ↦ absurd (changed e)
          | inr shorter ↦
              later-IsDecoded text decoded
                (decode_rounds-IsDecoded rounds (p.percent_decode text) decoded (omega arith) h')
        ]
      ]
