-- ===== src/Proxy/Etag/Claims.antt =====
-- Which entity tags are taken from upstream, and what a derived tag says.
use kse_static_rewrite_proxy.Base.{
  ℕ, suc, ◌-◌, true, false, [], ◌∷◌, ◌++◌, ◌≡◌, ◌≢◌, ◌↔◌, ◌⊎◌, inl, inr, refl, sym, ap, ◌∙◌, Option,
  none, some, leb, length, take, get_last?, arith, Bool-cases, length-append, take-append_self,
}
use mathlib.Core.List.{append_cancel_left, append_cancel_right}
use kse_static_rewrite_proxy.Slice.{Bytes, bytes, equal, starts_with}
use kse_static_rewrite_proxy.Slice.Text.{all_bytes, strip_prefix, contains_byte}
use kse_static_rewrite_proxy.Slice.Prefix.{starts_with→append, equal→eq, equal_refl}
use kse_static_rewrite_proxy.Slice.Split.{byte_split}
use kse_static_rewrite_proxy.Proxy.Etag.{
  Digest, hashed, components, derive_etag, is_etag_byte, without_weak, is_quote, is_quoted,
  reliable_etag, rewrite_rule_version,
}

-- A quoted text with no quote, space or control character in it.
abbrev pub IsOpaque : Bytes → Type 0
IsOpaque text =
    (tag : Bytes) × (text ≡ b'"' ∷ (tag ++ (b'"' ∷ []))) × (all_bytes is_etag_byte tag ≡ true)

-- An entity tag, strong or weak.
abbrev pub IsEntityTag : Bytes → Type 0
IsEntityTag value =
    IsOpaque value ⊎ ((opaque : Bytes) × (value ≡ bytes "W/" ++ opaque) × IsOpaque opaque)

get_last-take :
    (xs : Bytes) (l : ℕ) → get_last? xs ≡ some l → xs ≡ take (length xs - 1) xs ++ (l ∷ [])
get_last-take [] l e = cc
get_last-take (x ∷ []) l e = ground arith
get_last-take (x ∷ (y ∷ ys)) l e =
    let n : suc (length (y ∷ ys)) - 1 ≡ suc (length ys) = omega arith in
    let m : length (y ∷ ys) - 1 ≡ length ys = omega arith in
    rw n (ap (◌∷◌ x) (rw (← m) (get_last-take (y ∷ ys) l e)))

get_last-append : (xs : Bytes) (l : ℕ) → get_last? (xs ++ (l ∷ [])) ≡ some l
get_last-append [] l = refl
get_last-append (x ∷ []) l = refl
get_last-append (x ∷ (y ∷ ys)) l = get_last-append (y ∷ ys) l

is_quote→eq : (o : Option ℕ) → is_quote o ≡ true → o ≡ some b'"'
is_quote→eq none h = cc
is_quote→eq (some b) h = ground arith

is_quoted→IsOpaque : (text : Bytes) → is_quoted text ≡ true → IsOpaque text
unfolding is_quoted
is_quoted→IsOpaque [] h = cc
is_quoted→IsOpaque (b ∷ []) h = absurd (ground arith)
is_quoted→IsOpaque (b ∷ (c ∷ cs)) h =
    let bs = c ∷ cs in
    let start = is_quote→eq (some b) (ground arith) in
    let end = is_quote→eq (get_last? bs) (ground arith) in
    let n : length (b ∷ bs) - 2 ≡ length bs - 1 = omega arith in
    (
      take (length bs - 1) bs,
      ap (◌∷◌ b) (get_last-take bs b'"' end)
          ∙ ap (λ (x : ℕ). x ∷ (take (length bs - 1) bs ++ (b'"' ∷ []))) (ground arith),
      rw (← n) (ground arith),
    )

IsOpaque→is_quoted :
    (tag : Bytes)
    → all_bytes is_etag_byte tag ≡ true
    → is_quoted (b'"' ∷ (tag ++ (b'"' ∷ []))) ≡ true
unfolding is_quoted
IsOpaque→is_quoted tag h =
    let l = length-append tag (b'"' ∷ []) in
    let n : suc (length (tag ++ (b'"' ∷ []))) - 2 ≡ length tag = omega arith in
    let long : leb 2 (suc (length (tag ++ (b'"' ∷ [])))) ≡ true = ground arith in
    rw (get_last-append (b'"' ∷ tag) b'"', long, n, take-append_self tag (b'"' ∷ [])) h

opaque→quoted : (text : Bytes) → IsOpaque text → is_quoted text ≡ true
opaque→quoted text (tag, e, h) = rw e (IsOpaque→is_quoted tag h)

strip_weak : (rest : Bytes) → strip_prefix (bytes "W/") (bytes "W/" ++ rest) ≡ some rest
unfolding strip_prefix starts_with
strip_weak rest = refl

not_weak : (text : Bytes) → IsOpaque text → strip_prefix (bytes "W/") text ≡ none
unfolding strip_prefix starts_with
not_weak text (tag, e, h) = rw e refl

strip_prefix-some :
    (value rest : Bytes) → strip_prefix (bytes "W/") value ≡ some rest → value ≡ bytes "W/" ++ rest
unfolding strip_prefix
strip_prefix-some value rest e = elim (Bool-cases (starts_with (bytes "W/") value)) [
  | inl there ↦
      starts_with→append (bytes "W/") value there
      ∙ ap (λ (xs : Bytes). bytes "W/" ++ xs) (ground arith)
  | inr missing ↦ absurd (ground arith)
]

reliable→IsEntityTag :
    (value : Bytes)
    → is_quoted (without_weak value (strip_prefix (bytes "W/") value)) ≡ true
    → IsEntityTag value
reliable→IsEntityTag value h = go (strip_prefix (bytes "W/") value) (strip_prefix-some value) h
  where
    go :
        (o : Option Bytes)
        → ((rest : Bytes) → o ≡ some rest → value ≡ bytes "W/" ++ rest)
        → is_quoted (without_weak value o) ≡ true
        → IsEntityTag value
    go none f k = inl (is_quoted→IsOpaque value k)
    go (some rest) f k = inr (rest, f rest refl, is_quoted→IsOpaque rest k)

IsEntityTag→reliable :
    (value : Bytes)
    → IsEntityTag value
    → is_quoted (without_weak value (strip_prefix (bytes "W/") value)) ≡ true
IsEntityTag→reliable value (inl h) = rw (not_weak value h) (opaque→quoted value h)
IsEntityTag→reliable value (inr (rest, e, h)) = rw (e, strip_weak rest) (opaque→quoted rest h)

-- A value is taken, and taken as it is, exactly if it is an entity tag: `W/` or nothing, and a text in
-- quotes without a quote, a space or a control character in it.
pub reliable_etag_iff :
    (value taken : Bytes)
    → (reliable_etag value ≡ some taken) ↔ ((taken ≡ value) × IsEntityTag value)
unfolding reliable_etag
reliable_etag_iff value taken = (
  λ e. elim (Bool-cases (is_quoted (without_weak value (strip_prefix (bytes "W/") value)))) [
    | inl quoted ↦ (ground arith, reliable→IsEntityTag value quoted)
    | inr other ↦ absurd (ground arith)
  ],
  λ h. rw (IsEntityTag→reliable value h.1) (ap some (sym h.0)),
)

-- Two inputs that differ and have the same hash.
abbrev pub Collision : Digest → Bytes → Bytes → Type 0
Collision digest u v = (u ≢ v) × (digest.hash u ≡ digest.hash v)

-- A text without a zero byte.
abbrev pub IsZeroFree : Bytes → Type 0
IsZeroFree text = contains_byte 0 text ≡ false

hashed-components :
    (e b x f c y : Bytes)
    → IsZeroFree e
    → IsZeroFree b
    → IsZeroFree x
    → IsZeroFree f
    → IsZeroFree c
    → IsZeroFree y
    → hashed (components e b x) ≡ hashed (components f c y)
    → (e ≡ f) × (b ≡ c) × (x ≡ y)
unfolding hashed
hashed-components e b x f c y he hb hx hf hc hy same =
    let (one, r) = byte_split 0 e f _ _ he hf same in
    let (two, s) = byte_split 0 b c _ _ hb hc r in
    let (three, t) = byte_split 0 x y _ _ hx hy s in (one, two, three)

module _ (digest : Digest) where
  encode-eq : (u v : Bytes) → digest.encode u ≡ digest.encode v → u ≡ v
  encode-eq u v e =
      let decoded = sym (digest.decode-encode u) ∙ (ap digest.decode e ∙ digest.decode-encode v) in
      ground arith

  derived_hash :
      (e b x f c y : Bytes)
      → derive_etag digest e b x ≡ derive_etag digest f c y
      → digest.hash (hashed (components e b x)) ≡ digest.hash (hashed (components f c y))
  unfolding derive_etag
  derived_hash e b x f c y same = encode-eq _ _ (
      append_cancel_right _ _ (bytes "\"")
        (append_cancel_left (bytes "W/\"kserw-" ++ (rewrite_rule_version ++ bytes "-")) _ _ same))

  -- For components without a zero byte: if the derived tags of two responses are equal, so are the
  -- upstream tags, the base paths and the extensions, or the two inputs of the hash differ and collide.
  pub derive_etag-eq :
      (e b x f c y : Bytes)
      → IsZeroFree e
      → IsZeroFree b
      → IsZeroFree x
      → IsZeroFree f
      → IsZeroFree c
      → IsZeroFree y
      → derive_etag digest e b x ≡ derive_etag digest f c y
      → ((e ≡ f) × (b ≡ c) × (x ≡ y))
        ⊎ Collision digest (hashed (components e b x)) (hashed (components f c y))
  derive_etag-eq e b x f c y he hb hx hf hc hy same =
      let u = hashed (components e b x) in
      let v = hashed (components f c y) in
      elim (Bool-cases (equal u v)) [
        | inl equals ↦ inl (hashed-components e b x f c y he hb hx hf hc hy (equal→eq u v equals))
        | inr differs ↦ inr (λ k. ne u v differs k, derived_hash e b x f c y same)
      ]
    where
      ne : (u v : Bytes) → equal u v ≡ false → u ≢ v
      ne u v h k = let t = rw k at h in let r = equal_refl v in cc
