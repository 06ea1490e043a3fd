-- ===== src/Literal/History.antt =====
-- `input_history`: the end of the original input, as long as the inserted prefix.
use kse_static_rewrite_proxy.Base.{
  ℕ, ◌+◌, ◌-◌, ◌≤◌, ◌<◌, true, false, ◌&&◌, [], ◌∷◌, ◌++◌, ◌≡◌, refl, sym, ap, ◌∙◌, Option, none,
  some, leb, arith, drop, take, length, length-append, length-take, length-drop, Bool-cases, inl,
  inr, drop-append_left, take-append-drop, drop_all, last_of, last_of-append_long, drop-drop,
}
use native.Mathlib.Decide.{dec_le}
use kse_static_rewrite_proxy.Slice.{Bytes, equal, ends_with}
use kse_static_rewrite_proxy.Slice.Prefix.{equal-append}
use kse_static_rewrite_proxy.Literal.Rewriter.{original_input_ends_with_prefix, remember_input}

-- The history is the end of the original input `before` the cursor.
abbrev pub Remembers : Option Bytes → Bytes → Bytes → Type 0
Remembers none history before = Unit
Remembers (some inserted) history before = history ≡ last_of (length inserted) before

pub Remembers-empty : (inserted : Option Bytes) → Remembers inserted [] []
Remembers-empty none = tt
Remembers-empty (some inserted) = sym (drop_all _ [] (omega arith))

ends_with_empty : (xs : Bytes) → true ≡ ends_with [] xs
unfolding ends_with equal
ends_with_empty xs = rw (drop_all (length xs - 0) xs (omega arith)) (ground arith)

ends_with-append_long :
    (needle xs ys : Bytes)
    → length needle ≤ length ys
    → ends_with needle ys ≡ ends_with needle (xs ++ ys)
unfolding ends_with
ends_with-append_long needle xs ys h =
    rw (last_of-append_long (length needle) xs ys h) (ground (arith, length-append xs ys))

last_of-append_short :
    (n : ℕ) (before input : Bytes)
    → length input < n
    → drop (length (last_of n before) + length input - n) (last_of n before) ++ input
      ≡ last_of n (before ++ input)
last_of-append_short n before input h =
    let l = length-append before input in
    sym (
      drop-append_left (length (before ++ input) - n) before input (omega arith)
      ∙ ap (λ (xs : Bytes). xs ++ input)
          (sym (
            drop-drop (length before - n) _ (length (before ++ input) - n) before
              (omega (arith, length-drop (length before - n) before)))))

pub remember_input-Remembers :
    (inserted : Option Bytes) (history before input : Bytes)
    → Remembers inserted history before
    → Remembers inserted (remember_input inserted history input) (before ++ input)
unfolding remember_input
remember_input-Remembers none history before input h = tt
remember_input-Remembers (some []) history before input h =
    h ∙ drop_all _ before (omega arith) ∙ sym (drop_all _ (before ++ input) (omega arith))
remember_input-Remembers (some (p ∷ ps)) history before input h =
    elim (Bool-cases (leb (length (p ∷ ps)) (length input))) [
      | inl long ↦ rw long (sym (last_of-append_long (length (p ∷ ps)) before input (ground arith)))
      | inr short ↦
          rw (short, h) (last_of-append_short (length (p ∷ ps)) before input (ground arith))
    ]

-- The text before a match is shorter than the inserted prefix, which lacks `missing` more bytes.
module _ (inserted before bm : Bytes) (missing : ℕ) (short : length bm < length inserted)
    (lacks : missing ≡ length inserted - length bm) where
  ends_with_joined :
      missing ≤ length before
      → ends_with inserted (before ++ bm) ≡ (
          equal (drop (length before - missing) before) (take missing inserted)
          && equal bm (drop missing inserted))
  unfolding ends_with
  ends_with_joined h =
      let l = length-append before bm in
      let cut = drop-append_left (length before - missing) before bm (omega arith) in
      let same : length (before ++ bm) - length inserted ≡ length before - missing = omega arith in
      let long : leb (length inserted) (length (before ++ bm)) ≡ true = ground (arith, l) in
      rw (long, same, cut)
        (ap (equal (drop (length before - missing) before ++ bm))
            (sym (take-append-drop missing inserted))
          ∙ equal-append (drop (length before - missing) before) bm (take missing inserted)
              (drop missing inserted)
              (omega (
                arith,
                length-drop (length before - missing) before,
                length-take missing inserted,
              )))

  ends_with_short : length before < missing → ends_with inserted (before ++ bm) ≡ false
  unfolding ends_with
  ends_with_short h = ground (arith, length-append before bm)

  history_test :
      (history : Bytes)
      → history ≡ last_of (length inserted) before
      → (leb missing (length history)
          && (equal (drop (length history - missing) history) (take missing inserted)
              && equal bm (drop missing inserted)))
        ≡ ends_with inserted (before ++ bm)
  history_test history h =
      let cut = length-drop (length before - length inserted) before in
      let l : length history ≡ length before - (length before - length inserted) = rw h cut in
      elim (dec_le missing (length before)) [
        | yes fits ↦
            let t : leb missing (length history) ≡ true = ground (arith, l) in
            let same : drop (length history - missing) history
                ≡ drop (length before - missing) before =
              rw h (
                drop-drop (length before - length inserted) _ (length before - missing) before
                  (omega (arith, cut))) in
            rw (t, same, ends_with_joined fits) refl
        | no over ↦
            let f : leb missing (length history) ≡ false = ground (arith, l) in
            rw (f, ends_with_short (omega arith)) refl
      ]

-- The history decides the test as the whole original input would.
pub original_input_ends_with_prefix-Remembers :
    (inserted history before before_match : Bytes)
    → Remembers (some inserted) history before
    → original_input_ends_with_prefix (some inserted) history before_match
      ≡ ends_with inserted (before ++ before_match)
unfolding original_input_ends_with_prefix
original_input_ends_with_prefix-Remembers [] history before bm h = ends_with_empty (before ++ bm)
original_input_ends_with_prefix-Remembers (p ∷ ps) history before bm h =
    elim (Bool-cases (leb (length (p ∷ ps)) (length bm))) [
      | inl long ↦ rw long (ends_with-append_long (p ∷ ps) before bm (ground arith))
      | inr short ↦ rw short (history_test (p ∷ ps) before bm _ (ground arith) refl history h)
    ]
